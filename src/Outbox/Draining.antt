-- ===== src/Outbox/Draining.antt =====
-- What the publisher gives to Kafka, and what it leaves.
use mathlib.Core.List.{append_assoc, append-nil, map-append}
use chronos_dev.Common.{
  ℕ, zero, suc, ◌*◌, ◌≤◌, ◌-◌, String, List, [], ◌∷◌, ◌++◌, map, none, some, ◌≡◌, refl, ◌∙◌, sym,
  ap, subst, take, drop, length, take-append-drop, arith, Error, ◌⊎◌, inl, inr,
}
use chronos_dev.Domain.Event.{EventType, event_name}
use chronos_dev.Store.State.{Store, OutboxRow}
use chronos_dev.Store.Outbox.{fetch_outbox_batch, mark_outbox_published}
use chronos_dev.Store.Publication.{row_ids, HasDistinctIds, publish-drop}
use chronos_dev.Outbox.{
  Topics, Message, Publisher, topic_for, message_of, flush_rows, flush, flushes,
}

pub data Plane : Type 0 where
  of_job of_worker of_scheduler : Plane

-- Which part of the system an event is about.
unfoldable pub plane : EventType → Plane
plane EventType.worker_registered = of_worker
plane EventType.worker_heartbeat = of_worker
plane EventType.worker_capacity_changed = of_worker
plane EventType.worker_unavailable = of_worker
plane EventType.worker_recovered = of_worker
plane EventType.worker_deregistered = of_worker
plane EventType.scheduler_started = of_scheduler
plane EventType.scheduler_stopped = of_scheduler
plane EventType.scheduler_leader_acquired = of_scheduler
plane EventType.scheduler_leader_lost = of_scheduler
plane EventType.scheduler_rebalanced = of_scheduler
plane _ = of_job

abbrev pub topic_of : Topics → Plane → String
topic_of c of_job = c.job_events_topic
topic_of c of_worker = c.worker_events_topic
topic_of c of_scheduler = c.scheduler_events_topic

-- Every event goes to the topic of the part of the system that it is about.
pub topic_for-event_name :
    (c : Topics) (e : EventType) → topic_for c (event_name e) ≡ topic_of c (plane e)
unfolding topic_for event_name plane
topic_for-event_name c EventType.job_created = refl
topic_for-event_name c _ = refl

-- A publisher with other rows and messages.
abbrev moved : Publisher → List OutboxRow → List Message → Publisher
moved p rows messages = record p { store = record p.store { outbox = rows }; written = messages }

mark-moved :
    (n : ℕ) (s : Store)
    → HasDistinctIds s.outbox
    → mark_outbox_published (row_ids (take n s.outbox)) s ≡ record s { outbox = drop n s.outbox }
unfolding mark_outbox_published fetch_outbox_batch
mark-moved n s d = ap (λ rows. record s { outbox = rows }) (publish-drop n s d)

flush_rows-moved :
    (n : ℕ) (p : Publisher) (rows : List OutboxRow)
    → p.store.outbox ≡ rows
    → HasDistinctIds p.store.outbox
    → (flush_rows (take (suc n) rows) none p).0
      ≡ moved p (drop (suc n) rows) (p.written ++ map (message_of p.topics) (take (suc n) rows))
unfolding flush_rows
flush_rows-moved n p [] e d = λ i. record p {
  store = record p.store { outbox = e i };
  written = sym (append-nil p.written) i;
}
flush_rows-moved n p (r ∷ rs) e d =
    ap
      (λ s. record p {
        store = s;
        written = p.written ++ map (message_of p.topics) (r ∷ take n rs);
      })
      (subst
        (λ x.
          mark_outbox_published (row_ids (take (suc n) x)) p.store
          ≡ record p.store { outbox = drop (suc n) x })
        e (mark-moved (suc n) p.store d))

flush-moved :
    (p : Publisher)
    → HasDistinctIds p.store.outbox
    → (flush none p).0
      ≡ moved p
          (drop 100 p.store.outbox)
          (p.written ++ map (message_of p.topics) (take 100 p.store.outbox))
unfolding flush fetch_outbox_batch
flush-moved p d = flush_rows-moved 99 p p.store.outbox refl d

drop-HasDistinctIds : (n : ℕ) (rs : List OutboxRow) → HasDistinctIds rs → HasDistinctIds (drop n rs)
drop-HasDistinctIds zero rs d = d
drop-HasDistinctIds (suc n) [] d = d
drop-HasDistinctIds (suc n) (r ∷ rs) d = drop-HasDistinctIds n rs d.1

length-drop : (n : ℕ) (rs : List OutboxRow) → length (drop n rs) ≡ length rs - n
length-drop zero rs = omega arith
length-drop (suc n) [] = omega arith
length-drop (suc n) (r ∷ rs) = omega (arith, length-drop n rs)

length_zero : (rs : List OutboxRow) → length rs ≤ 0 → rs ≡ []
length_zero [] h = refl
length_zero (r ∷ rs) h = absurd (omega arith)

flushes-step :
    (n : ℕ) (p q : Publisher)
    → length p.store.outbox ≤ 100 * suc n
    → HasDistinctIds p.store.outbox
    → q
      ≡ moved p
          (drop 100 p.store.outbox)
          (p.written ++ map (message_of p.topics) (take 100 p.store.outbox))
    → (length q.store.outbox ≤ 100 * n)
      × HasDistinctIds q.store.outbox
      × (q.written ++ map (message_of q.topics) q.store.outbox
          ≡ p.written ++ map (message_of p.topics) p.store.outbox)
flushes-step n p q h d e =
    subst
      (λ x.
        (length x.store.outbox ≤ 100 * n)
        × HasDistinctIds x.store.outbox
        × (x.written ++ map (message_of x.topics) x.store.outbox
            ≡ p.written ++ map (message_of p.topics) p.store.outbox))
      (sym e)
      (
        omega (arith, length-drop 100 p.store.outbox),
        drop-HasDistinctIds 100 p.store.outbox d,
        append_assoc p.written _ _
            ∙ ap (◌++◌ p.written) (
                sym (
                  map-append (message_of p.topics) (take 100 p.store.outbox)
                    (drop 100 p.store.outbox))
                ∙ ap (map (message_of p.topics)) (take-append-drop 100 p.store.outbox)),
      )

-- As long as Kafka takes every write, a flush for each hundred rows empties the outbox, and Kafka has
-- the messages of all its rows, each once and in their order, after those it had. The rows must have
-- different identifiers.
pub flushes_drain :
    (n : ℕ) (p : Publisher)
    → length p.store.outbox ≤ 100 * n
    → HasDistinctIds p.store.outbox
    → ((flushes n p).store.outbox ≡ [])
      × ((flushes n p).written ≡ p.written ++ map (message_of p.topics) p.store.outbox)
unfolding flushes
flushes_drain zero p h d =
    let none_left = length_zero p.store.outbox (omega arith) in
    (
      none_left,
      sym (ap (λ x. p.written ++ map (message_of p.topics) x) none_left ∙ append-nil p.written),
    )
flushes_drain (suc n) p h d =
    let (fewer, distinct, same) = flushes-step n p (flush none p).0 h d (flush-moved p d) in
    let (gone, all_) = flushes_drain n (flush none p).0 fewer distinct in (gone, all_ ∙ same)

-- A flush whose write fails leaves the store, and what Kafka has, as they were; the error is reported
-- if there was anything to write.
pub flush_failed :
    (e : Error) (p : Publisher)
    → ((flush (some e) p).0 ≡ p) × ((p.store.outbox ≡ []) ⊎ ((flush (some e) p).1 ≡ some e))
unfolding flush fetch_outbox_batch flush_rows
flush_failed e p = failed_rows p.store.outbox
  where
    failed_rows :
        (rows : List OutboxRow)
        → ((flush_rows (take 100 rows) (some e) p).0 ≡ p)
          × ((rows ≡ []) ⊎ ((flush_rows (take 100 rows) (some e) p).1 ≡ some e))
    failed_rows [] = (refl, inl refl)
    failed_rows (r ∷ rs) = (refl, inr refl)
