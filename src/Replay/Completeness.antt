-- ===== src/Replay/Completeness.antt =====
-- What a replay that no error ends has written.
use mathlib.Core.List.{append_assoc, append-nil}
use chronos_dev.Common.{
  ℕ, zero, suc, ◌-◌, String, Bool, true, false, ◌&&◌, List, [], ◌∷◌, ◌++◌, map, none, if◌then◌else◌,
  ◌≡◌, refl, sym, ap, subst, ◌∙◌, ◌⊎◌, arith, inl, inr, Bool-cases, leb, ltb, length, length-append,
  take, All, Any, Result, ok, err,
}
use chronos_dev.Domain.Job.{Instant}
use chronos_dev.Domain.Event.{Event}
use chronos_dev.Analytics.Table.{EventRow, Writer, row_of_event, batch_rows, insert_events}
use chronos_dev.Replay.{
  Moment, Attempt, Replay, Progress, reading, finished, new_replay, written, insert_batch,
  insert_if, take_replayed, unmarshal, on_read, is_full, replay_turn, and_then, replay_loop,
  last_batch, replay,
}

-- A database that takes what it is given.
pub record IsUp (w : Writer) : Type 0 where
  pub prepares : w.prepare_error ≡ none
  pub appends : (r : EventRow) → w.append_error r ≡ none
  pub sends : w.send_error ≡ none

batch_rows-up :
    (w : Writer) (now : Instant) (es : List Event)
    → IsUp w
    → batch_rows w now es ≡ ok (map (row_of_event w now) es)
unfolding batch_rows
batch_rows-up w now [] up = refl
batch_rows-up w now (e ∷ es) up =
    rw (up.appends (row_of_event w now e), batch_rows-up w now es up) refl

pub insert_events-up :
    (w : Writer) (now : Instant) (es : List Event) (table : List EventRow)
    → IsUp w
    → insert_events w now es table ≡ ok (table ++ map (row_of_event w now) es)
unfolding insert_events
insert_events-up w now [] table up = ap ok (sym (append-nil table))
insert_events-up w now (e ∷ es) table up =
    rw (batch_rows-up w now (e ∷ es) up, up.prepares, up.sends) refl

-- The rows of these events, in their order, each written at some moment.
abbrev pub Wrote : List Event → List EventRow → Type 0
Wrote [] [] = Unit {0}
Wrote [] (r ∷ rows) = ⊥
Wrote (e ∷ es) [] = ⊥
Wrote (e ∷ es) (r ∷ rows) = ((m : Moment) × (r ≡ row_of_event m.writer m.now e)) × Wrote es rows

Wrote-map : (m : Moment) (es : List Event) → Wrote es (map (row_of_event m.writer m.now) es)
Wrote-map m [] = tt
Wrote-map m (e ∷ es) = ((m, refl), Wrote-map m es)

Wrote-append :
    (es fs : List Event) (rows more : List EventRow)
    → Wrote es rows
    → Wrote fs more
    → Wrote (es ++ fs) (rows ++ more)
Wrote-append [] fs [] more h k = k
Wrote-append [] fs (r ∷ rows) more h k = absurd h
Wrote-append (e ∷ es) fs [] more h k = absurd h
Wrote-append (e ∷ es) fs (r ∷ rows) more h k = (h.0, Wrote-append es fs rows more h.1 k)

-- The events of the messages that come before the topic is idle.
abbrev pub message_events : Result Event → List Event → List Event
message_events (ok ev) rest = ev ∷ rest
message_events (err e) rest = rest

abbrev pub attempt_events : (String → Result Event) → Bool → Result String → List Event → List Event
attempt_events decode over (ok value) rest = message_events (decode value) rest
attempt_events decode true (err e) rest = []
attempt_events decode false (err e) rest = rest

abbrev pub replayable : (String → Result Event) → List Attempt → List Event
replayable decode [] = []
replayable decode (a ∷ rest) = attempt_events decode a.is_over a.read (replayable decode rest)

-- An attempt that ends the loop.
abbrev pub IsStop : Bool → Result String → Type 0
IsStop over (ok value) = ⊥
IsStop true (err e) = Unit {0}
IsStop false (err e) = ⊥

-- As many events as the limit leaves after some; zero is no limit.
abbrev pub due : ℕ → ℕ → List Event → List Event
due limit n es = if ltb 0 limit then take (limit - n) es else es

due-full :
    (limit n : ℕ) (es : List Event) → (ltb 0 limit && leb limit n) ≡ true → due limit n es ≡ []
due-full limit n es h =
    let (some_limit, none_left) : (ltb 0 limit ≡ true) × (limit - n ≡ 0) = ground (arith, h) in
    rw (some_limit, none_left) refl

take-nil : (n : ℕ) → take {A = Event} n [] ≡ []
take-nil zero = refl
take-nil (suc n) = refl

due-nil : (limit n : ℕ) → due limit n [] ≡ []
due-nil limit n = elim (Bool-cases (ltb 0 limit)) [
  | inl p ↦ rw (p, take-nil (limit - n)) refl
  | inr p ↦ rw p refl
]

due-next :
    (limit n : ℕ) (e : Event) (es : List Event)
    → (ltb 0 limit && leb limit n) ≡ false
    → due limit n (e ∷ es) ≡ e ∷ due limit (suc n) es
due-next limit n e es h = elim (Bool-cases (ltb 0 limit)) [
  | inl p ↦ let room : limit - n ≡ suc (limit - suc n) = ground (arith, h, p) in rw (p, room) refl
  | inr p ↦ rw p refl
]

module _ (decode : String → Result Event) (limit : ℕ) (table : List EventRow) where
  -- These events have been read; they are written, but for the batch.
  record IsWriting (seen : List Event) (s : Replay) : Type 0 where
    done : List Event
    extra : List EventRow
    split : seen ≡ done ++ s.batch
    grown : s.table ≡ table ++ extra
    wrote : Wrote done extra
    counted : s.count ≡ length seen

  abbrev Ends : List Event → Progress → Type 0
  Ends seen p = (s : Replay) × (p ≡ finished s) × IsWriting seen s

  abbrev Reads : List Event → Progress → Type 0
  Reads seen p = (s : Replay) × (p ≡ reading s) × IsWriting seen s

  insert_batch-Reads :
      (m : Moment) (s : Replay) (seen : List Event)
      → IsUp m.writer
      → IsWriting seen s
      → (t : Replay) × (insert_batch m s ≡ reading t) × IsWriting seen t × (t.batch ≡ [])
  unfolding insert_batch written
  insert_batch-Reads m s seen up h =
      let rows = map (row_of_event m.writer m.now) s.batch in
      (
        record s { batch = []; table = s.table ++ rows },
        rw (insert_events-up m.writer m.now s.batch s.table up) refl,
        record {
          done = seen;
          extra = h.extra ++ rows;
          split = sym (append-nil seen);
          grown = ap (λ x. x ++ rows) h.grown ∙ append_assoc table h.extra rows;
          wrote =
              subst (λ es. Wrote es (h.extra ++ rows)) (sym h.split)
                (Wrote-append h.done s.batch h.extra rows h.wrote (Wrote-map m s.batch));
          counted = h.counted;
        },
        refl,
      )

  insert_if-Reads :
      (b : Bool) (m : Moment) (s : Replay) (seen : List Event)
      → IsUp m.writer
      → IsWriting seen s
      → Reads seen (insert_if b m s)
  unfolding insert_if
  insert_if-Reads false m s seen up h = (s, refl, h)
  insert_if-Reads true m s seen up h =
      let (t, e, k, empty) = insert_batch-Reads m s seen up h in (t, e, k)

  take_replayed-Reads :
      (m : Moment) (ev : Event) (s : Replay) (seen : List Event)
      → IsUp m.writer
      → IsWriting seen s
      → Reads (seen ++ (ev ∷ [])) (take_replayed "clickhouse" m ev s)
  unfolding take_replayed
  take_replayed-Reads m ev s seen up h =
      insert_if-Reads (leb 100 (length (s.batch ++ (ev ∷ [])))) m _ (seen ++ (ev ∷ [])) up record {
        done = h.done;
        extra = h.extra;
        split = ap (λ es. es ++ (ev ∷ [])) h.split ∙ append_assoc h.done s.batch (ev ∷ []);
        grown = h.grown;
        wrote = h.wrote;
        counted = omega (arith, h.counted, length-append seen (ev ∷ []));
      }

  next-Ends :
      (seen es : List Event) (ev : Event) (p : Progress)
      → (ltb 0 limit && leb limit (length seen)) ≡ false
      → Ends ((seen ++ (ev ∷ [])) ++ due limit (length (seen ++ (ev ∷ []))) es) p
      → Ends (seen ++ due limit (length seen) (ev ∷ es)) p
  next-Ends seen es ev p room h =
      let one : length (seen ++ (ev ∷ [])) ≡ suc (length seen) =
        omega (arith, length-append seen (ev ∷ [])) in
      subst (λ xs. Ends xs p)
        (append_assoc seen (ev ∷ []) (due limit (length (seen ++ (ev ∷ []))) es)
          ∙ ap (λ n. seen ++ (ev ∷ due limit n es)) one
          ∙ ap (λ xs. seen ++ xs) (sym (due-next limit (length seen) ev es room)))
        h

  -- What the rest of the loop is known to do, once it is reached.
  abbrev Goes : List Event → (Replay → Progress) → Type 0
  Goes es next =
      (t : Replay) (more : List Event)
      → IsWriting more t
      → Ends (more ++ due limit (length more) es) (next t)

  event-Ends :
      (m : Moment) (r : Result Event) (es : List Event) (next : Replay → Progress) (s : Replay)
      (seen : List Event)
      → IsUp m.writer
      → (ltb 0 limit && leb limit (length seen)) ≡ false
      → IsWriting seen s
      → Goes es next
      → Ends
          (seen ++ due limit (length seen) (message_events r es))
          (and_then (unmarshal "clickhouse" m r s) next)
  unfolding unmarshal
  event-Ends m (err e) es next s seen up room h go = go s seen h
  event-Ends m (ok ev) es next s seen up room h go =
      let (t, e, k) = take_replayed-Reads m ev s seen up h in
      next-Ends seen es ev (and_then (take_replayed "clickhouse" m ev s) next) room
        (rw e (go t (seen ++ (ev ∷ [])) k))

  read-Ends :
      (a : Attempt) (over : Bool) (r : Result String) (es : List Event) (next : Replay → Progress)
      (s : Replay) (seen : List Event)
      → a.is_over ≡ over
      → IsUp a.moment.writer
      → (ltb 0 limit && leb limit (length seen)) ≡ false
      → IsWriting seen s
      → IsStop over r ⊎ Goes es next
      → Ends
          (seen ++ due limit (length seen) (attempt_events decode over r es))
          (and_then (on_read decode "clickhouse" a r s) next)
  unfolding on_read
  read-Ends a over (ok value) es next s seen o up room h (inl stop) = absurd stop
  read-Ends a over (ok value) es next s seen o up room h (inr go) =
      event-Ends a.moment (decode value) es next s seen up room h go
  read-Ends a true (err e) es next s seen o up room h go =
      let same = ap (λ xs. seen ++ xs) (due-nil limit (length seen)) ∙ append-nil seen in
      (s, rw o refl, subst (λ xs. IsWriting xs s) (sym same) h)
  read-Ends a false (err e) es next s seen o up room h (inl stop) = absurd stop
  read-Ends a false (err e) es next s seen o up room h (inr go) = rw o (go s seen h)

  replay_loop-Ends :
      (attempts : List Attempt) (s : Replay) (seen : List Event)
      → All (λ a. IsUp a.moment.writer) attempts
      → Any (λ a. IsStop a.is_over a.read) attempts
      → IsWriting seen s
      → Ends
          (seen ++ due limit (length seen) (replayable decode attempts))
          (replay_loop decode "clickhouse" limit attempts s)
  unfolding replay_loop replay_turn
  replay_loop-Ends [] s seen up stops h = absurd stops
  replay_loop-Ends (a ∷ rest) s seen up stops h = elim (Bool-cases (is_full limit s)) [
    | inl e ↦
        let full = subst (λ n. (ltb 0 limit && leb limit n) ≡ true) h.counted e in
        let same =
          ap (λ xs. seen ++ xs) (due-full limit (length seen) (replayable decode (a ∷ rest)) full)
          ∙ append-nil seen in
        (s, rw e refl, subst (λ xs. IsWriting xs s) (sym same) h)
    | inr e ↦
        let room = subst (λ n. (ltb 0 limit && leb limit n) ≡ false) h.counted e in
        let go : IsStop a.is_over a.read
            ⊎ Goes (replayable decode rest) (replay_loop decode "clickhouse" limit rest) =
          elim stops [
            | inl stop ↦ inl stop
            | inr later ↦ inr (λ t more k. replay_loop-Ends rest t more up.1 later k)
          ] in
        rw e (
          read-Ends a a.is_over a.read (replayable decode rest)
            (replay_loop decode "clickhouse" limit rest) s seen refl up.0 room h go)
  ]

  -- The last batch is written too.
  last_batch-Ends :
      (m : Moment) (s : Replay) (seen : List Event)
      → IsUp m.writer
      → IsWriting seen s
      → (t : Replay) × (last_batch "clickhouse" m (finished s) ≡ finished t)
        × IsWriting seen t
        × (t.batch ≡ [])
  unfolding last_batch
  last_batch-Ends m s seen up h = elim (Bool-cases (ltb 0 (length s.batch))) [
    | inl e ↦
        let (t, made, k, empty) = insert_batch-Reads m s seen up h in
        (t, rw (e, made) refl, k, empty)
    | inr e ↦ (s, rw e refl, h, nothing s.batch e)
  ]
    where
      nothing : (es : List Event) → ltb 0 (length es) ≡ false → es ≡ []
      nothing [] e = refl
      nothing (x ∷ es) e = absurd (ground (arith, e))

-- A topic is replayed to ClickHouse, which takes every batch, until the topic is idle or the program is stopped. Then
-- the program ends without an error; it has counted the events that it decoded before that, up to the limit if there
-- is one; and it has put exactly their rows behind the rows of the table, in the order of the topic.
pub replay_writes_all :
    (decode : String → Result Event) (limit : ℕ) (attempts : List Attempt) (m : Moment)
    (table : List EventRow)
    → All (λ a. IsUp a.moment.writer) attempts
    → IsUp m.writer
    → Any (λ a. IsStop a.is_over a.read) attempts
    → let events = due limit 0 (replayable decode attempts) in
      (s : Replay) × (replay decode "clickhouse" limit attempts m table ≡ finished s)
      × (s.count ≡ length events)
      × ((rows : List EventRow) × (s.table ≡ table ++ rows) × Wrote events rows)
unfolding replay new_replay
replay_writes_all decode limit attempts m table ups up stops =
    let events = due limit 0 (replayable decode attempts) in
    let (s, ended, h) =
      replay_loop-Ends decode limit table attempts (new_replay table) [] ups stops (record {
        done = [];
        extra = [];
        split = refl;
        grown = sym (append-nil table);
        wrote = tt;
        counted = refl;
      }) in
    let (t, flushed, k, empty) = last_batch-Ends decode limit table m s events up h in
    let all_done : events ≡ k.done = k.split ∙ ap (λ es. k.done ++ es) empty ∙ append-nil k.done in
    (
      t,
      rw ended flushed,
      k.counted,
      (k.extra, k.grown, subst (λ es. Wrote es k.extra) (sym all_done) k.wrote),
    )
