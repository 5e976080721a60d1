-- ===== src/Replay/Repeats.antt =====
-- What a replay of events that the table has already changes.
use mathlib.Core.List.{append_assoc, append-nil}
use chronos_dev.Common.{
  ℕ, String, Bool, true, false, ◌&&◌, List, [], ◌∷◌, ◌++◌, map, ◌==◌, ◌≡◌, refl, sym, ap, subst,
  ◌∙◌, inl, inr, Bool-cases, ltb, length, All, All-append, Result, ok, err,
}
use chronos_dev.Domain.Job.{Instant}
use chronos_dev.Domain.Event.{Event}
use chronos_dev.Analytics.Table.{
  EventRow, Writer, row_of_event, insert_events, final, count_events, count_by_type,
}
use chronos_dev.Analytics.Table.Keys.{
  key_of, keys, Holds, final-keys, insert_events-ok, IsNamed, named-key,
}
use chronos_dev.Analytics.Table.Again.{count_of_keys}
use chronos_dev.Replay.{
  Moment, Attempt, Replay, Progress, reading, finished, exited, new_replay, written, insert_batch,
  insert_if, take_replayed, unmarshal, stop_if, on_read, is_full, replay_turn, and_then,
  replay_loop, as_finished, last_batch, replay,
}

abbrev pub state_of : Progress → Replay
state_of (reading s) = s
state_of (finished s) = s
state_of (exited e s) = s

-- An event with a key of its own, whose key the table has.
abbrev pub IsStored : Writer → Instant → List EventRow → Event → Type 0
IsStored v now table e = IsNamed v e × Holds (key_of (row_of_event v now e)) (keys table)

-- Whatever the message of an attempt decodes to is stored, and identifiers are read as they were.
pub record IsRepeat (decode : String → Result Event) (v : Writer) (now : Instant)
    (table : List EventRow) (a : Attempt) : Type 0 where
  pub same : a.moment.writer.parse_uuid ≡ v.parse_uuid
  pub stored :
      (value : String) (ev : Event)
      → a.read ≡ ok value
      → decode value ≡ ok ev
      → IsStored v now table ev

module _ (decode : String → Result Event) (target : String) (limit : ℕ) (v : Writer) (now : Instant)
    (table : List EventRow) where
  abbrev HoldsRow : EventRow → Type 0
  HoldsRow r = Holds (key_of r) (keys table)

  -- The table has rows of keys that it had, and the batch will add such rows.
  record IsRepeating (s : Replay) : Type 0 where
    extra : List EventRow
    grown : s.table ≡ table ++ extra
    held : All HoldsRow extra
    waiting : All (IsStored v now table) s.batch

  rows-held :
      (m : Moment) (es : List Event)
      → m.writer.parse_uuid ≡ v.parse_uuid
      → All (IsStored v now table) es
      → All HoldsRow (map (row_of_event m.writer m.now) es)
  rows-held m [] same h = tt
  rows-held m (e ∷ es) same h = (
    subst (λ k. Holds k (keys table)) (sym (named-key v m.writer now m.now e same h.0.0)) h.0.1,
    rows-held m es same h.1,
  )

  written-keeps :
      (m : Moment) (s : Replay) (r : Result (List EventRow))
      → m.writer.parse_uuid ≡ v.parse_uuid
      → insert_events m.writer m.now s.batch s.table ≡ r
      → IsRepeating s
      → IsRepeating (state_of (written s r))
  unfolding written
  written-keeps m s (err e) same wrote h = h
  written-keeps m s (ok t) same wrote h = record {
    extra = h.extra ++ map (row_of_event m.writer m.now) s.batch;
    grown =
        insert_events-ok m.writer m.now s.batch s.table t wrote
        ∙ ap (λ x. x ++ map (row_of_event m.writer m.now) s.batch) h.grown
        ∙ append_assoc table h.extra (map (row_of_event m.writer m.now) s.batch);
    held = All-append HoldsRow h.extra _ h.held (rows-held m s.batch same h.waiting);
    waiting = tt;
  }

  insert_if-keeps :
      (b : Bool) (m : Moment) (s : Replay)
      → m.writer.parse_uuid ≡ v.parse_uuid
      → IsRepeating s
      → IsRepeating (state_of (insert_if b m s))
  unfolding insert_if insert_batch
  insert_if-keeps false m s same h = h
  insert_if-keeps true m s same h = written-keeps m s _ same refl h

  take_replayed-keeps :
      (m : Moment) (ev : Event) (s : Replay)
      → m.writer.parse_uuid ≡ v.parse_uuid
      → IsStored v now table ev
      → IsRepeating s
      → IsRepeating (state_of (take_replayed target m ev s))
  unfolding take_replayed
  take_replayed-keeps m ev s same stored h = elim (Bool-cases (target == "stdout")) [
    | inl e ↦ rw e (record { extra = h.extra; grown = h.grown; held = h.held; waiting = h.waiting })
    | inr e ↦ elim (Bool-cases (target == "clickhouse")) [
      | inl i ↦
          rw (e, i)
            (insert_if-keeps _ m _ same record {
              extra = h.extra;
              grown = h.grown;
              held = h.held;
              waiting = All-append _ s.batch (ev ∷ []) h.waiting (stored, tt);
            })
      | inr i ↦
          rw (e, i)
            (record { extra = h.extra; grown = h.grown; held = h.held; waiting = h.waiting })
    ]
  ]

  unmarshal-keeps :
      (a : Attempt) (value : String) (r : Result Event) (s : Replay)
      → IsRepeat decode v now table a
      → a.read ≡ ok value
      → decode value ≡ r
      → IsRepeating s
      → IsRepeating (state_of (unmarshal target a.moment r s))
  unfolding unmarshal
  unmarshal-keeps a value (err e) s q read made h = h
  unmarshal-keeps a value (ok ev) s q read made h =
      take_replayed-keeps a.moment ev s q.same (q.stored value ev read made) h

  stop_if-keeps : (b : Bool) (s : Replay) → IsRepeating s → IsRepeating (state_of (stop_if b s))
  stop_if-keeps true s h = h
  stop_if-keeps false s h = h

  on_read-keeps :
      (a : Attempt) (r : Result String) (s : Replay)
      → IsRepeat decode v now table a
      → a.read ≡ r
      → IsRepeating s
      → IsRepeating (state_of (on_read decode target a r s))
  unfolding on_read
  on_read-keeps a (err e) s q read h = stop_if-keeps a.is_over s h
  on_read-keeps a (ok value) s q read h = unmarshal-keeps a value (decode value) s q read refl h

  replay_turn-keeps :
      (a : Attempt) (s : Replay)
      → IsRepeat decode v now table a
      → IsRepeating s
      → IsRepeating (state_of (replay_turn decode target limit a s))
  unfolding replay_turn
  replay_turn-keeps a s q h = elim (Bool-cases (is_full limit s)) [
    | inl e ↦ rw e h
    | inr e ↦ rw e (on_read-keeps a a.read s q refl h)
  ]

  and_then-keeps :
      (p : Progress) (next : Replay → Progress)
      → ((s : Replay) → IsRepeating s → IsRepeating (state_of (next s)))
      → IsRepeating (state_of p)
      → IsRepeating (state_of (and_then p next))
  and_then-keeps (reading s) next keeps h = keeps s h
  and_then-keeps (finished s) next keeps h = h
  and_then-keeps (exited e s) next keeps h = h

  replay_loop-keeps :
      (attempts : List Attempt) (s : Replay)
      → All (IsRepeat decode v now table) attempts
      → IsRepeating s
      → IsRepeating (state_of (replay_loop decode target limit attempts s))
  unfolding replay_loop
  replay_loop-keeps [] s q h = stop_if-keeps (is_full limit s) s h
  replay_loop-keeps (a ∷ rest) s q h =
      and_then-keeps (replay_turn decode target limit a s) (replay_loop decode target limit rest)
        (λ t. replay_loop-keeps rest t q.1) (replay_turn-keeps a s q.0 h)

  as_finished-keeps :
      (p : Progress) → IsRepeating (state_of p) → IsRepeating (state_of (as_finished p))
  as_finished-keeps (reading s) h = h
  as_finished-keeps (finished s) h = h
  as_finished-keeps (exited e s) h = h

  last_batch-keeps :
      (m : Moment) (p : Progress)
      → m.writer.parse_uuid ≡ v.parse_uuid
      → IsRepeating (state_of p)
      → IsRepeating (state_of (last_batch target m p))
  unfolding last_batch insert_batch
  last_batch-keeps m (reading s) same h = h
  last_batch-keeps m (exited e s) same h = h
  last_batch-keeps m (finished s) same h =
      elim (Bool-cases (target == "clickhouse" && ltb 0 (length s.batch))) [
        | inl e ↦ rw e (as_finished-keeps (insert_batch m s) (written-keeps m s _ same refl h))
        | inr e ↦ rw e h
      ]

  repeating-keys : (s : Replay) → IsRepeating s → keys (final s.table) ≡ keys (final table)
  repeating-keys s h = ap (λ t. keys (final t)) h.grown ∙ final-keys table h.extra h.held

  replay-keys :
      (attempts : List Attempt) (m : Moment)
      → All (IsRepeat decode v now table) attempts
      → m.writer.parse_uuid ≡ v.parse_uuid
      → keys (final (state_of (replay decode target limit attempts m table)).table)
        ≡ keys (final table)
  unfolding replay new_replay
  replay-keys attempts m q same = repeating-keys _ (
      last_batch-keeps m _ same (
        replay_loop-keeps attempts _ q
          (record { extra = []; grown = sym (append-nil table); held = tt; waiting = tt })))

-- A topic is replayed, to any target and up to any number of events, with any answers of Kafka and of the
-- database. If every event that it decodes has a time and an identifier that is a UUID, and the table has a row
-- with the event's key, then the number of events that the table has and their number by type are in the end what
-- they were, also where the program ends with an error.
pub replay-again :
    (decode : String → Result Event) (target : String) (limit : ℕ) (v : Writer) (now : Instant)
    (table : List EventRow) (attempts : List Attempt) (m : Moment)
    → All (IsRepeat decode v now table) attempts
    → m.writer.parse_uuid ≡ v.parse_uuid
    → let after = (state_of (replay decode target limit attempts m table)).table in
      (count_events after ≡ count_events table)
      × ((event_type : String) → count_by_type event_type after ≡ count_by_type event_type table)
unfolding count_events count_by_type
replay-again decode target limit v now table attempts m q same =
    let after = (state_of (replay decode target limit attempts m table)).table in
    let h = replay-keys decode target limit v now table attempts m q same in
    (
      count_of_keys (λ k. true) (final after) (final table) h,
      λ event_type. count_of_keys (λ k. k.0 == event_type) (final after) (final table) h,
    )
