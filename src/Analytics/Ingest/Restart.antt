-- ===== src/Analytics/Ingest/Restart.antt =====
-- Where a restart of the loop goes on.
use chronos_dev.Common.{
  ℕ, suc, ◌≤◌, ◌<◌, String, Bool, true, false, List, [], ◌∷◌, ◌++◌, Option, none, some, ◌==◌, ◌≡◌,
  inl, inr, leb, length, Result, ok, Error, All, All-append, All-map, Any, arith,
}
use chronos_dev.Domain.Event.{Event}
use chronos_dev.Analytics.Ingest.{
  EventMessage, Consumer, Answers, new_consumer, commit_buffered, insert_buffered, flush_list,
  flush_buffer, flush_if, buffer_event, take_event, Input, tick_over, message_in, turn, turns,
}
use chronos_dev.Analytics.Ingest.Acknowledged.{IsKept, seen, All-at, turns-new-IsAccounted}

-- Messages that all stand before a place.
abbrev pub AreBefore : ℕ → List EventMessage → Type 0
AreBefore n ms = All (λ m. m.offset < n) ms

-- What Kafka documents of the position of a group, after calls that commit messages of one partition: it
-- stands behind no place behind which no committed message stands.
pub record IsPosition (position : List (List EventMessage) → ℕ) : Type 0 where
  pub bounded :
      (calls : List (List EventMessage)) (n : ℕ) → All (AreBefore n) calls → position calls ≤ n

-- Messages of one partition come in order, each with an event to keep, from the place `n` on.
abbrev pub IsClean : (String → Result Event) → ℕ → List Input → Type 0
IsClean decode n [] = Unit {0}
IsClean decode n (tick_over a ∷ is) = IsClean decode n is
IsClean decode n (message_in a m ∷ is) =
    (n ≤ m.offset)
    × ((ev : Event) × (decode m.value ≡ ok ev) × ((ev.event_id == "") ≡ false))
    × IsClean decode (suc m.offset) is

-- Between what is committed and what comes next stands the buffer.
record IsBetween (low next_place : ℕ) (c : Consumer) : Type 0 where
  behind : All (AreBefore low) c.commits
  waiting : All (λ m. (low ≤ m.offset) × (m.offset < next_place)) c.msgs
  ordered : low ≤ next_place

abbrev Between : ℕ → Consumer → Type 0
Between n c = (low : ℕ) × IsBetween low n c

AreBefore-more : (a b : ℕ) (ms : List EventMessage) → a ≤ b → AreBefore a ms → AreBefore b ms
AreBefore-more a b ms le h = All-map _ _ (λ m k. omega (arith, k, le)) ms h

commit-Between :
    (o : Option Error) (n : ℕ) (es : List Event) (c : Consumer)
    → Between n c
    → Between n (commit_buffered o (record c { inserted = es })).0
unfolding commit_buffered
commit-Between none n es c (low, h) = (
  n,
  record {
    behind =
        All-append _ c.commits (c.msgs ∷ [])
          (All-map _ _ (λ ms k. AreBefore-more low n ms h.ordered k) c.commits h.behind)
          (All-map _ _ (λ m k. k.1) c.msgs h.waiting, tt);
    waiting = tt;
    ordered = omega arith;
  },
)
commit-Between (some e) n es c (low, h) =
    (low, record { behind = h.behind; waiting = h.waiting; ordered = h.ordered })

insert-Between :
    (a : Answers) (o : Option Error) (n : ℕ) (c : Consumer)
    → Between n c
    → Between n (insert_buffered a o c).0
unfolding insert_buffered
insert-Between a none n c h = commit-Between a.commit_error n (c.inserted ++ c.buf) c h
insert-Between a (some e) n c h = h

flush_list-Between :
    (a : Answers) (es : List Event) (n : ℕ) (c : Consumer)
    → Between n c
    → Between n (flush_list a es c).0
unfolding flush_list
flush_list-Between a [] n c h = h
flush_list-Between a (e ∷ es) n c h = insert-Between a a.insert_error n c h

flush_if-Between :
    (b : Bool) (a : Answers) (n : ℕ) (c : Consumer) → Between n c → Between n (flush_if b a c)
unfolding flush_if flush_buffer
flush_if-Between false a n c h = h
flush_if-Between true a n c h = flush_list-Between a c.buf n c h

buffered-Between :
    (n : ℕ) (m : EventMessage) (es : List Event) (c : Consumer)
    → n ≤ m.offset
    → Between n c
    → Between (suc m.offset) (record c { buf = es; msgs = c.msgs ++ (m ∷ []) })
buffered-Between n m es c far (low, h) = (
  low,
  record {
    behind = h.behind;
    waiting =
        All-append _ c.msgs (m ∷ [])
          (All-map _ _ (λ x k. (k.0, omega (arith, k, far))) c.msgs h.waiting)
          ((omega (arith, h.ordered, far), omega arith), tt);
    ordered = omega (arith, h.ordered, far);
  },
)

turns-Between :
    (decode : String → Result Event) (is : List Input) (n : ℕ) (c : Consumer)
    → IsClean decode n is
    → Between n c
    → (k : ℕ) × Between k (turns decode is c)
unfolding turns turn flush_buffer take_event buffer_event
turns-Between decode [] n c clean h = (n, h)
turns-Between decode (tick_over a ∷ is) n c clean h =
    turns-Between decode is n (flush_list a c.buf c).0 clean (flush_list-Between a c.buf n c h)
turns-Between decode (message_in a m ∷ is) n c clean h =
    let (ev, text, filled) = clean.1 in
    let c' : Consumer = record c { buf = c.buf ++ (ev ∷ []); msgs = c.msgs ++ (m ∷ []) } in
    let full = leb c'.batch (length c'.buf) in
    rw (text, filled)
      (turns-Between decode is (suc m.offset) (flush_if full a c') clean.2 (
        flush_if-Between full a (suc m.offset) c'
          (buffered-Between n m (c.buf ++ (ev ∷ [])) c clean.0 h)))

-- If each message of a partition has an event to keep and the messages come in order, a restart of the
-- loop loses none: a message that was fetched and stands before the position of what was committed has
-- its event in the database, whatever the database and Kafka answered.
pub restart_loses_none :
    (decode : String → Result Event) (position : List (List EventMessage) → ℕ) (is : List Input)
    (m : EventMessage)
    → IsPosition position
    → IsClean decode 0 is
    → Any (λ x. x ≡ m) (seen is)
    → m.offset < position (turns decode is new_consumer).commits
    → IsKept decode (turns decode is new_consumer).inserted m
unfolding new_consumer
restart_loses_none decode position is m kafka clean there early =
    let c = turns decode is new_consumer in
    let start : Between 0 new_consumer =
      (0, record { behind = tt; waiting = tt; ordered = omega arith }) in
    let (k, between) = turns-Between decode is 0 new_consumer clean start in
    let (low, h) = between in
    elim (All-at _ m (seen is) (turns-new-IsAccounted decode is).kept there) [
      | inl kept ↦ kept
      | inr waits ↦ absurd (
          omega (
            arith,
            early,
            kafka.bounded c.commits low h.behind,
            (All-at _ m c.msgs h.waiting waits).0,
          ))
    ]
