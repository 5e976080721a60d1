-- ===== src/Analytics/Ingest/Acknowledged.antt =====
-- What becomes of the messages that the loop fetches.
use mathlib.Core.List.{append_assoc, append-nil}
use chronos_dev.Common.{
  String, Bool, true, false, List, [], ◌∷◌, ◌++◌, Option, none, some, ◌==◌, ◌≡◌, refl, sym, subst,
  ◌⊎◌, inl, inr, leb, length, Result, ok, err, Error, All, All-append, All-map, Any, Bool-cases,
}
use chronos_dev.Domain.Event.{Event}
use chronos_dev.Analytics.Ingest.{
  EventMessage, Consumer, Answers, new_consumer, commit_buffered, insert_buffered, flush_list,
  flush_buffer, flush_if, pass_over, buffer_event, take_event, Input, tick_over, message_in, turn,
  turns,
}

-- A message with no event to keep.
abbrev pub IsPassable : Result Event → Type 0
IsPassable (err e) = Unit {0}
IsPassable (ok ev) = (ev.event_id == "") ≡ true

abbrev pub Among : Event → List Event → Type 0
Among ev es = Any (λ x. x ≡ ev) es

-- A message is kept if it has no event to keep, or its event is in the database.
abbrev pub IsKept : (String → Result Event) → List Event → EventMessage → Type 0
IsKept decode inserted m =
    IsPassable (decode m.value) ⊎ ((ev : Event) × (decode m.value ≡ ok ev) × Among ev inserted)

-- The buffered messages and the buffered events belong together.
abbrev pub Matches : (String → Result Event) → List EventMessage → List Event → Type 0
Matches decode [] [] = Unit {0}
Matches decode [] (ev ∷ es) = ⊥
Matches decode (m ∷ ms) [] = ⊥
Matches decode (m ∷ ms) (ev ∷ es) = (decode m.value ≡ ok ev) × Matches decode ms es

-- Each message seen is kept, or waits in the buffer, where messages and events belong together.
pub record IsAccounted (decode : String → Result Event) (ms : List EventMessage) (c : Consumer)
    : Type 0 where
  pub kept : All (λ m. IsKept decode c.inserted m ⊎ Any (λ x. x ≡ m) c.msgs) ms
  pub buffered : Matches decode c.msgs c.buf

-- The messages that the loop fetched.
abbrev pub seen : List Input → List EventMessage
seen [] = []
seen (tick_over a ∷ is) = seen is
seen (message_in a m ∷ is) = m ∷ seen is

Any-left :
    {A : Type 0} (ev : A) (xs ys : List A) → Any (λ x. x ≡ ev) xs → Any (λ x. x ≡ ev) (xs ++ ys)
Any-left ev [] ys h = absurd h
Any-left ev (x ∷ xs) ys (inl e) = inl e
Any-left ev (x ∷ xs) ys (inr h) = inr (Any-left ev xs ys h)

Any-right :
    {A : Type 0} (ev : A) (xs ys : List A) → Any (λ x. x ≡ ev) ys → Any (λ x. x ≡ ev) (xs ++ ys)
Any-right ev [] ys h = h
Any-right ev (x ∷ xs) ys h = inr (Any-right ev xs ys h)

IsKept-more :
    (decode : String → Result Event) (old new : List Event) (m : EventMessage)
    → IsKept decode old m
    → IsKept decode (old ++ new) m
IsKept-more decode old new m (inl p) = inl p
IsKept-more decode old new m (inr (ev, e, h)) = inr (ev, e, Any-left ev old new h)

-- The messages of a batch are kept once its events are written.
Matches-IsKept :
    (decode : String → Result Event) (old before es : List Event) (ms : List EventMessage)
    → Matches decode ms es
    → All (IsKept decode (old ++ (before ++ es))) ms
Matches-IsKept decode old before [] [] h = tt
Matches-IsKept decode old before (ev ∷ es) [] h = tt
Matches-IsKept decode old before [] (m ∷ ms) h = absurd h
Matches-IsKept decode old before (ev ∷ es) (m ∷ ms) h = (
  inr (ev, h.0, Any-right ev old (before ++ (ev ∷ es)) (Any-right ev before (ev ∷ es) (inl refl))),
  subst (λ x. All (IsKept decode (old ++ x)) ms) (append_assoc before (ev ∷ []) es)
      (Matches-IsKept decode old (before ++ (ev ∷ [])) es ms h.1),
)

Matches-append :
    (decode : String → Result Event) (ms : List EventMessage) (es : List Event) (m : EventMessage)
    (ev : Event)
    → Matches decode ms es
    → decode m.value ≡ ok ev
    → Matches decode (ms ++ (m ∷ [])) (es ++ (ev ∷ []))
Matches-append decode [] [] m ev h e = (e, tt)
Matches-append decode [] (x ∷ es) m ev h e = absurd h
Matches-append decode (n ∷ ms) [] m ev h e = absurd h
Matches-append decode (n ∷ ms) (x ∷ es) m ev h e = (h.0, Matches-append decode ms es m ev h.1 e)

-- What holds of all messages holds of each.
pub All-at :
    (P : EventMessage → Type 0) (m : EventMessage) (ms : List EventMessage)
    → All P ms
    → Any (λ x. x ≡ m) ms
    → P m
All-at P m [] h k = absurd k
All-at P m (x ∷ ms) h (inl e) = subst P e h.0
All-at P m (x ∷ ms) h (inr k) = All-at P m ms h.1 k

module _ (decode : String → Result Event) (ms : List EventMessage) where
  -- The batch is written: what was kept stays, and what was buffered is kept.
  insert-IsKept :
      (c : Consumer) → IsAccounted decode ms c → All (λ m. IsKept decode (c.inserted ++ c.buf) m) ms
  insert-IsKept c h =
      All-map _ _
        (λ m x. elim x [
          | inl k ↦ IsKept-more decode c.inserted c.buf m k
          | inr k ↦
              All-at _ m c.msgs (Matches-IsKept decode c.inserted [] c.buf c.msgs h.buffered) k
        ])
        ms h.kept

  commit-IsAccounted :
      (o : Option Error) (c : Consumer)
      → IsAccounted decode ms c
      → IsAccounted decode ms (commit_buffered o (record c { inserted = c.inserted ++ c.buf })).0
  unfolding commit_buffered
  commit-IsAccounted none c h = record {
    kept = All-map _ _ (λ m k. inl k) ms (insert-IsKept c h);
    buffered = tt;
  }
  commit-IsAccounted (some e) c h = record {
    kept = All-map _ _ (λ m k. inl k) ms (insert-IsKept c h);
    buffered = h.buffered;
  }

  insert-IsAccounted :
      (a : Answers) (o : Option Error) (c : Consumer)
      → IsAccounted decode ms c
      → IsAccounted decode ms (insert_buffered a o c).0
  unfolding insert_buffered
  insert-IsAccounted a none c h = commit-IsAccounted a.commit_error c h
  insert-IsAccounted a (some e) c h = h

  flush_list-IsAccounted :
      (a : Answers) (es : List Event) (c : Consumer)
      → IsAccounted decode ms c
      → IsAccounted decode ms (flush_list a es c).0
  unfolding flush_list
  flush_list-IsAccounted a [] c h = h
  flush_list-IsAccounted a (e ∷ es) c h = insert-IsAccounted a a.insert_error c h

  flush_if-IsAccounted :
      (b : Bool) (a : Answers) (c : Consumer)
      → IsAccounted decode ms c
      → IsAccounted decode ms (flush_if b a c)
  unfolding flush_if flush_buffer
  flush_if-IsAccounted false a c h = h
  flush_if-IsAccounted true a c h = flush_list-IsAccounted a c.buf c h

  pass_over-IsAccounted :
      (o : Option Error) (m : EventMessage) (c : Consumer)
      → IsPassable (decode m.value)
      → IsAccounted decode ms c
      → IsAccounted decode (ms ++ (m ∷ [])) (pass_over o m c)
  unfolding pass_over
  pass_over-IsAccounted none m c p h = record {
    kept = All-append _ ms (m ∷ []) h.kept (inl (inl p), tt);
    buffered = h.buffered;
  }
  pass_over-IsAccounted (some e) m c p h = record {
    kept = All-append _ ms (m ∷ []) h.kept (inl (inl p), tt);
    buffered = h.buffered;
  }

buffer-IsAccounted :
    (decode : String → Result Event) (ms : List EventMessage) (m : EventMessage) (ev : Event)
    (c : Consumer)
    → decode m.value ≡ ok ev
    → IsAccounted decode ms c
    → IsAccounted decode
        (ms ++ (m ∷ []))
        (record c { buf = c.buf ++ (ev ∷ []); msgs = c.msgs ++ (m ∷ []) })
buffer-IsAccounted decode ms m ev c d h = record {
  kept =
      All-append _ ms (m ∷ [])
        (All-map _ _ (λ x y. elim y [ inl k ↦ inl k | inr k ↦ inr (Any-left x c.msgs (m ∷ []) k) ])
          ms h.kept)
        (inr (Any-right m c.msgs (m ∷ []) (inl refl)), tt);
  buffered = Matches-append decode c.msgs c.buf m ev h.buffered d;
}

take_event-IsAccounted :
    (decode : String → Result Event) (ms : List EventMessage) (a : Answers) (m : EventMessage)
    (r : Result Event) (c : Consumer)
    → decode m.value ≡ r
    → IsAccounted decode ms c
    → IsAccounted decode (ms ++ (m ∷ [])) (take_event a m r c)
unfolding take_event buffer_event
take_event-IsAccounted decode ms a m (err e) c d h =
    pass_over-IsAccounted decode ms a.commit_error m c (subst IsPassable (sym d) tt) h
take_event-IsAccounted decode ms a m (ok ev) c d h = elim (Bool-cases (ev.event_id == "")) [
  | inl e ↦ rw e (pass_over-IsAccounted decode ms a.commit_error m c (subst IsPassable (sym d) e) h)
  | inr e ↦
      let c' : Consumer = record c { buf = c.buf ++ (ev ∷ []); msgs = c.msgs ++ (m ∷ []) } in
      rw e (
        flush_if-IsAccounted decode (ms ++ (m ∷ [])) (leb c'.batch (length c'.buf)) a c'
          (buffer-IsAccounted decode ms m ev c d h))
]

turns-IsAccounted :
    (decode : String → Result Event) (is : List Input) (ms : List EventMessage) (c : Consumer)
    → IsAccounted decode ms c
    → IsAccounted decode (ms ++ seen is) (turns decode is c)
unfolding turns turn flush_buffer
turns-IsAccounted decode [] ms c h = subst (λ x. IsAccounted decode x c) (sym (append-nil ms)) h
turns-IsAccounted decode (tick_over a ∷ is) ms c h =
    turns-IsAccounted decode is ms (flush_list a c.buf c).0
      (flush_list-IsAccounted decode ms a c.buf c h)
turns-IsAccounted decode (message_in a m ∷ is) ms c h =
    let t = take_event a m (decode m.value) c in
    subst (λ x. IsAccounted decode x (turns decode is t)) (append_assoc ms (m ∷ []) (seen is))
      (turns-IsAccounted decode is (ms ++ (m ∷ [])) t
        (take_event-IsAccounted decode ms a m (decode m.value) c refl h))

-- After any turns of a new consumer, whatever the database and Kafka answered, each message that was fetched
-- has no event to keep, or its event is in the database, or the message is still in the buffer, whose
-- messages are those of the buffered events.
pub turns-new-IsAccounted :
    (decode : String → Result Event) (is : List Input)
    → IsAccounted decode (seen is) (turns decode is new_consumer)
unfolding new_consumer
turns-new-IsAccounted decode is =
    turns-IsAccounted decode is [] new_consumer record { kept = tt; buffered = tt }
