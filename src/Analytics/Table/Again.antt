-- ===== src/Analytics/Table/Again.antt =====
-- What an event that is written a second time changes.
use chronos_dev.Common.{
  ◌+◌, String, Bool, true, List, [], ◌∷◌, ◌++◌, map, ◌==◌, if◌then◌else◌, ◌≡◌, refl, sym, ap, subst,
  ◌∙◌, inl, inr, All, Any, ok, total, count,
}
use chronos_dev.Domain.Job.{Instant}
use chronos_dev.Domain.Event.{Event}
use chronos_dev.Analytics.Table.{
  EventRow, Writer, row_of_event, insert_events, final, count_events, count_by_type,
}
use chronos_dev.Analytics.Table.Keys.{
  Key, key_of, keys, Holds, final-keys, insert_events-ok, IsNamed, named-key,
}

-- An event of a list whose row has a key of its own.
abbrev pub IsAgain : Writer → List Event → Event → Type 0
IsAgain v es e = IsNamed v e × Any (λ x. x ≡ e) es

count-keys :
    (q : Key → Bool) (rows : List EventRow) → count (λ r. q (key_of r)) rows ≡ count q (keys rows)
unfolding total
count-keys q [] = refl
count-keys q (r ∷ rows) = ap (λ n. (if q (key_of r) then 1 else 0) + n) (count-keys q rows)

-- What is counted by the columns of the key is counted on the keys.
pub count_of_keys :
    (q : Key → Bool) (xs ys : List EventRow)
    → keys xs ≡ keys ys
    → count (λ r. q (key_of r)) xs ≡ count (λ r. q (key_of r)) ys
count_of_keys q xs ys h = count-keys q xs ∙ ap (count q) h ∙ sym (count-keys q ys)

Holds-right : (k : Key) (xs ys : List EventRow) → Holds k (keys ys) → Holds k (keys (xs ++ ys))
Holds-right k [] ys h = h
Holds-right k (x ∷ xs) ys h = inr (Holds-right k xs ys h)

Holds-left : (k : Key) (xs ys : List EventRow) → Holds k (keys xs) → Holds k (keys (xs ++ ys))
Holds-left k [] ys h = absurd h
Holds-left k (x ∷ xs) ys (inl e) = inl e
Holds-left k (x ∷ xs) ys (inr h) = inr (Holds-left k xs ys h)

module _ (v w : Writer) (now later : Instant) (same : w.parse_uuid ≡ v.parse_uuid) where
  Holds-event :
      (e : Event) (es : List Event)
      → IsNamed v e
      → Any (λ x. x ≡ e) es
      → Holds (key_of (row_of_event w later e)) (keys (map (row_of_event v now) es))
  Holds-event e [] n h = absurd h
  Holds-event e (x ∷ es) n (inl s) =
      inl (ap (λ y. key_of (row_of_event v now y)) s ∙ sym (named-key v w now later e same n))
  Holds-event e (x ∷ es) n (inr h) = inr (Holds-event e es n h)

  rows-Hold :
      (table more : List EventRow) (es again : List Event)
      → All (IsAgain v es) again
      → All
          (λ r. Holds (key_of r) (keys ((table ++ map (row_of_event v now) es) ++ more)))
          (map (row_of_event w later) again)
  rows-Hold table more es [] h = tt
  rows-Hold table more es (e ∷ again) h = (
    Holds-left _ (table ++ map (row_of_event v now) es) more
        (Holds-right _ table (map (row_of_event v now) es) (Holds-event e es h.0.0 h.0.1)),
    rows-Hold table more es again h.1,
  )

  -- No key of FINAL changes.
  pub again-keys :
      (es again : List Event) (table t more u : List EventRow)
      → insert_events v now es table ≡ ok t
      → All (IsAgain v es) again
      → insert_events w later again (t ++ more) ≡ ok u
      → keys (final u) ≡ keys (final (t ++ more))
  again-keys es again table t more u wrote named wrote_again =
      let old = insert_events-ok v now es table t wrote in
      let new = insert_events-ok w later again (t ++ more) u wrote_again in
      ap (λ rows. keys (final rows)) new
      ∙ final-keys (t ++ more) (map (row_of_event w later) again) (
          subst
            (λ rows.
              All (λ r. Holds (key_of r) (keys (rows ++ more))) (map (row_of_event w later) again))
            (sym old) (rows-Hold table more es again named))

-- Events are written to the table with success, other rows may come after them, and then some of these
-- events are written again with success, at another time and by any writer that reads identifiers the same
-- way. If each event that is written again has an identifier that is a UUID and a time, then the number of
-- events and the number of events of each type stay what they were, whatever rows the table had.
pub insert_events-again :
    (v w : Writer) (now later : Instant) (es again : List Event) (table t more u : List EventRow)
    → w.parse_uuid ≡ v.parse_uuid
    → insert_events v now es table ≡ ok t
    → All (IsAgain v es) again
    → insert_events w later again (t ++ more) ≡ ok u
    → (count_events u ≡ count_events (t ++ more))
      × ((event_type : String) → count_by_type event_type u ≡ count_by_type event_type (t ++ more))
unfolding count_events count_by_type
insert_events-again v w now later es again table t more u same wrote named wrote_again =
    let h = again-keys v w now later same es again table t more u wrote named wrote_again in
    (
      count_of_keys (λ k. true) (final u) (final (t ++ more)) h,
      λ event_type. count_of_keys (λ k. k.0 == event_type) (final u) (final (t ++ more)) h,
    )
