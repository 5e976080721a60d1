-- ===== src/Analytics/Table/Keys.antt =====
-- What is counted does not change when events are written again.
use mathlib.Core.List.{append-nil}
use chronos_dev.Common.{
  String, true, false, List, [], ◌∷◌, ◌++◌, map, Option, none, some, eq_iff, eqb_ℤ, eq_of_parts,
  leb_ℤ, ◌≡◌, refl, sym, ap, subst, ◌∙◌, inl, inr, arith, Bool-cases, All, All-map, Any, Result, ok,
  err, Error,
}
use chronos_dev.Domain.Job.{Instant, zero_time}
use chronos_dev.Domain.Event.{Event}
use chronos_dev.Analytics.Table.{
  EventRow, Writer, row_of_event, append_row, batch_rows, send_batch, prepared, insert_events,
  same_key, replace, replace_all, final,
}

-- The columns by which the table is ordered.
abbrev pub Key : Type 0
Key = String × Instant × String

abbrev pub key_of : EventRow → Key
key_of r = (r.event_type, r.event_time, r.event_id)

same_key-eq : (a b : EventRow) → same_key a b ≡ true → key_of a ≡ key_of b
same_key-eq a b h = ground (
  arith,
  h,
  eq_iff a.event_type b.event_type,
  eq_iff a.event_id b.event_id,
  eq_of_parts a.event_time b.event_time,
)

eq-same_key : (a b : EventRow) → key_of a ≡ key_of b → same_key a b ≡ true
eq-same_key a b h =
    let t = ap (λ (k : Key). k.0) h in
    let u = ap (λ (k : Key). k.1) h in
    let i = ap (λ (k : Key). k.2) h in
    ground (arith, t, u, i, eq_iff a.event_type b.event_type, eq_iff a.event_id b.event_id)

abbrev pub keys : List EventRow → List Key
keys = map key_of

abbrev pub Holds : Key → List Key → Type 0
Holds k ks = Any (λ x. x ≡ k) ks

-- A row whose key is there leaves the keys as they are.
replace-keys :
    (r : EventRow) (xs : List EventRow) → Holds (key_of r) (keys xs) → keys (replace r xs) ≡ keys xs
unfolding replace
replace-keys r [] h = absurd h
replace-keys r (x ∷ xs) h = elim (Bool-cases (same_key x r)) [
  | inl e ↦ elim (Bool-cases (leb_ℤ x.ingested_at r.ingested_at)) [
    | inl f ↦ rw (e, f) (ap (λ k. k ∷ keys xs) (sym (same_key-eq x r e)))
    | inr f ↦ rw (e, f) refl
  ]
  | inr e ↦ rw e (ap (λ ks. key_of x ∷ ks) (replace-keys r xs (behind h e)))
]
  where
    behind :
        Holds (key_of r) (key_of x ∷ keys xs) → same_key x r ≡ false → Holds (key_of r) (keys xs)
    behind (inl k) e = absurd (ground (arith, eq-same_key x r k))
    behind (inr k) e = k

replace_all-keys :
    (xs rs : List EventRow)
    → All (λ r. Holds (key_of r) (keys xs)) rs
    → keys (replace_all xs rs) ≡ keys xs
unfolding replace_all
replace_all-keys xs [] h = refl
replace_all-keys xs (r ∷ rs) h =
    let same = replace-keys r xs h.0 in
    replace_all-keys (replace r xs) rs
      (subst (λ ks. All (λ r. Holds (key_of r) ks) rs) (sym same) h.1)
    ∙ same

replace-new : (r : EventRow) (xs : List EventRow) → Holds (key_of r) (keys (replace r xs))
unfolding replace
replace-new r [] = inl refl
replace-new r (x ∷ xs) = elim (Bool-cases (same_key x r)) [
  | inl e ↦ elim (Bool-cases (leb_ℤ x.ingested_at r.ingested_at)) [
    | inl f ↦ rw (e, f) (inl refl)
    | inr f ↦ rw (e, f) (inl (same_key-eq x r e))
  ]
  | inr e ↦ rw e (inr (replace-new r xs))
]

replace-old :
    (r : EventRow) (k : Key) (xs : List EventRow)
    → Holds k (keys xs)
    → Holds k (keys (replace r xs))
unfolding replace
replace-old r k [] h = absurd h
replace-old r k (x ∷ xs) h = elim (Bool-cases (same_key x r)) [
  | inl e ↦ elim (Bool-cases (leb_ℤ x.ingested_at r.ingested_at)) [
    | inl f ↦ rw (e, f) (first h e)
    | inr f ↦ rw (e, f) h
  ]
  | inr e ↦ rw e (later h (replace-old r k xs))
]
  where
    first : Holds k (key_of x ∷ keys xs) → same_key x r ≡ true → Holds k (key_of r ∷ keys xs)
    first (inl a) e = inl (sym (same_key-eq x r e) ∙ a)
    first (inr b) e = inr b

    later :
        Holds k (key_of x ∷ keys xs)
        → (Holds k (keys xs) → Holds k (keys (replace r xs)))
        → Holds k (key_of x ∷ keys (replace r xs))
    later (inl a) rest = inl a
    later (inr b) rest = inr (rest b)

replace_all-old :
    (k : Key) (xs rs : List EventRow) → Holds k (keys xs) → Holds k (keys (replace_all xs rs))
unfolding replace_all
replace_all-old k xs [] h = h
replace_all-old k xs (r ∷ rs) h = replace_all-old k (replace r xs) rs (replace-old r k xs h)

-- Each row's key is there in the end.
replace_all-new :
    (k : Key) (xs rs : List EventRow) → Holds k (keys rs) → Holds k (keys (replace_all xs rs))
unfolding replace_all
replace_all-new k xs [] h = absurd h
replace_all-new k xs (r ∷ rs) (inl e) =
    replace_all-old k (replace r xs) rs
      (subst (λ x. Holds x (keys (replace r xs))) e (replace-new r xs))
replace_all-new k xs (r ∷ rs) (inr h) = replace_all-new k (replace r xs) rs h

replace_all-append :
    (seen xs ys : List EventRow)
    → replace_all seen (xs ++ ys) ≡ replace_all (replace_all seen xs) ys
unfolding replace_all
replace_all-append seen [] ys = refl
replace_all-append seen (x ∷ xs) ys = replace_all-append (replace x seen) xs ys

-- Rows whose keys the table has already change no key of FINAL.
pub final-keys :
    (table rows : List EventRow)
    → All (λ r. Holds (key_of r) (keys table)) rows
    → keys (final (table ++ rows)) ≡ keys (final table)
unfolding final
final-keys table rows h =
    ap keys (replace_all-append [] table rows)
    ∙ replace_all-keys (replace_all [] table) rows
        (All-map _ _ (λ r. replace_all-new (key_of r) [] table) rows h)

append_row-ok :
    (o : Option Error) (r : EventRow) (rest : Result (List EventRow)) (rows : List EventRow)
    → append_row o r rest ≡ ok rows
    → (rs : List EventRow) × (rest ≡ ok rs) × (rows ≡ r ∷ rs)
append_row-ok none r (ok rs) rows h = (rs, refl, cc)
append_row-ok none r (err e) rows h = absurd (cc)
append_row-ok (some e) r rest rows h = absurd (cc)

batch_rows-ok :
    (w : Writer) (now : Instant) (es : List Event) (rows : List EventRow)
    → batch_rows w now es ≡ ok rows
    → rows ≡ map (row_of_event w now) es
unfolding batch_rows
batch_rows-ok w now [] rows h = cc
batch_rows-ok w now (e ∷ es) rows h =
    let r = row_of_event w now e in
    let (rs, made, same) = append_row-ok (w.append_error r) r (batch_rows w now es) rows h in
    same ∙ ap (λ xs. r ∷ xs) (batch_rows-ok w now es rs made)

send_batch-ok :
    (p s : Option Error) (rest : Result (List EventRow)) (table t : List EventRow)
    → prepared p (send_batch s rest table) ≡ ok t
    → (rows : List EventRow) × (rest ≡ ok rows) × (t ≡ table ++ rows)
send_batch-ok none none (ok rows) table t h = (rows, refl, cc)
send_batch-ok none none (err e) table t h = absurd (cc)
send_batch-ok none (some e) (ok rows) table t h = absurd (cc)
send_batch-ok none (some e) (err f) table t h = absurd (cc)
send_batch-ok (some e) s rest table t h = absurd (cc)

-- What a batch that is sent adds.
pub insert_events-ok :
    (w : Writer) (now : Instant) (es : List Event) (table t : List EventRow)
    → insert_events w now es table ≡ ok t
    → t ≡ table ++ map (row_of_event w now) es
unfolding insert_events
insert_events-ok w now [] table t h = sym (append-nil table ∙ cc)
insert_events-ok w now (e ∷ es) table t h =
    let (rows, made, same) =
      send_batch-ok w.prepare_error w.send_error (batch_rows w now (e ∷ es)) table t h in
    same ∙ ap (λ xs. table ++ xs) (batch_rows-ok w now (e ∷ es) rows made)

-- An event whose row has a key of its own: its identifier is a UUID, and it has a time.
pub record IsNamed (w : Writer) (e : Event) : Type 0 where
  pub uuid : String
  pub parsed : w.parse_uuid e.event_id ≡ some uuid
  pub timed : eqb_ℤ e.event_time zero_time ≡ false

pub named-key :
    (v w : Writer) (now later : Instant) (e : Event)
    → w.parse_uuid ≡ v.parse_uuid
    → IsNamed v e
    → key_of (row_of_event w later e) ≡ key_of (row_of_event v now e)
unfolding row_of_event
named-key v w now later e same n = rw (same, n.parsed, n.timed) refl
