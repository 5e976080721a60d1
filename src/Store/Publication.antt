-- ===== src/Store/Publication.antt =====
-- Publishing a batch removes just that batch from the outbox.
use chronos_dev.Common.{
  ℕ, zero, suc, String, false, not, List, [], ◌∷◌, map, eq_iff, ◌≡◌, refl, ap, take, drop, select,
  arith,
}
use chronos_dev.Store.State.{Store, OutboxRow}
use chronos_dev.Store.Outbox.{one_of, fetch_outbox_batch, mark_outbox_published}

abbrev pub row_ids : List OutboxRow → List String
row_ids = map (λ r. r.id)

-- No two rows have the same identifier.
abbrev pub HasDistinctIds : List OutboxRow → Type 0
HasDistinctIds [] = Unit {0}
HasDistinctIds (r ∷ rs) = (one_of r.id (row_ids rs) ≡ false) × HasDistinctIds rs

select_none : (rs : List OutboxRow) → select (λ r. not (one_of r.id [])) rs ≡ rs
unfolding one_of
select_none [] = refl
select_none (r ∷ rs) = ap (◌∷◌ r) (select_none rs)

-- An identifier that no row has makes no difference.
select_absent :
    (x : String) (ids : List String) (rs : List OutboxRow)
    → one_of x (row_ids rs) ≡ false
    → select (λ r. not (one_of r.id (x ∷ ids))) rs ≡ select (λ r. not (one_of r.id ids)) rs
unfolding one_of
select_absent x ids [] h = refl
select_absent x ids (r ∷ rs) h =
    ground (arith, eq_iff x r.id, eq_iff r.id x, select_absent x ids rs)

one_of-take :
    (x : String) (n : ℕ) (rs : List OutboxRow)
    → one_of x (row_ids rs) ≡ false
    → one_of x (row_ids (take n rs)) ≡ false
unfolding one_of
one_of-take x zero rs h = refl
one_of-take x (suc n) [] h = refl
one_of-take x (suc n) (r ∷ rs) h = ground (arith, one_of-take x n rs)

select-drop :
    (n : ℕ) (rs : List OutboxRow)
    → HasDistinctIds rs
    → select (λ r. not (one_of r.id (row_ids (take n rs)))) rs ≡ drop n rs
unfolding one_of
select-drop zero rs d = select_none rs
select-drop (suc n) [] d = refl
select-drop (suc n) (r ∷ rs) d =
    ground (
      arith,
      eq_iff r.id r.id,
      select_absent r.id (row_ids (take n rs)) rs d.0,
      select-drop n rs d.1,
    )

-- Marking a fetched batch as published leaves the rows behind it, in their order.
pub publish-drop :
    (n : ℕ) (s : Store)
    → HasDistinctIds s.outbox
    → (mark_outbox_published (row_ids (fetch_outbox_batch n s)) s).outbox ≡ drop n s.outbox
unfolding fetch_outbox_batch mark_outbox_published
publish-drop n s d = select-drop n s.outbox d
