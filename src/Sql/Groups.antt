-- ===== src/Sql/Groups.antt =====
-- What GROUP BY gives.
use chronos_dev.Common.{
  ℕ, ◌+◌, Bool, true, false, List, [], ◌∷◌, ◌≡◌, refl, ap, subst, arith, inl, inr, Bool-cases,
  if◌then◌else◌, All, total, count, total-append, ◌≤◌, ◌<◌, length, length-append,
}
use chronos_dev.Sql.{group_row, group_onto, group_by}

-- A test of keys that holds of equal keys alone.
pub record IsSame {K : Type 0} (same : K → K → Bool) : Type 0 where
  pub sound : (a b : K) → same a b ≡ true → a ≡ b
  pub complete : (a : K) → same a a ≡ true

module _ {R K : Type 0} (same : K → K → Bool) (key : R → K) (is_same : IsSame same) where
  -- The keys of the groups are told apart.
  abbrev pub AreApart : List (K × List R) → Type 0
  AreApart [] = Unit {0}
  AreApart ((k, rs) ∷ gs) = All (λ g. same k g.0 ≡ false) gs × AreApart gs

  group_row-total :
      (w : R → ℕ) (r : R) (gs : List (K × List R))
      → total (λ g. total w g.1) (group_row same key r gs) ≡ total (λ g. total w g.1) gs + w r
  unfolding group_row total
  group_row-total w r [] = omega arith
  group_row-total w r ((k, rs) ∷ gs) = elim (Bool-cases (same k (key r))) [
    | inl e ↦ rw e (omega (arith, total-append w rs (r ∷ [])))
    | inr e ↦ rw e (omega (arith, group_row-total w r gs))
  ]

  group_onto-total :
      (w : R → ℕ) (gs : List (K × List R)) (rows : List R)
      → total (λ g. total w g.1) (group_onto same key gs rows)
        ≡ total (λ g. total w g.1) gs + total w rows
  unfolding group_onto total
  group_onto-total w gs [] = omega arith
  group_onto-total w gs (r ∷ rows) =
      omega (arith, group_onto-total w (group_row same key r gs) rows, group_row-total w r gs)

  -- Each row is in one group.
  pub group_by-total :
      (w : R → ℕ) (rows : List R) → total (λ g. total w g.1) (group_by same key rows) ≡ total w rows
  unfolding group_by total
  group_by-total w rows = omega (arith, group_onto-total w [] rows)

  group_row-apart :
      (k : K) (r : R) (gs : List (K × List R))
      → same k (key r) ≡ false
      → All (λ g. same k g.0 ≡ false) gs
      → All (λ g. same k g.0 ≡ false) (group_row same key r gs)
  unfolding group_row
  group_row-apart k r [] e h = (e, tt)
  group_row-apart k r ((j, rs) ∷ gs) e h = elim (Bool-cases (same j (key r))) [
    | inl f ↦ rw f h
    | inr f ↦ rw f (h.0, group_row-apart k r gs e h.1)
  ]

  group_row-AreApart :
      (r : R) (gs : List (K × List R)) → AreApart gs → AreApart (group_row same key r gs)
  unfolding group_row
  group_row-AreApart r [] h = (tt, tt)
  group_row-AreApart r ((k, rs) ∷ gs) h = elim (Bool-cases (same k (key r))) [
    | inl e ↦ rw e h
    | inr e ↦ rw e (group_row-apart k r gs e h.0, group_row-AreApart r gs h.1)
  ]

  group_onto-AreApart :
      (gs : List (K × List R)) (rows : List R)
      → AreApart gs
      → AreApart (group_onto same key gs rows)
  unfolding group_onto
  group_onto-AreApart gs [] h = h
  group_onto-AreApart gs (r ∷ rows) h =
      group_onto-AreApart (group_row same key r gs) rows (group_row-AreApart r gs h)

  pub group_by-AreApart : (rows : List R) → AreApart (group_by same key rows)
  unfolding group_by
  group_by-AreApart rows = group_onto-AreApart [] rows tt

  -- Groups that are apart from a key have nothing to add to it.
  pub apart-none :
      (v : K × List R → ℕ) (k : K) (gs : List (K × List R))
      → All (λ g. same k g.0 ≡ false) gs
      → total (λ g. if same g.0 k then v g else 0) gs ≡ 0
  unfolding total
  apart-none v k [] h = refl
  apart-none v k (g ∷ gs) h = elim (Bool-cases (same g.0 k)) [
    | inl e ↦
        let other = subst (λ j. same k j ≡ false) (is_same.sound g.0 k e) h.0 in
        absurd (ground (arith, other, is_same.complete k))
    | inr e ↦ rw e (omega (arith, apart-none v k gs h.1))
  ]

  apart-once : (k : K) (gs : List (K × List R)) → AreApart gs → count (λ g. same g.0 k) gs ≤ 1
  unfolding total
  apart-once k [] h = omega arith
  apart-once k (g ∷ gs) h = elim (Bool-cases (same g.0 k)) [
    | inl e ↦
        let others = subst (λ j. All (λ x. same j x.0 ≡ false) gs) (is_same.sound g.0 k e) h.0 in
        rw e (omega (arith, apart-none (λ x. 1) k gs others))
    | inr e ↦ rw e (omega (arith, apart-once k gs h.1))
  ]

  -- A key has one group at most.
  pub group_by-once : (k : K) (rows : List R) → count (λ g. same g.0 k) (group_by same key rows) ≤ 1
  group_by-once k rows = apart-once k (group_by same key rows) (group_by-AreApart rows)

  -- The weight of the rows of one key.
  abbrev pub of_key : (R → ℕ) → K → K × List R → ℕ
  of_key w k g = if same g.0 k then total w g.1 else 0

  group_row-of :
      (w : R → ℕ) (k : K) (r : R) (gs : List (K × List R))
      → total (of_key w k) (group_row same key r gs)
        ≡ total (of_key w k) gs + (if same (key r) k then w r else 0)
  unfolding group_row total
  group_row-of w k r [] = ground arith
  group_row-of w k r ((j, rs) ∷ gs) = elim (Bool-cases (same j (key r))) [
    | inl e ↦
        rw e (
          ground
            (arith, total-append w rs (r ∷ []), ap (λ x. same x k) (is_same.sound j (key r) e)))
    | inr e ↦ rw e (ground (arith, group_row-of w k r gs))
  ]

  group_onto-of :
      (w : R → ℕ) (k : K) (gs : List (K × List R)) (rows : List R)
      → total (of_key w k) (group_onto same key gs rows)
        ≡ total (of_key w k) gs + total (λ r. if same (key r) k then w r else 0) rows
  unfolding group_onto total
  group_onto-of w k gs [] = omega arith
  group_onto-of w k gs (r ∷ rows) =
      omega (arith, group_onto-of w k (group_row same key r gs) rows, group_row-of w k r gs)

  pub group_by-of :
      (w : R → ℕ) (k : K) (rows : List R)
      → total (of_key w k) (group_by same key rows)
        ≡ total (λ r. if same (key r) k then w r else 0) rows
  unfolding group_by total
  group_by-of w k rows = omega (arith, group_onto-of w k [] rows)

  group_row-filled :
      (r : R) (gs : List (K × List R))
      → All (λ g. 0 < length g.1) gs
      → All (λ g. 0 < length g.1) (group_row same key r gs)
  unfolding group_row
  group_row-filled r [] h = (omega arith, tt)
  group_row-filled r ((k, rs) ∷ gs) h = elim (Bool-cases (same k (key r))) [
    | inl e ↦ rw e (omega (arith, length-append rs (r ∷ [])), h.1)
    | inr e ↦ rw e (h.0, group_row-filled r gs h.1)
  ]

  group_onto-filled :
      (gs : List (K × List R)) (rows : List R)
      → All (λ g. 0 < length g.1) gs
      → All (λ g. 0 < length g.1) (group_onto same key gs rows)
  unfolding group_onto
  group_onto-filled gs [] h = h
  group_onto-filled gs (r ∷ rows) h =
      group_onto-filled (group_row same key r gs) rows (group_row-filled r gs h)

  -- A group has a row.
  pub group_by-filled : (rows : List R) → All (λ g. 0 < length g.1) (group_by same key rows)
  unfolding group_by
  group_by-filled rows = group_onto-filled [] rows tt
