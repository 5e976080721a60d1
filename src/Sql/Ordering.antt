-- ===== src/Sql/Ordering.antt =====
-- What ORDER BY and LIMIT give.
use mathlib.Core.List.{perm_middle}
use mathlib.Core.List.Perm
use chronos_dev.Common.{
  ℕ, zero, suc, ◌≤◌, Bool, true, false, List, [], ◌∷◌, ◌++◌, map, Perm, ◌≡◌, refl, ◌⊎◌, inl, inr,
  arith, take, drop, take-append-drop, select, All, All-map, not, length, Bool-cases,
}
use chronos_dev.Sql.{place_row, ordered, page}

-- An order on rows that tells any two apart or ties them.
pub record IsRank {A : Type 0} (before : A → A → Bool) : Type 0 where
  pub total : (a b : A) → before a b ≡ false → before b a ≡ true
  pub trans : (a b c : A) → before a b ≡ true → before b c ≡ true → before a c ≡ true

abbrev pub IsOrdered : {A : Type 0} → (A → A → Bool) → List A → Type 0
IsOrdered before [] = Unit {0}
IsOrdered before (x ∷ xs) = All (λ y. before x y ≡ true) xs × IsOrdered before xs

-- `out` is the beginning of an ordering of the rows, with all of them or as many as `n`.
abbrev pub IsPage : {A : Type 0} → (A → A → Bool) → ℕ → List A → List A → Type 0
IsPage {A} before n rows out =
    (rest : List A) × Perm (out ++ rest) rows
    × IsOrdered before (out ++ rest)
    × (length out ≤ n)
    × ((rest ≡ []) ⊎ (length out ≡ n))

module _ {A : Type 0} (before : A → A → Bool) where
  place_row-Perm : (x : A) (ys : List A) → Perm (place_row before x ys) (x ∷ ys)
  unfolding place_row
  place_row-Perm x [] = Perm.rfl
  place_row-Perm x (y ∷ ys) = elim (Bool-cases (before x y)) [
    | inl e ↦ rw e Perm.rfl
    | inr e ↦ rw e (Perm.trans (Perm.cons y (place_row-Perm x ys)) (Perm.swap x y ys))
  ]

  pub ordered-Perm : (xs : List A) → Perm (ordered before xs) xs
  unfolding ordered
  ordered-Perm [] = Perm.rfl
  ordered-Perm (x ∷ xs) =
      Perm.trans (place_row-Perm x (ordered before xs)) (Perm.cons x (ordered-Perm xs))

  module _ (rank : IsRank before) where
    All-before :
        (x y : A) (zs : List A)
        → before x y ≡ true
        → All (λ z. before y z ≡ true) zs
        → All (λ z. before x z ≡ true) zs
    All-before x y [] h k = tt
    All-before x y (z ∷ zs) h k = (rank.trans x y z h k.0, All-before x y zs h k.1)

    place_row-All :
        (w x : A) (ys : List A)
        → before w x ≡ true
        → All (λ z. before w z ≡ true) ys
        → All (λ z. before w z ≡ true) (place_row before x ys)
    unfolding place_row
    place_row-All w x [] h k = (h, tt)
    place_row-All w x (y ∷ ys) h k = elim (Bool-cases (before x y)) [
      | inl e ↦ rw e (h, k)
      | inr e ↦ rw e (k.0, place_row-All w x ys h k.1)
    ]

    place_row-IsOrdered :
        (x : A) (ys : List A) → IsOrdered before ys → IsOrdered before (place_row before x ys)
    unfolding place_row
    place_row-IsOrdered x [] h = (tt, tt)
    place_row-IsOrdered x (y ∷ ys) h = elim (Bool-cases (before x y)) [
      | inl e ↦ rw e ((e, All-before x y ys e h.0), h)
      | inr e ↦ rw e (place_row-All y x ys (rank.total x y e) h.0, place_row-IsOrdered x ys h.1)
    ]

    pub ordered-IsOrdered : (xs : List A) → IsOrdered before (ordered before xs)
    unfolding ordered
    ordered-IsOrdered [] = tt
    ordered-IsOrdered (x ∷ xs) = place_row-IsOrdered x (ordered before xs) (ordered-IsOrdered xs)

take_room :
    {A : Type 0} (n : ℕ) (xs : List A)
    → (length (take n xs) ≤ n) × ((drop n xs ≡ []) ⊎ (length (take n xs) ≡ n))
take_room zero xs = (omega arith, inr refl)
take_room (suc n) [] = (omega arith, inl refl)
take_room (suc n) (x ∷ xs) = let h = take_room n xs in ground (arith, h)

pub page-IsPage :
    {A : Type 0} (before : A → A → Bool) (p : A → Bool) (n : ℕ) (rows : List A)
    → IsRank before
    → IsPage before n (select p rows) (page before p n rows)
unfolding page
page-IsPage before p n rows rank =
    let xs = ordered before (select p rows) in
    (
      drop n xs,
      rw (take-append-drop n xs) (ordered-Perm before (select p rows)),
      rw (take-append-drop n xs) (ordered-IsOrdered before rank (select p rows)),
      (take_room n xs).0,
      (take_room n xs).1,
    )

-- Any two rows, one before the other, are so related.
abbrev pub InOrder : {A : Type 0} → (A → A → Type 0) → List A → Type 0
InOrder R [] = Unit {0}
InOrder R (x ∷ xs) = All (R x) xs × InOrder R xs

-- `out` is the beginning of a list of just the rows with the property `P`, in the order `R`, with all of
-- them or as many as `n`.
pub record IsListing {A : Type 0} (R : A → A → Type 0) (P : A → Type 0) (n : ℕ) (rows out : List A)
    : Type 0 where
  pub rest : List A
  pub others : List A
  pub rows_are : Perm ((out ++ rest) ++ others) rows
  pub listed : All P (out ++ rest)
  pub left : All (λ x. ¬ P x) others
  pub in_order : InOrder R (out ++ rest)
  pub limit : length out ≤ n
  pub full : (rest ≡ []) ⊎ (length out ≡ n)

select-split :
    {A : Type 0} (p : A → Bool) (xs : List A) → Perm (select p xs ++ select (λ x. not (p x)) xs) xs
select-split p [] = Perm.rfl
select-split p (x ∷ xs) = elim (Bool-cases (p x)) [
  | inl e ↦ rw e (Perm.cons x (select-split p xs))
  | inr e ↦ rw e (
      Perm.trans (perm_middle (select p xs) (select (λ x. not (p x)) xs))
        (Perm.cons x (select-split p xs)))
]

select-All :
    {A : Type 0} (p : A → Bool) (P : A → Type 0) (xs : List A)
    → ((x : A) → p x ≡ true → P x)
    → All P (select p xs)
select-All p P [] h = tt
select-All p P (x ∷ xs) h = elim (Bool-cases (p x)) [
  | inl e ↦ rw e (h x e, select-All p P xs h)
  | inr e ↦ rw e (select-All p P xs h)
]

place_row-keeps :
    {A : Type 0} (before : A → A → Bool) (P : A → Type 0) (x : A) (ys : List A)
    → P x
    → All P ys
    → All P (place_row before x ys)
unfolding place_row
place_row-keeps before P x [] h k = (h, tt)
place_row-keeps before P x (y ∷ ys) h k = elim (Bool-cases (before x y)) [
  | inl e ↦ rw e (h, k)
  | inr e ↦ rw e (k.0, place_row-keeps before P x ys h k.1)
]

ordered-keeps :
    {A : Type 0} (before : A → A → Bool) (P : A → Type 0) (xs : List A)
    → All P xs
    → All P (ordered before xs)
unfolding ordered
ordered-keeps before P [] h = tt
ordered-keeps before P (x ∷ xs) h =
    place_row-keeps before P x (ordered before xs) h.0 (ordered-keeps before P xs h.1)

IsOrdered-InOrder :
    {A : Type 0} (before : A → A → Bool) (R : A → A → Type 0) (xs : List A)
    → ((a b : A) → before a b ≡ true → R a b)
    → IsOrdered before xs
    → InOrder R xs
IsOrdered-InOrder before R [] f h = tt
IsOrdered-InOrder before R (x ∷ xs) f h =
    (All-map _ _ (λ y e. f x y e) xs h.0, IsOrdered-InOrder before R xs f h.1)

-- A page, in the terms of an order and a property that its tests decide.
pub page-IsListing :
    {A : Type 0} (before : A → A → Bool) (p : A → Bool) (R : A → A → Type 0) (P : A → Type 0)
    (n : ℕ) (rows : List A)
    → IsRank before
    → ((a b : A) → before a b ≡ true → R a b)
    → ((x : A) → p x ≡ true → P x)
    → ((x : A) → p x ≡ false → ¬ P x)
    → IsListing R P n rows (page before p n rows)
unfolding page
page-IsListing before p R P n rows rank order sound complete =
    let xs = ordered before (select p rows) in
    let whole = take-append-drop n xs in
    let same = ordered-Perm before (select p rows) in
    record {
      rest = drop n xs;
      others = select (λ x. not (p x)) rows;
      rows_are = rw whole (
          Perm.trans (Perm.append_right (select (λ x. not (p x)) rows) same) (select-split p rows));
      listed = rw whole (ordered-keeps before P (select p rows) (select-All p P rows sound));
      left = select-All (λ x. not (p x)) (λ x. ¬ P x) rows (λ x e. complete x (ground (arith, e)));
      in_order =
          rw whole
            (IsOrdered-InOrder before R xs order (ordered-IsOrdered before rank (select p rows)));
      limit = (take_room n xs).0;
      full = (take_room n xs).1;
    }

map-All :
    {A B : Type 0} (P : B → Type 0) (f : A → B) (xs : List A)
    → All (λ x. P (f x)) xs
    → All P (map f xs)
map-All P f [] h = tt
map-All P f (x ∷ xs) h = (h.0, map-All P f xs h.1)

-- Rows in an order, and what is computed from each of them.
pub map-IsOrdered :
    {A B : Type 0} (before : B → B → Bool) (f : A → B) (xs : List A)
    → IsOrdered (λ a b. before (f a) (f b)) xs
    → IsOrdered before (map f xs)
map-IsOrdered before f [] h = tt
map-IsOrdered before f (x ∷ xs) h =
    (map-All (λ y. before (f x) y ≡ true) f xs h.0, map-IsOrdered before f xs h.1)
