-- ===== src/Common/Totals.antt =====
-- Sums over a list, and how many of its elements pass a test.
use mathlib.Core.Logic.{∥∥₁_elim}
use native.Mathlib.Nat.{ℕ_set}
use mathlib.Core.List.{List, [], ◌∷◌, ◌++◌, map, Perm, Permᴰ}
use Prim.Native.Nat.{ℕ, ◌+◌}
use mathlib.Core.Path.{◌≡◌, refl, ap, ◌∙◌}
use mathlib.Core.Bool.{Bool}
use native.Mathlib.Omega.{arith}
use chronos_dev.Common.Tests.{if◌then◌else◌}
use chronos_dev.Common.Lists.{length, select}

module _ {ℓ} {A : Type ℓ} where
  -- The sum of the weights.
  unfoldable pub total : (A → ℕ) → List A → ℕ
  total w [] = 0
  total w (x ∷ xs) = w x + total w xs

  abbrev pub count : (A → Bool) → List A → ℕ
  count p = total (λ x. if p x then 1 else 0)

  pub total-append : (w : A → ℕ) (xs ys : List A) → total w (xs ++ ys) ≡ total w xs + total w ys
  unfolding total
  total-append w [] ys = omega arith
  total-append w (x ∷ xs) ys = omega (arith, total-append w xs ys)

  pub total-middle :
      (w : A → ℕ) (before after : List A) (p : A)
      → total w (before ++ (p ∷ after)) ≡ total w before + w p + total w after
  unfolding total
  total-middle w before after p = omega (arith, total-append w before (p ∷ after))

  total-Permᴰ : (w : A → ℕ) {xs ys : List A} → Permᴰ xs ys → total w xs ≡ total w ys
  unfolding total
  total-Permᴰ w Permᴰ.nil = refl
  total-Permᴰ w (Permᴰ.cons e h) = omega (arith, ap w e, total-Permᴰ w h)
  total-Permᴰ w (Permᴰ.swap e f) = omega (arith, ap w e, ap w f)
  total-Permᴰ w (Permᴰ.trans h k) = total-Permᴰ w h ∙ total-Permᴰ w k

  pub total-perm : (w : A → ℕ) (xs ys : List A) → Perm xs ys → total w xs ≡ total w ys
  total-perm w xs ys h = ∥∥₁_elim h (ℕ_set (total w xs) (total w ys)) (total-Permᴰ w)

pub total-map {ℓ κ} :
    {A : Type ℓ} {B : Type κ} (w : B → ℕ) (f : A → B) (xs : List A)
    → total w (map f xs) ≡ total (λ x. w (f x)) xs
unfolding total
total-map w f [] = refl
total-map w f (x ∷ xs) = omega (arith, total-map w f xs)

pub total-select {ℓ} :
    {A : Type ℓ} (w : A → ℕ) (p : A → Bool) (xs : List A)
    → total w (select p xs) ≡ total (λ x. if p x then w x else 0) xs
unfolding total
total-select w p [] = refl
total-select w p (x ∷ xs) = ground (arith, total-select w p xs)

-- Weights that agree have one sum.
pub total-ext {ℓ} :
    {A : Type ℓ} (v w : A → ℕ) (xs : List A) → ((x : A) → v x ≡ w x) → total v xs ≡ total w xs
unfolding total
total-ext v w [] h = refl
total-ext v w (x ∷ xs) h = omega (arith, h x, total-ext v w xs h)

pub total-one {ℓ} : {A : Type ℓ} (xs : List A) → total (λ x. 1) xs ≡ length xs
unfolding total
total-one [] = refl
total-one (x ∷ xs) = omega (arith, total-one xs)

pub total-zero {ℓ} : {A : Type ℓ} (xs : List A) → total (λ x. 0) xs ≡ 0
unfolding total
total-zero [] = refl
total-zero (x ∷ xs) = omega (arith, total-zero xs)
