-- ===== src/Common/Maps.antt =====
-- Go's maps with string keys, as association lists. A `range` loop visits the entries in an order
-- that the runtime chooses; its users take that order as an argument, a `Visit`.
use Prim.Native.String.{String}
use mathlib.Core.Path.{◌≡◌, refl}
use mathlib.Core.Logic.{◌≢◌}
use mathlib.Core.Bool.{false}
use mathlib.Core.Option.{Option, none, some}
use mathlib.Core.List.{List, [], ◌∷◌, Perm}
use native.Mathlib.Omega.{arith}
use text.Mathlib.Text.{◌==◌}
use text.Mathlib.TextEquality.{eq_iff}
use chronos_dev.Common.Tests.{if◌then◌else◌}

abbrev pub Map {ℓ} : Type ℓ → Type ℓ
Map V = List (String × V)

-- The order in which one `range` loop visits a map.
abbrev pub Visit : Type 0 → Type 0
Visit V = Map V → List (String × V)

abbrev pub IsVisit : {V : Type 0} → Visit V → Type 0
IsVisit {V} visit = (m : Map V) → Perm (visit m) m

pub ne_of_false : (a b : String) → (a == b) ≡ false → a ≢ b
ne_of_false a b h e = absurd (ground (arith, eq_iff a b))

pub ne_false : (a b : String) → a ≢ b → (a == b) ≡ false
ne_false a b h = ground (arith, eq_iff a b)

module _ {ℓ} {V : Type ℓ} where
  -- m[k], with the second result of the index expression.
  unfoldable pub lookup : String → Map V → Option V
  lookup k [] = none
  lookup k ((j, v) ∷ m) = if j == k then some v else lookup k m

  -- m[k] = v
  unfoldable pub insert : String → V → Map V → Map V
  insert k v [] = (k, v) ∷ []
  insert k v ((j, w) ∷ m) = let rest = insert k v m in if j == k then (k, v) ∷ m else (j, w) ∷ rest

  -- delete(m, k)
  unfoldable pub delete : String → Map V → Map V
  delete k [] = []
  delete k ((j, w) ∷ m) = let rest = delete k m in if j == k then rest else (j, w) ∷ rest

  pub lookup-insert :
      (key other : String) (value : V) (m : Map V)
      → lookup other (insert key value m) ≡ (if key == other then some value else lookup other m)
  unfolding lookup insert
  lookup-insert key other value [] = refl
  lookup-insert key other value ((x, old) ∷ m) =
      let rest = lookup-insert key other value m in
      ground (arith, rest, eq_iff x key, eq_iff x other, eq_iff key other)

  pub lookup-delete :
      (key other : String) (m : Map V)
      → lookup other (delete key m) ≡ (if key == other then none else lookup other m)
  unfolding lookup delete
  lookup-delete key other [] = ground arith
  lookup-delete key other ((x, old) ∷ m) =
      let rest = lookup-delete key other m in
      ground (arith, rest, eq_iff x key, eq_iff x other, eq_iff key other)

-- The values of the entries that a loop visits.
abbrev pub values {ℓ} : {V : Type ℓ} → List (String × V) → List V
values [] = []
values ((k, v) ∷ m) = v ∷ values m

-- A write to each value in place.
abbrev pub map_values {ℓ} : {V : Type ℓ} → (V → V) → Map V → Map V
map_values f [] = []
map_values f ((k, v) ∷ m) = (k, f v) ∷ map_values f m

abbrev pub map_option {ℓ κ} : {A : Type ℓ} {B : Type κ} → (A → B) → Option A → Option B
map_option f none = none
map_option f (some a) = some (f a)

pub lookup-map_values {ℓ} :
    {V : Type ℓ} (f : V → V) (k : String) (m : Map V)
    → lookup k (map_values f m) ≡ map_option f (lookup k m)
unfolding lookup
lookup-map_values f k [] = refl
lookup-map_values f k ((j, v) ∷ m) = ground (arith, lookup-map_values f k m)
