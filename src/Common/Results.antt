-- ===== src/Common/Results.antt =====
-- Go's `(value, error)` results: a value, or one of the errors of the program.
use Prim.Native.String.{String}
use mathlib.Core.Path.{◌≡◌, refl}
use mathlib.Core.Option.{Option, none, some}

-- ErrNotFound, ErrNoWorker, context.Canceled, the panic of a nil pointer, and the errors with a text.
pub data Error : Type 0 where
  not_found no_worker canceled nil_dereference : Error
  failure : String → Error
  -- fmt.Errorf("…: %w", err)
  wrapped : String → Error → Error

pub data Result {ℓ} (A : Type ℓ) : Type ℓ where
  ok : A → Result A
  err : Error → Result A

-- `_ = f(s)`: a failed call leaves the state as it was, and its error is dropped.
abbrev pub after {ℓ} : {A : Type ℓ} → A → Result A → A
after s (ok t) = t
after s (err e) = s

abbrev pub or_error {ℓ} : {A : Type ℓ} → Error → Option A → Result A
or_error e none = err e
or_error e (some a) = ok a

module _ {ℓ κ} {A : Type ℓ} {B : Type κ} where
  infixl 5 ◌>>=◌ ◌>>◌
  abbrev pub ◌>>=◌ : Result A → (A → Result B) → Result B
  err failed >>= next = err failed
  ok value >>= next = next value

  abbrev pub ◌>>◌ : Result A → Result B → Result B
  first >> second = first >>= λ ignored. second

-- A chain that succeeds has steps that succeed.
pub bind-ok {ℓ κ} :
    {A : Type ℓ} {B : Type κ} (m : Result A) (f : A → Result B) (b : B)
    → (m >>= f) ≡ ok b
    → (a : A) × (m ≡ ok a) × (f a ≡ ok b)
bind-ok (ok a) f b h = (a, refl, h)
bind-ok (err e) f b h = absurd (cc)
