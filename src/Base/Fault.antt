-- ===== src/Base/Fault.antt =====
-- Computations that may fault: `none` is undefined behaviour of the C++ code (a dead pointer, an
-- access out of bounds), a failed assertion, or an exception that ends the program. `Ensures P r` is
-- total correctness: `r` returns, in `P`.
use mathlib.Core.Path.{◌≡◌, refl}
use mathlib.Core.Option.{Option, none, some}
use mathlib.Core.Bool.{Bool, true, false}

infixl 5 ◌>>=◌ ◌>>◌
abbrev pub ◌>>=◌ {ℓ κ} : {A : Type ℓ} {B : Type κ} (r : Option A) (f : A → Option B) → Option B
none >>= f = none
some a >>= f = f a

abbrev pub ◌>>◌ {ℓ κ} : {A : Type ℓ} {B : Type κ} → Option A → Option B → Option B
m >> k = m >>= λ _. k

-- `assert(b)`.
abbrev pub assert : Bool → Option (Unit {0})
assert true = some tt
assert false = none

module _ {ℓ} {A : Type ℓ} where
  abbrev pub Ensures : (A → Type 0) → Option A → Type 0
  Ensures P none = ⊥
  Ensures P (some a) = P a

  pub Ensures-mono :
      (P Q : A → Type 0) → ((a : A) → P a → Q a) → (r : Option A) → Ensures P r → Ensures Q r
  Ensures-mono P Q f none h = absurd h
  Ensures-mono P Q f (some a) h = f a h

  pub Ensures-and :
      (P Q : A → Type 0) (r : Option A) → Ensures P r → Ensures Q r → Ensures (λ a. P a × Q a) r
  Ensures-and P Q none h k = h
  Ensures-and P Q (some a) h k = (h, k)

  -- The value itself, with its equation.
  pub Ensures-value : (P : A → Type 0) (r : Option A) → Ensures P r → (a : A) × (r ≡ some a) × P a
  Ensures-value P none h = absurd h
  Ensures-value P (some a) h = (a, refl, h)

  pub Ensures-all :
      {I : Type 0} (P : I → A → Type 0) (r : Option A)
      → I
      → ((i : I) → Ensures (P i) r)
      → Ensures (λ a. (i : I) → P i a) r
  Ensures-all P none i h = h i
  Ensures-all P (some a) i h = h

module _ {ℓ κ} {A : Type ℓ} {B : Type κ} (P : A → Type 0) (Q : B → Type 0) where
  pub Ensures-bind :
      (r : Option A) (next : A → Option B)
      → Ensures P r
      → ((a : A) → P a → Ensures Q (next a))
      → Ensures Q (r >>= next)
  Ensures-bind none next h k = absurd h
  Ensures-bind (some a) next h k = k a h

-- The postcondition with the equation of the value.
pub Ensures-eq :
    {A : Type 0} (P : A → Type 0) (r : Option A) → Ensures P r → Ensures (λ a. P a × (r ≡ some a)) r
Ensures-eq P none h = h
Ensures-eq P (some a) h = (h, refl)
