-- ===== src/Base/Family.antt =====
-- Families indexed by a number (a heap, a table of sessions): update at one index, and sums.
use Prim.Native.Nat.{ℕ, zero, suc, ◌+◌, ◌≤◌, ◌<◌}
use mathlib.Core.Path.{◌≡◌, refl}
use mathlib.Core.Logic.{◌≢◌}
use native.Mathlib.Decide.{dec_lt}
use native.Mathlib.Omega.{arith}
use asio_tcp.Base.Tests.{◌==◌, if◌then◌else◌}

module _ {ℓ} {A : Type ℓ} where
  abbrev pub update : (table : ℕ → A) (key : ℕ) (value : A) → ℕ → A
  update table key value j = if key == j then value else table j

  pub update_self : (f : ℕ → A) (i : ℕ) (a : A) → update f i a i ≡ a
  update_self f i a = ground arith

  pub update_ne : (f : ℕ → A) (i j : ℕ) (a : A) → i ≢ j → update f i a j ≡ f j
  update_ne f i j a h = ground arith

  -- The sum of the weights below a bound.
  pub total : (weight : A → ℕ) (bound : ℕ) (table : ℕ → A) → ℕ
  total weight zero table = 0
  total weight (suc k) table = weight (table k) + total weight k table

module _ {ℓ} {A : Type ℓ} (weight : A → ℕ) (f : ℕ → A) where
  pub total-zero : total weight zero f ≡ 0
  unfolding total
  total-zero = refl

  pub total-suc : (k : ℕ) → total weight (suc k) f ≡ weight (f k) + total weight k f
  unfolding total
  total-suc k = refl

  module _ (i : ℕ) where
    pub total-update_ge :
        (a : A) (bound : ℕ) → bound ≤ i → total weight bound (update f i a) ≡ total weight bound f
    unfolding total
    total-update_ge a zero h = refl
    total-update_ge a (suc k) h = grind (arith, total-update_ge a k)

    pub total-update :
        (a : A) (bound : ℕ)
        → i < bound
        → total weight bound f + weight a ≡ weight (f i) + total weight bound (update f i a)
    unfolding total
    total-update a zero h = absurd (omega arith)
    total-update a (suc k) h = elim (dec_lt i k) [
      | yes below ↦ ground (arith, total-update a k below)
      | no last ↦ ground (arith, total-update_ge a k)
    ]

    -- One term is at most the sum.
    pub weight-le-total : (bound : ℕ) → i < bound → weight (f i) ≤ total weight bound f
    unfolding total
    weight-le-total zero h = absurd (omega arith)
    weight-le-total (suc k) h = elim (dec_lt i k) [
      | yes below ↦ omega (arith, weight-le-total k below)
      | no last ↦ ground arith
    ]
