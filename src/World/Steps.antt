-- ===== src/World/Steps.antt =====
-- Total correctness of a sequence of methods on the state.
use asio_tcp.Base.{Option, none, some, Ensures, ◌≡◌, ap}
use asio_tcp.Ring.{CircularBuffer}
use asio_tcp.World.{World, M, ◌>>=◌}

module _ ⦃cb : CircularBuffer⦄ {A B : Type 0} where
  run_on :
      (P : A × World → Type 0) (Q : B × World → Type 0) (r : Option (A × World)) (f : A → M B)
      → Ensures P r
      → ((a : A) (w : World) → P (a, w) → Ensures Q (f a w))
      → Ensures Q (elim r [ none ↦ none | some (a, w) ↦ f a w ])
  run_on P Q none f h k = absurd h
  run_on P Q (some (a, w)) f h k = k a w h

  pub bind-Ensures :
      (P : A × World → Type 0) (Q : B × World → Type 0) (m : M A) (f : A → M B) (w : World)
      → Ensures P (m w)
      → ((a : A) (w' : World) → P (a, w') → Ensures Q (f a w'))
      → Ensures Q ((m >>= f) w)
  bind-Ensures P Q m f w h k = run_on P Q (m w) f h k

  -- The first method returned.
  pub bind-eq_of_some :
      (m : M A) (f : A → M B) {w v : World} {a : A} → m w ≡ some (a, v) → (m >>= f) w ≡ f a v
  bind-eq_of_some m f e =
      ap (λ (r : Option (A × World)). elim r [ none ↦ none | some (a, w) ↦ f a w ]) e

  pub bind-eq_of_none : (m : M A) (f : A → M B) {w : World} → m w ≡ none → (m >>= f) w ≡ none
  bind-eq_of_none m f e =
      ap (λ (r : Option (A × World)). elim r [ none ↦ none | some (a, w) ↦ f a w ]) e
