-- ===== src/Ping/Rounding.antt =====
-- _tmain of bind_function/ping.cpp: a duration in milliseconds is printed as seconds and as frames, each
-- rounded down, to the nearest and up. The three functions of boost::chrono are an interface.
use asio_tcp.Base.{ℕ, suc, ◌+◌, ◌*◌, ◌≤◌, ◌<◌, List, [], ◌∷◌, arith}

-- A unit has `rate` ticks in a second; a duration `n` of it is n / rate seconds.
pub record Chrono : Type 0 where
  pub floor : (rate ms : ℕ) → ℕ
  pub round : (rate ms : ℕ) → ℕ
  pub ceil : (rate ms : ℕ) → ℕ
  pub floor-least : (rate ms : ℕ) → floor rate ms * 1000 ≤ ms * rate
  pub floor-most : (rate ms : ℕ) → ms * rate < suc (floor rate ms) * 1000
  pub ceil-most : (rate ms : ℕ) → ms * rate ≤ ceil rate ms * 1000
  pub ceil-least : (rate ms n : ℕ) → ms * rate ≤ n * 1000 → ceil rate ms ≤ n
  pub round-near :
      (rate ms : ℕ)
      → (round rate ms * 1000 ≤ ms * rate + 500) × (ms * rate ≤ round rate ms * 1000 + 500)

abbrev pub seconds : ℕ
seconds = 1

abbrev pub frame_rate : ℕ
frame_rate = 30

abbrev pub InOrder : List ℕ → Type 0
InOrder (a ∷ b ∷ c ∷ []) = (a ≤ b) × (b ≤ c) × (c ≤ suc a)
InOrder _ = ⊥

module _ ⦃chrono : Chrono⦄ where
  -- The three lines for one duration.
  unfoldable pub three_lines : (rate ms : ℕ) → List ℕ
  three_lines rate ms = chrono.floor rate ms ∷ chrono.round rate ms ∷ chrono.ceil rate ms ∷ []

  unfoldable pub chrono_main : List ℕ × List ℕ
  unfolding three_lines
  chrono_main = (three_lines seconds 2500, three_lines frame_rate 2516)

  -- In whatever unit, the three lines for a duration do not descend, and are at most one apart.
  pub three_lines-InOrder : (rate ms : ℕ) → InOrder (three_lines rate ms)
  unfolding three_lines
  three_lines-InOrder rate ms = (
    omega (arith, chrono.floor-least rate ms, chrono.round-near rate ms),
    omega (arith, chrono.ceil-most rate ms, chrono.round-near rate ms),
    chrono.ceil-least rate ms (suc (chrono.floor rate ms))
        (omega (arith, chrono.floor-most rate ms)),
  )
