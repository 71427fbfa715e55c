-- ===== src/Example/Ring.antt =====
-- An implementation of the interface `CircularBuffer`: its laws can be met.
use asio_tcp.Base.{
  ℕ, ◌≤◌, ◌<◌, ◌≡◌, refl, List, [], ◌∷◌, ◌++◌, length, length-append, take, length-take, leb, ltb,
  if◌then◌else◌, arith,
}
use asio_tcp.Ring.{CircularBuffer, is_empty}

-- The items, front first, within the limit.
pub record Items : Type 0 where
  pub limit : ℕ
  pub items : List ℕ
  pub within : length items ≤ limit

abbrev pub first : List ℕ → ℕ
first [] = 0
first (p ∷ ps) = p

abbrev pub rest : List ℕ → List ℕ
rest [] = []
rest (p ∷ ps) = ps

pub length-rest : (ps : List ℕ) → length (rest ps) ≤ length ps
length-rest [] = omega arith
length-rest (p ∷ ps) = omega arith

-- A push to a full buffer overwrites its front.
abbrev pub pushed : ℕ → List ℕ → ℕ → List ℕ
pushed limit ps p = if ltb (length ps) limit then ps ++ p ∷ [] else take limit (rest ps ++ p ∷ [])

pub length-pushed : (limit : ℕ) (ps : List ℕ) (p : ℕ) → length (pushed limit ps p) ≤ limit
length-pushed limit ps p =
    ground (arith, length-append ps (p ∷ []), length-take limit (rest ps ++ p ∷ []))

pub nothing_within : (n : ℕ) → 0 ≤ n
nothing_within n = omega arith

pub rest_within : (b : Items) → length (rest b.items) ≤ b.limit
rest_within b = omega (arith, length-rest b.items, b.within)

pub pushed_below :
    (limit : ℕ) (ps : List ℕ) (p : ℕ) → length ps < limit → pushed limit ps p ≡ ps ++ p ∷ []
pushed_below limit ps p lt = ground arith

instance abbrev pub list_buffer : CircularBuffer
list_buffer = record {
  Buffer = Items;
  contents = λ b. b.items;
  limit = λ b. b.limit;
  with_capacity = λ n. record { limit = n; items = []; within = nothing_within n };
  empty = λ b. is_empty b.items;
  full = λ b. leb b.limit (length b.items);
  front = λ b. first b.items;
  pop_front = λ b. record { limit = b.limit; items = rest b.items; within = rest_within b };
  push_back = λ b p. record {
    limit = b.limit;
    items = pushed b.limit b.items p;
    within = length-pushed b.limit b.items p;
  };
  clear = λ b. record { limit = b.limit; items = []; within = nothing_within b.limit };
  contents-with_capacity = λ n. refl;
  limit-with_capacity = λ n. refl;
  bounded = λ b. b.within;
  empty_lem = λ b. refl;
  full_lem = λ b. refl;
  front_lem = λ b p ps e. rw e;
  contents-pop_front = λ b p ps e. rw e;
  contents-push_back = λ b p lt. pushed_below b.limit b.items p lt;
  contents-clear = λ b. refl;
  limit-pop_front = λ b. refl;
  limit-push_back = λ b p. refl;
  limit-clear = λ b. refl;
}
