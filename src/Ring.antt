-- ===== src/Ring.antt =====
-- boost::circular_buffer, of which the code uses what stands here: an interface, with the documented
-- behaviour as laws. `contents` lists the items from `begin()` to `end()`.
use asio_tcp.Base.{ℕ, ◌≤◌, ◌<◌, ◌≡◌, refl, Bool, true, false, List, [], ◌∷◌, ◌++◌, length, leb}

abbrev pub is_empty {ℓ} : {A : Type ℓ} → List A → Bool
is_empty [] = true
is_empty (x ∷ xs) = false

pub is_empty-nil {ℓ} : {A : Type ℓ} (xs : List A) → is_empty xs ≡ true → xs ≡ []
is_empty-nil [] e = refl
is_empty-nil (x ∷ xs) e = cc

pub record CircularBuffer : Type 1 where
  pub Buffer : Type 0
  pub contents : Buffer → List ℕ
  pub limit : Buffer → ℕ
  -- a new buffer after `set_capacity`
  pub with_capacity : ℕ → Buffer
  pub empty : Buffer → Bool
  pub full : Buffer → Bool
  pub front : Buffer → ℕ
  pub pop_front : Buffer → Buffer
  pub push_back : Buffer → ℕ → Buffer
  pub clear : Buffer → Buffer
  pub contents-with_capacity : (n : ℕ) → contents (with_capacity n) ≡ []
  pub limit-with_capacity : (n : ℕ) → limit (with_capacity n) ≡ n
  pub bounded : (b : Buffer) → length (contents b) ≤ limit b
  pub empty_lem : (b : Buffer) → empty b ≡ is_empty (contents b)
  pub full_lem : (b : Buffer) → full b ≡ leb (limit b) (length (contents b))
  pub front_lem : (b : Buffer) (p : ℕ) (ps : List ℕ) → contents b ≡ p ∷ ps → front b ≡ p
  pub contents-pop_front :
      (b : Buffer) (p : ℕ) (ps : List ℕ) → contents b ≡ p ∷ ps → contents (pop_front b) ≡ ps
  pub contents-push_back :
      (b : Buffer) (p : ℕ)
      → length (contents b) < limit b
      → contents (push_back b p) ≡ contents b ++ p ∷ []
  pub contents-clear : (b : Buffer) → contents (clear b) ≡ []
  pub limit-pop_front : (b : Buffer) → limit (pop_front b) ≡ limit b
  pub limit-push_back : (b : Buffer) (p : ℕ) → limit (push_back b p) ≡ limit b
  pub limit-clear : (b : Buffer) → limit (clear b) ≡ limit b
