-- ===== src/Message/Body.antt =====
-- What a message holds after `set_body`: conn_msg keeps its representation, and the call never
-- faults on it.
use asio_tcp.Base.{
  ℕ, ◌≤◌, ◌<◌, max, ◌≡◌, ◌⊎◌, refl, false, some, List, length, take, drop, replicate, length-append,
  length-drop, length-replicate, length-take, subst, le→leb, take-append, take-length, ◌∙◌, ap, ltb,
  ltb→lt, Bool-cases, inl, inr, Ensures-mono, Ensures-bind, Ensures, arith,
}
use asio_tcp.Message.{
  Hdr, Buff, null, fixed, dynamic, ConnMsg, max_body_length, length-uninitialised, uninitialised,
  capacity, drop_small, choose, with_len, copy_in, copy_at, is_null, body_length, set_body,
  set_body_from, body, construct,
}

-- Which buffer is in use, and that it has room for the current length.
abbrev pub Holds : Buff → ConnMsg → Type 0
Holds null m = m.size_allocated ≡ 0
Holds fixed m = (m.size_allocated ≡ 0) × (m.header.len ≤ max_body_length)
Holds (dynamic bytes) m =
    (m.size_allocated ≡ length bytes)
    × (max_body_length < m.size_allocated)
    × (m.header.len ≤ m.size_allocated)

pub record IsValid (m : ConnMsg) : Type 0 where
  pub fix_size : length m.buff_fix ≡ max_body_length
  pub holds : Holds m.buff m

pub construct-IsValid : (h : Hdr) → IsValid (construct h)
unfolding construct
construct-IsValid h = record { fix_size = length-uninitialised 256; holds = refl }

-- The message after the choice of a buffer for `n` bytes.
pub record Ready (n : ℕ) (old m : ConnMsg) : Type 0 where
  pub valid : IsValid m
  pub chosen : is_null m.buff ≡ false
  pub renamed : m.header ≡ record (old.header) { len = n }
  pub room : capacity m ≡ max (capacity old) n

copy_at-Ready :
    (b : Buff) (n : ℕ) (old m : ConnMsg) (src : List ℕ)
    → m.buff ≡ b
    → length src ≡ n
    → Ready n old m
    → Ensures (λ m'. Ready n old m' × (body m' ≡ some src)) (copy_at b m src)
unfolding body
copy_at-Ready null n old m src e l r = ground arith
copy_at-Ready fixed n old m src e l r = ground (
  arith,
  take-append src (drop (length src) m.buff_fix),
  length-append src (drop (length src) m.buff_fix),
  length-drop (length src) m.buff_fix,
)
copy_at-Ready (dynamic bytes) n old m src e l r = ground (
  arith,
  take-append src (drop (length src) bytes),
  length-append src (drop (length src) bytes),
  length-drop (length src) bytes,
)

copy_in-Ready :
    (n : ℕ) (old m : ConnMsg) (src : List ℕ)
    → length src ≡ n
    → Ready n old m
    → Ensures (λ m'. Ready n old m' × (body m' ≡ some src)) (copy_in m src)
unfolding copy_in
copy_in-Ready n old m src l r = copy_at-Ready m.buff n old m src refl l r

-- What is left by the first block: an array with room for `n` bytes, or none.
record Dropped (n : ℕ) (old m : ConnMsg) : Type 0 where
  valid : IsValid m
  same : m.header ≡ old.header
  left :
      ((n ≤ m.size_allocated) × (0 < m.size_allocated) × (capacity m ≡ capacity old))
      ⊎ ((m.size_allocated ≡ 0) × (max (capacity old) n ≡ max max_body_length n))

drop_small-Dropped :
    (b : Buff) (n : ℕ) (m : ConnMsg)
    → m.buff ≡ b
    → IsValid m
    → Ensures (Dropped n m) (drop_small n m)
unfolding drop_small
drop_small-Dropped null n m e v = ground arith
drop_small-Dropped fixed n m e v = ground arith
drop_small-Dropped (dynamic bytes) n m e v = ground arith

fresh_array : ℕ → ConnMsg → ConnMsg
unfolding with_len
fresh_array n m = record (with_len n m) { buff = dynamic (uninitialised n); size_allocated = n }

in_place : ℕ → ConnMsg → ConnMsg
unfolding with_len
in_place n m = record (with_len n m) { buff = fixed }

fresh_array-Ready :
    (n : ℕ) (old m : ConnMsg)
    → IsValid m
    → m.header ≡ old.header
    → max_body_length < n
    → max (capacity old) n ≡ n
    → Ready n old (fresh_array n m)
unfolding fresh_array
fresh_array-Ready n old m v e big room = ground (arith, length-uninitialised n)

in_place-Ready :
    (n : ℕ) (old m : ConnMsg)
    → IsValid m
    → m.header ≡ old.header
    → m.size_allocated ≡ 0
    → n ≤ max_body_length
    → max (capacity old) n ≡ max_body_length
    → Ready n old (in_place n m)
unfolding in_place
in_place-Ready n old m v e a small room = ground arith

choose-Ready :
    (n : ℕ) (old m : ConnMsg)
    → IsValid m
    → m.header ≡ old.header
    → ((n ≤ m.size_allocated) × (0 < m.size_allocated) × (capacity m ≡ capacity old))
      ⊎ ((m.size_allocated ≡ 0) × (max (capacity old) n ≡ max max_body_length n))
    → Ensures (Ready n old) (choose n m)
unfolding choose fresh_array in_place with_len
choose-Ready n old m v e (inl (fits, held, same)) = by_buff m.buff refl
  where
    by_buff : (b : Buff) → m.buff ≡ b → Ensures (Ready n old) (choose n m)
    by_buff null h = ground arith
    by_buff fixed h = ground arith
    by_buff (dynamic bytes) h = ground arith
choose-Ready n old m v e (inr (bare, room)) = elim (Bool-cases (ltb max_body_length n)) [
  | inl big ↦
      rw (unallocated, big, choose)
        (written (fresh_array n m) (fresh_array-Ready n old m v e (ltb→lt _ _ big) (ground arith)))
  | inr small ↦
      rw (unallocated, small, choose)
        (written (in_place n m) (in_place-Ready n old m v e bare (ground arith) (ground arith)))
]
  where
    unallocated : ltb 0 m.size_allocated ≡ false
    unallocated = ground arith

    written : (m' : ConnMsg) → Ready n old m' → Ensures (Ready n old) (copy_in m' (replicate n 0))
    written m' r =
        Ensures-mono _ (Ready n old) (λ w h. h.0) _
          (copy_in-Ready n old m' (replicate n 0) (length-replicate n 0) r)

-- `body_length(n)` never faults, and leaves a buffer with room for `n` bytes.
pub body_length-Ready : (n : ℕ) (m : ConnMsg) → IsValid m → Ensures (Ready n m) (body_length n m)
unfolding body_length
body_length-Ready n m v =
    Ensures-bind (Dropped n m) (Ready n m) (drop_small n m) (choose n)
      (drop_small-Dropped m.buff n m refl v) (λ m' d. choose-Ready n m m' d.valid d.same d.left)

-- The message that a call of `set_body` leaves.
pub record Stored (src : List ℕ) (old m : ConnMsg) : Type 0 where
  pub valid : IsValid m
  pub kept : body m ≡ some src
  pub renamed : m.header ≡ record (old.header) { len = length src }
  pub room : capacity m ≡ max (capacity old) (length src)

copy_in-Stored :
    (src : List ℕ) (old m : ConnMsg)
    → Ready (length src) old m
    → Ensures (Stored src old) (copy_in m src)
copy_in-Stored src old m r =
    Ensures-mono (λ w. Ready (length src) old w × (body w ≡ some src)) (Stored src old)
      (λ w h. record { valid = h.0.valid; kept = h.1; renamed = h.0.renamed; room = h.0.room }) _
      (copy_in-Ready (length src) old m src refl r)

-- Total correctness of `set_body(const streambuf&)` on a message that keeps its representation: it
-- does not fault, the message keeps its representation, the body read back is the data, the header
-- changes in its length alone, and the capacity grows to the length of the data if it was smaller
-- and stays otherwise.
pub set_body-Stored :
    (src : List ℕ) (m : ConnMsg) → IsValid m → Ensures (Stored src m) (set_body src m)
unfolding set_body
set_body-Stored src m v =
    Ensures-bind (Ready (length src) m) (Stored src m) (body_length (length src) m) _
      (body_length-Ready (length src) m v)
      λ m' r.
        rw (ap (λ (h : Hdr). take h.len src) r.renamed ∙ take-length src)
          (copy_in-Stored src m m' r)

-- Total correctness of `set_body(void*, size_t)` on a message that keeps its representation, where the
-- pointer has `n` bytes at least: it returns, and the message then holds the first `n` of them.
pub set_body_from-Stored :
    (src : List ℕ) (n : ℕ) (m : ConnMsg)
    → IsValid m
    → n ≤ length src
    → Ensures (Stored (take n src) m) (set_body_from src n m)
unfolding set_body_from
set_body_from-Stored src n m v fits =
    Ensures-bind (Ready n m) (Stored (take n src) m) (body_length n m) _ (body_length-Ready n m v)
      λ m' r. rw (le→leb n (length src) fits) (
        copy_in-Stored (take n src) m m'
          (subst (λ k. Ready k m m') (omega (arith, length-take n src)) r))
