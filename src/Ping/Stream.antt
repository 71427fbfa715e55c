-- ===== src/Ping/Stream.antt =====
-- std::istream over the bytes of a reply, as the headers of the program ping read it.
use asio_tcp.Base.{ℕ, ◌+◌, Bool, List, [], ◌∷◌, length, take, drop, leb, update, if◌then◌else◌}

pub record Stream : Type 0 where
  pub bytes : List ℕ
  pub good : Bool

-- What `read` stores at an array, from the index on.
unfoldable pub store : ℕ → List ℕ → (ℕ → ℕ) → ℕ → ℕ
store i [] rep = rep
store i (x ∷ xs) rep = store (i + 1) xs (update rep i x)

-- is.read(rep + i, n): all of it, or what there is and failbit; nothing if the stream has failed.
abbrev pub stored : Stream → ℕ → ℕ → (ℕ → ℕ) → ℕ → ℕ
unfolding store
stored is i n rep = if is.good then store i (take n is.bytes) rep else rep

abbrev pub read : ℕ → Stream → Stream
read n is =
    if is.good then record { bytes = drop n is.bytes; good = leb n (length is.bytes) } else is
