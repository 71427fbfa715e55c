-- ===== src/Ping/Ipv4/Extract.antt =====
-- What `is >> header` takes from the bytes of a reply (bind_function/ipv4_header.hpp).
use asio_tcp.Base.{
  ℕ, zero, suc, ◌+◌, ◌-◌, ◌*◌, ◌/◌, ◌%◌, ◌≤◌, ◌<◌, ◌≡◌, ◌↔◌, refl, sym, ap, ◌∙◌, true, List, [],
  ◌∷◌, length, take, drop, length-drop, arith, leb→le, le→leb, subst, update, update_ne,
}
use asio_tcp.Ping.Stream.{Stream, store, read}
use asio_tcp.Ping.Ipv4.{
  Ipv4Header, version, header_length, fixed_part, check_version, options_part, extract,
}

store_below : (i : ℕ) (xs : List ℕ) (rep : ℕ → ℕ) (k : ℕ) → k < i → store i xs rep k ≡ rep k
unfolding store
store_below i [] rep k h = refl
store_below i (x ∷ xs) rep k h =
    store_below (i + 1) xs (update rep i x) k (omega (arith, h))
    ∙ update_ne rep i k x (λ e. absurd (omega (arith, e, h)))

drop_nil : (n : ℕ) → drop {A = ℕ} n [] ≡ []
drop_nil zero = refl
drop_nil (suc n) = refl

drop-drop : (m n : ℕ) (xs : List ℕ) → drop m (drop n xs) ≡ drop (n + m) xs
drop-drop m zero xs = ap (λ k. drop k xs) (omega arith)
drop-drop m (suc n) [] = drop_nil m ∙ sym (drop_nil (suc n + m))
drop-drop m (suc n) (x ∷ xs) = drop-drop m n xs ∙ ap (λ k. drop k (x ∷ xs)) next
  where
    next : suc (n + m) ≡ suc n + m
    next = omega arith

-- The first byte of the packet is the first of the header.
first_byte :
    (b : ℕ) (more : List ℕ) (h : Ipv4Header)
    → (fixed_part (record { bytes = b ∷ more; good = true }) h).rep 0 ≡ b
unfolding fixed_part store
first_byte b more h = store_below 1 (take 19 more) (update (h.rep) 0 b) 0 (omega arith)

options_iff :
    (is : Stream) (h : Ipv4Header)
    → ((options_part is h).1.good ≡ true)
      ↔ ((is.good ≡ true) × (20 ≤ header_length h) × (header_length h - 20 ≤ length is.bytes))
unfolding options_part
options_iff is h = ground arith

options_bytes :
    (is : Stream) (h : Ipv4Header)
    → (options_part is h).1.good ≡ true
    → (options_part is h).1.bytes ≡ drop (header_length h - 20) is.bytes
unfolding options_part
options_bytes is h e = ground arith

check_iff :
    (is : Stream) (h : Ipv4Header)
    → ((check_version is h).good ≡ true) ↔ ((version h ≡ 4) × (is.good ≡ true))
unfolding check_version
check_iff is h = ground arith

check_bytes : (is : Stream) (h : Ipv4Header) → (check_version is h).bytes ≡ is.bytes
unfolding check_version
check_bytes is h = ground arith

abbrev Read : ℕ → List ℕ → Stream → Type 0
Read b bytes after =
    ((after.good ≡ true) ↔ ((b / 16 % 16 ≡ 4) × (20 ≤ b % 16 * 4) × (b % 16 * 4 ≤ length bytes)))
    × ((after.good ≡ true) → after.bytes ≡ drop (b % 16 * 4) bytes)

-- The same by the first byte of the header, once 20 bytes were asked for.
by_header :
    (bytes : List ℕ) (h : Ipv4Header)
    → Read
        (h.rep 0)
        bytes
        (options_part (check_version (read 20 (record { bytes = bytes; good = true })) h) h).1
by_header bytes h = ((to_fields, from_fields), behind)
  where
    first : Stream
    first = read 20 (record { bytes = bytes; good = true })

    checked : Stream
    checked = check_version first h

    left : length checked.bytes ≡ length bytes - 20
    left = ap length (check_bytes first h) ∙ length-drop 20 bytes

    to_fields :
        (options_part checked h).1.good ≡ true
        → (version h ≡ 4) × (20 ≤ header_length h) × (header_length h ≤ length bytes)
    to_fields good =
        let (fine, long, there) = (options_iff checked h).0 good in
        let (four, enough) = (check_iff first h).0 fine in
        (four, long, omega (arith, long, there, left, leb→le 20 (length bytes) enough))

    from_fields :
        (version h ≡ 4) × (20 ≤ header_length h) × (header_length h ≤ length bytes)
        → (options_part checked h).1.good ≡ true
    from_fields (four, long, there) = (options_iff checked h).1 (
      (check_iff first h).1 (four, le→leb 20 (length bytes) (omega (arith, long, there))),
      long,
      omega (arith, left, there),
    )

    behind :
        (options_part checked h).1.good ≡ true
        → (options_part checked h).1.bytes ≡ drop (header_length h) bytes
    behind good =
        options_bytes checked h good
        ∙ ap (drop (header_length h - 20)) (check_bytes first h)
        ∙ drop-drop (header_length h - 20) 20 bytes
        ∙ ap (λ k. drop k bytes) (omega (arith, (to_fields good).1))

-- From a stream that has not failed and has a first byte, a header is read exactly if its version is
-- 4, its length is 20 at least, and all its bytes are there; the stream is then behind it.
pub extract_iff :
    (b : ℕ) (more : List ℕ) (h : Ipv4Header)
    → let after = (extract (record { bytes = b ∷ more; good = true }) h).1 in
      ((after.good ≡ true)
        ↔ ((b / 16 % 16 ≡ 4) × (20 ≤ b % 16 * 4) × (b % 16 * 4 ≤ length (b ∷ more))))
      × ((after.good ≡ true) → after.bytes ≡ drop (b % 16 * 4) (b ∷ more))
unfolding extract
extract_iff b more h =
    subst (λ x. Read x (b ∷ more) (extract (record { bytes = b ∷ more; good = true }) h).1)
      (first_byte b more h)
      (by_header (b ∷ more) (fixed_part (record { bytes = b ∷ more; good = true }) h))
