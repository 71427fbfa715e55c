-- ===== src/Ping/Icmp/Checksum.antt =====
-- The checksum of bind_function/icmp_header.hpp against the sum of the 16-bit words of a packet, on
-- which a receiver decides.
use asio_tcp.Base.{
  ℕ, ◌+◌, ◌*◌, ◌/◌, ◌%◌, ◌≤◌, ◌<◌, ◌≡◌, List, [], ◌∷◌, ◌++◌, length, arith, ap, ◌∙◌,
}
use asio_tcp.Ping.Icmp.{
  IcmpHeader, uint8, uint32, bytes_of, add_body, fold, complement, compute_checksum, set_checksum,
  get_type, get_code, get_identifier, get_sequence_number,
}

-- The 16-bit words, the last one padded with a zero byte.
abbrev pub sum_words : List ℕ → ℕ
sum_words [] = 0
sum_words (x ∷ []) = x * 256
sum_words (x ∷ y ∷ rest) = x * 256 + y + sum_words rest

abbrev pub AreBytes : List ℕ → Type 0
AreBytes [] = Unit {0}
AreBytes (x ∷ xs) = (x < 256) × AreBytes xs

complement_lem :
    (sum : ℕ)
    → sum < 4294967296
    → sum + complement sum ≡ 65535 * (sum / 65536 + fold sum / 65536 + 1)
unfolding complement fold
complement_lem sum h = omega arith

sum_words-bound : (xs : List ℕ) → AreBytes xs → sum_words xs ≤ 65280 * length xs
sum_words-bound [] h = omega arith
sum_words-bound (x ∷ []) h = omega (arith, h.0)
sum_words-bound (x ∷ y ∷ rest) h = omega (arith, h.0, h.1.0, sum_words-bound rest h.1.1)

add_body_lem :
    (sum : ℕ) (xs : List ℕ)
    → AreBytes xs
    → sum + sum_words xs < 4294967296
    → add_body sum xs ≡ sum + sum_words xs
unfolding add_body
add_body_lem sum [] h b = omega arith
add_body_lem sum (x ∷ []) h b = omega (arith, h.0)
add_body_lem sum (x ∷ y ∷ rest) h b =
    ap (λ s. add_body s rest) both
    ∙ add_body_lem (sum + x * 256 + y) rest h.1.1 (omega (arith, b))
    ∙ omega arith
  where
    both : uint32 (uint32 (sum + uint8 x * 256) + uint8 y) ≡ sum + x * 256 + y
    both = omega (arith, b, h.0, h.1.0)

abbrev pub IsHeader : IcmpHeader → Type 0
IsHeader h = (k : ℕ) → h.rep k < 256

-- The words of the header, its checksum left out.
abbrev header_sum : IcmpHeader → ℕ
header_sum h = h.rep 0 * 256 + h.rep 1 + (h.rep 4 * 256 + h.rep 5) + (h.rep 6 * 256 + h.rep 7)

abbrev pub max_body : ℕ
max_body = 65507

packet_sum :
    (h : IcmpHeader) (body : List ℕ)
    → IsHeader h
    → AreBytes body
    → length body ≤ max_body
    → add_body
        (uint32 (get_type h * 256 + get_code h + get_identifier h + get_sequence_number h))
        body
      ≡ header_sum h + sum_words body
unfolding get_type get_code get_identifier get_sequence_number
packet_sum h body v bytes short =
    ap (λ s. add_body s body) header
    ∙ add_body_lem (header_sum h) body bytes (omega (arith, v 0, v 1, v 4, v 5, v 6, v 7, bound))
  where
    header :
        uint32 (get_type h * 256 + get_code h + get_identifier h + get_sequence_number h)
        ≡ header_sum h
    header = omega (arith, v 0, v 1, v 4, v 5, v 6, v 7)

    bound : sum_words body ≤ 65280 * length body
    bound = sum_words-bound body bytes

complement-bound : (sum : ℕ) → complement sum < 65536
unfolding complement
complement-bound sum = omega arith

-- The words of a packet, with a checksum in its place.
with_checksum :
    (h : IcmpHeader) (body : List ℕ) (c : ℕ)
    → c < 65536
    → sum_words (bytes_of (set_checksum c h) ++ body) ≡ header_sum h + sum_words body + c
unfolding bytes_of set_checksum
with_checksum h body c small = omega (arith, small)

multiple : (n k : ℕ) → n ≡ 65535 * k → n % 65535 ≡ 0
multiple n k e = omega (arith, e)

-- The words of a packet with a computed checksum add up to a multiple of 65535, which is what a
-- receiver checks: for a header of bytes and a body of at most 65507 bytes, the longest that fits an
-- IPv4 packet.
pub compute_checksum-sum_words :
    (h : IcmpHeader) (body : List ℕ)
    → IsHeader h
    → AreBytes body
    → length body ≤ max_body
    → sum_words (bytes_of (compute_checksum h body) ++ body) % 65535 ≡ 0
unfolding compute_checksum
compute_checksum-sum_words h body v bytes short =
    ap (λ s. sum_words (bytes_of (set_checksum (complement s) h) ++ body) % 65535)
      (packet_sum h body v bytes short)
    ∙ ap (◌% 65535) (with_checksum h body (complement total) (complement-bound total))
    ∙ multiple (total + complement total) _ (
        complement_lem total
          (omega (arith, v 0, v 1, v 4, v 5, v 6, v 7, sum_words-bound body bytes)))
  where
    total : ℕ
    total = header_sum h + sum_words body
