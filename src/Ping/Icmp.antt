-- ===== src/Ping/Icmp.antt =====
-- class icmp_header and compute_checksum (bind_function/icmp_header.hpp). The array `rep_` is a
-- function of the index; an unsigned char is below 256, an unsigned short wraps at 2 ^ 16 and an
-- unsigned int at 2 ^ 32.
pub mod Fields
pub mod Checksum
use asio_tcp.Base.{ℕ, ◌+◌, ◌-◌, ◌*◌, ◌/◌, ◌%◌, List, [], ◌∷◌, update}

abbrev pub uint8 : ℕ → ℕ
uint8 n = n % 256

abbrev pub uint16 : ℕ → ℕ
uint16 n = n % 65536

abbrev pub uint32 : ℕ → ℕ
uint32 n = n % 4294967296

pub record IcmpHeader : Type 0 where
  pub rep : ℕ → ℕ

unfoldable pub new_icmp_header : IcmpHeader
new_icmp_header = record { rep = λ k. 0 }

abbrev pub echo_reply : ℕ
echo_reply = 0

abbrev pub echo_request : ℕ
echo_request = 8

-- rep_[a] << 8 | rep_[b], and the inverse.
abbrev pub decode : ℕ → ℕ → IcmpHeader → ℕ
decode a b h = uint16 (h.rep a * 256 + h.rep b)

abbrev pub encode : ℕ → ℕ → ℕ → IcmpHeader → IcmpHeader
encode a b n h = record { rep = update (update (h.rep) a (uint8 (n / 256))) b (n % 256) }

unfoldable pub get_type : IcmpHeader → ℕ
get_type h = h.rep 0

unfoldable pub get_code : IcmpHeader → ℕ
get_code h = h.rep 1

unfoldable pub get_checksum : IcmpHeader → ℕ
get_checksum h = decode 2 3 h

unfoldable pub get_identifier : IcmpHeader → ℕ
get_identifier h = decode 4 5 h

unfoldable pub get_sequence_number : IcmpHeader → ℕ
get_sequence_number h = decode 6 7 h

unfoldable pub set_type : ℕ → IcmpHeader → IcmpHeader
set_type n h = record { rep = update (h.rep) 0 (uint8 n) }

unfoldable pub set_code : ℕ → IcmpHeader → IcmpHeader
set_code n h = record { rep = update (h.rep) 1 (uint8 n) }

unfoldable pub set_checksum : ℕ → IcmpHeader → IcmpHeader
set_checksum n h = encode 2 3 (uint16 n) h

unfoldable pub set_identifier : ℕ → IcmpHeader → IcmpHeader
set_identifier n h = encode 4 5 (uint16 n) h

unfoldable pub set_sequence_number : ℕ → IcmpHeader → IcmpHeader
set_sequence_number n h = encode 6 7 (uint16 n) h

-- os << header: the eight bytes.
unfoldable pub bytes_of : IcmpHeader → List ℕ
bytes_of h = h.rep 0 ∷ h.rep 1 ∷ h.rep 2 ∷ h.rep 3 ∷ h.rep 4 ∷ h.rep 5 ∷ h.rep 6 ∷ h.rep 7 ∷ []

-- The loop over the body.
unfoldable pub add_body : ℕ → List ℕ → ℕ
add_body sum [] = sum
add_body sum (x ∷ []) = uint32 (sum + uint8 x * 256)
add_body sum (x ∷ y ∷ rest) = add_body (uint32 (uint32 (sum + uint8 x * 256) + uint8 y)) rest

-- The carries are added twice, and `~sum` is cut to 16 bits.
unfoldable pub fold : ℕ → ℕ
fold sum = uint32 (sum / 65536 + sum % 65536)

unfoldable pub complement : ℕ → ℕ
unfolding fold
complement sum = uint16 (4294967295 - uint32 (fold sum + fold sum / 65536))

unfoldable pub compute_checksum : IcmpHeader → List ℕ → IcmpHeader
unfolding add_body complement
compute_checksum h body =
    set_checksum
      (complement (
        add_body (uint32 (get_type h * 256 + get_code h + get_identifier h + get_sequence_number h))
          body))
      h
