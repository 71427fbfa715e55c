-- ===== src/Ping/Ipv4.antt =====
-- class ipv4_header (bind_function/ipv4_header.hpp), the header before a reply.
pub mod Extract
pub mod Fields
use asio_tcp.Base.{
  ℕ, ◌+◌, ◌-◌, ◌*◌, ◌/◌, ◌%◌, Bool, true, false, List, [], ◌∷◌, ltb, ◌==◌, ◌||◌, not, if◌then◌else◌,
}
use asio_tcp.Ping.Stream.{Stream, store, stored, read}

pub record Ipv4Header : Type 0 where
  pub rep : ℕ → ℕ

unfoldable pub new_ipv4_header : Ipv4Header
new_ipv4_header = record { rep = λ k. 0 }

abbrev pub version : Ipv4Header → ℕ
version h = h.rep 0 / 16 % 16

abbrev pub header_length : Ipv4Header → ℕ
header_length h = h.rep 0 % 16 * 4

-- decode(a, b)
abbrev pub decode : Ipv4Header → ℕ → ℕ → ℕ
decode h a b = (h.rep a * 256 + h.rep b) % 65536

abbrev pub type_of_service : Ipv4Header → ℕ
type_of_service h = h.rep 1

abbrev pub total_length : Ipv4Header → ℕ
total_length h = decode h 2 3

abbrev pub identification : Ipv4Header → ℕ
identification h = decode h 4 5

-- (rep_[6] & 0x40) != 0 and (rep_[6] & 0x20) != 0
abbrev pub dont_fragment : Ipv4Header → Bool
dont_fragment h = not (h.rep 6 / 64 % 2 == 0)

abbrev pub more_fragments : Ipv4Header → Bool
more_fragments h = not (h.rep 6 / 32 % 2 == 0)

abbrev pub fragment_offset : Ipv4Header → ℕ
fragment_offset h = decode h 6 7 % 8192

abbrev pub protocol : Ipv4Header → ℕ
protocol h = h.rep 9

abbrev pub header_checksum : Ipv4Header → ℕ
header_checksum h = decode h 10 11

abbrev pub destination_address : Ipv4Header → List ℕ
destination_address h = h.rep 16 ∷ h.rep 17 ∷ h.rep 18 ∷ h.rep 19 ∷ []

-- What the program prints of a reply.
abbrev pub time_to_live : Ipv4Header → ℕ
time_to_live h = h.rep 8

abbrev pub source_address : Ipv4Header → List ℕ
source_address h = h.rep 12 ∷ h.rep 13 ∷ h.rep 14 ∷ h.rep 15 ∷ []

abbrev pub fail : Stream → Stream
fail is = record is { good = false }

-- After the first 20 bytes and the test of the version.
unfoldable pub fixed_part : Stream → Ipv4Header → Ipv4Header
fixed_part is h = record { rep = stored is 0 20 (h.rep) }

unfoldable pub check_version : Stream → Ipv4Header → Stream
check_version is h = if version h == 4 then is else fail is

-- The options, if their length is between 0 and 40.
unfoldable pub options_part : Stream → Ipv4Header → Ipv4Header × Stream
options_part is h =
    if ltb (header_length h) 20 || ltb 40 (header_length h - 20) then (h, fail is) else (
      record { rep = stored is 20 (header_length h - 20) (h.rep) },
      read (header_length h - 20) is,
    )

-- is >> header
unfoldable pub extract : Stream → Ipv4Header → Ipv4Header × Stream
unfolding fixed_part check_version options_part
extract is h = options_part (check_version (read 20 is) (fixed_part is h)) (fixed_part is h)
