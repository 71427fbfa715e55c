-- ===== src/Ping/Icmp/Fields.antt =====
-- The fields of an icmp_header (bind_function/icmp_header.hpp) in its eight bytes.
use asio_tcp.Base.{ℕ, ◌≡◌, refl, arith}
use asio_tcp.Ping.Icmp.{
  IcmpHeader, uint8, uint16, set_type, set_code, set_checksum, set_identifier, set_sequence_number,
  get_type, get_code, get_checksum, get_identifier, get_sequence_number,
}

-- Each field of a header that is filled in reads back as the number that was put there, cut to the
-- width of the field.
pub fields_lem :
    (h : IcmpHeader) (type code checksum identifier number : ℕ)
    → let filled =
        set_sequence_number number
          (set_identifier identifier (set_checksum checksum (set_code code (set_type type h)))) in
      (get_type filled ≡ uint8 type)
      × (get_code filled ≡ uint8 code)
      × (get_checksum filled ≡ uint16 checksum)
      × (get_identifier filled ≡ uint16 identifier)
      × (get_sequence_number filled ≡ uint16 number)
unfolding get_type get_code get_checksum get_identifier get_sequence_number set_type set_code
    set_checksum set_identifier set_sequence_number
fields_lem h type code checksum identifier number =
    (refl, refl, omega arith, omega arith, omega arith)
