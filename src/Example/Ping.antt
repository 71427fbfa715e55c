-- ===== src/Example/Ping.antt =====
-- A pinger of process 7 in its first seconds, and the headers of packets.
use asio_tcp.Base.{◌%◌, ◌/◌, ◌*◌, ◌≤◌, ◌≡◌, ◌↔◌, refl, true, false, [], ◌∷◌, ◌++◌, arith}
use asio_tcp.Ping.Icmp.{
  new_icmp_header, set_type, set_code, set_checksum, set_identifier, set_sequence_number, get_type,
  get_code, get_checksum, get_identifier, get_sequence_number, bytes_of, compute_checksum,
}
use asio_tcp.Ping.Icmp.Fields.{fields_lem}
use asio_tcp.Ping.Icmp.Checksum.{sum_words, compute_checksum-sum_words}
use asio_tcp.Ping.Ipv4.{new_ipv4_header, extract}
use asio_tcp.Ping.Ipv4.Extract.{extract_iff}
use asio_tcp.Ping.Ipv4.Fields.{Fields, packet, Shows, extract-Shows}
use asio_tcp.Ping.Pinger.{
  new_pinger, handle_timeout, start_send, start_receive, Reach, begin, more, timeout, send,
}
use asio_tcp.Ping.Pinger.Life.{Sound, Reach-Sound}

-- No reply comes, and the next request is sent.
second_request :
    Reach 7 (
      start_send 7
        (record (handle_timeout 7 (record (new_pinger 7) { waits = [] })) { waits = [] }))
unfolding new_pinger start_send handle_timeout start_receive
second_request = more (more begin (timeout [] refl)) (send [] refl)

Reach-Sound_example :
    Sound 7 (
      start_send 7
        (record (handle_timeout 7 (record (new_pinger 7) { waits = [] })) { waits = [] }))
Reach-Sound_example = Reach-Sound 7 second_request

compute_checksum-sum_words_example :
    sum_words
        (bytes_of (compute_checksum new_icmp_header (72 ∷ 105 ∷ 33 ∷ [])) ++ 72 ∷ 105 ∷ 33 ∷ [])
      % 65535
    ≡ 0
unfolding new_icmp_header
compute_checksum-sum_words_example =
    compute_checksum-sum_words new_icmp_header (72 ∷ 105 ∷ 33 ∷ []) (λ k. omega arith)
      (omega arith, (omega arith, (omega arith, tt))) (omega arith)

fields_lem_example :
    let filled =
      set_sequence_number 70000
        (set_identifier 7 (set_checksum 513 (set_code 0 (set_type 8 new_icmp_header)))) in
    (get_type filled ≡ 8)
    × (get_code filled ≡ 0)
    × (get_checksum filled ≡ 513)
    × (get_identifier filled ≡ 7)
    × (get_sequence_number filled ≡ 4464)
fields_lem_example = fields_lem new_icmp_header 8 0 513 7 70000

-- Version 4 and a length of 20, but only three bytes.
extract_iff_example :
    let after = (extract (record { bytes = 69 ∷ 0 ∷ 0 ∷ []; good = true }) new_ipv4_header).1 in
    ((after.good ≡ true) ↔ ((69 / 16 % 16 ≡ 4) × (20 ≤ 69 % 16 * 4) × (69 % 16 * 4 ≤ 3)))
    × ((after.good ≡ true) → after.bytes ≡ [])
extract_iff_example = extract_iff 69 (0 ∷ 0 ∷ []) new_ipv4_header

abbrev echo_packet : Fields
echo_packet = record {
  service = 0;
  total = 60;
  ident = 4660;
  df = true;
  mf = false;
  offset = 300;
  ttl = 128;
  proto = 1;
  checksum = 258;
  source = (10, 0, 0, 1);
  destination = (10, 0, 0, 2);
}

extract-Shows_example :
    Shows echo_packet
      (extract (record { bytes = packet echo_packet ++ 8 ∷ []; good = true }) new_ipv4_header).0
    × ((extract (record { bytes = packet echo_packet ++ 8 ∷ []; good = true }) new_ipv4_header).1
        ≡ record { bytes = 8 ∷ []; good = true })
extract-Shows_example = extract-Shows echo_packet (8 ∷ []) new_ipv4_header (record {
  total = omega arith;
  ident = omega arith;
  offset = omega arith;
  checksum = omega arith;
})
