-- ===== src/Ping/Pinger.antt =====
-- class pinger (bind_function/ping.cpp): it sends a request, waits for the time to be up, prints if no
-- reply came, waits for the rest of a second and sends the next, and receives in between. Expiry and
-- cancellation decide when a wait of the timer ends; its handler does not look at the error, so a wait
-- may end at any time. The identifier of the process and the bytes of a reply are given.
pub mod Life
use asio_tcp.Base.{
  ℕ, suc, ◌+◌, ◌≡◌, Bool, true, false, Option, none, some, List, [], ◌∷◌, ◌++◌, ◌==◌, ◌&&◌,
  if◌then◌else◌,
}
use asio_tcp.Ping.Stream.{Stream, store, stored, read}
use asio_tcp.Ping.Icmp.{
  IcmpHeader, new_icmp_header, uint16, echo_reply, echo_request, set_type, set_code, set_identifier,
  set_sequence_number, get_type, get_identifier, get_sequence_number, compute_checksum, bytes_of,
}
use asio_tcp.Ping.Ipv4.{Ipv4Header, new_ipv4_header, extract, time_to_live, source_address}

-- What a wait of `timer_` is bound to.
pub data Wait : Type 0 where
  for_timeout : Wait
  for_send : Wait

-- A line of the output, without the times.
pub data Line : Type 0 where
  timed_out : Line
  reply : (from : List ℕ) (number ttl : ℕ) → Line

pub record Pinger : Type 0 where
  pub sequence_number : ℕ
  pub num_replies : ℕ
  pub waits : List Wait
  pub receives : ℕ
  pub sent : List (List ℕ)
  pub output : List Line

-- "\"Hello!\" from Asio ping."
abbrev pub request_body : List ℕ
request_body =
    34 ∷ 72 ∷ 101 ∷ 108 ∷ 108 ∷ 111 ∷ 33 ∷ 34 ∷ 32 ∷ 102 ∷ 114 ∷ 111 ∷ 109 ∷ 32 ∷ 65 ∷ 115 ∷ 105
    ∷ 111 ∷ 32 ∷ 112 ∷ 105 ∷ 110 ∷ 103 ∷ 46 ∷ []

-- is >> header for an icmp_header.
unfoldable pub extract_icmp : Stream → IcmpHeader → IcmpHeader × Stream
extract_icmp is h = (record { rep = stored is 0 8 (h.rep) }, read 8 is)

module _ (process : ℕ) where
  abbrev pub identifier : ℕ
  identifier = uint16 process

  unfoldable pub request : ℕ → List ℕ
  request number =
      bytes_of (
        compute_checksum
          (set_sequence_number number
            (set_identifier identifier (set_code 0 (set_type echo_request new_icmp_header))))
          request_body)
      ++ request_body

  unfoldable pub start_send : Pinger → Pinger
  start_send p = record p {
    sequence_number = uint16 (p.sequence_number + 1);
    sent = p.sent ++ request (uint16 (p.sequence_number + 1)) ∷ [];
    num_replies = 0;
    waits = p.waits ++ for_timeout ∷ [];
  }

  unfoldable pub handle_timeout : Pinger → Pinger
  handle_timeout p = record p {
    output = if p.num_replies == 0 then p.output ++ timed_out ∷ [] else p.output;
    waits = p.waits ++ for_send ∷ [];
  }

  unfoldable pub start_receive : Pinger → Pinger
  start_receive p = record p { receives = suc p.receives }

  -- The test of a reply, and what is done with one that passes it.
  unfoldable pub is_reply : Bool → IcmpHeader → Pinger → Bool
  is_reply good icmp p =
      good
      && get_type icmp == echo_reply
      && get_identifier icmp == identifier
      && get_sequence_number icmp == p.sequence_number

  unfoldable pub take_reply : Ipv4Header → IcmpHeader → Pinger → Pinger
  take_reply ipv4 icmp p = record p {
    num_replies = suc p.num_replies;
    output =
        p.output ++ reply (source_address ipv4) (get_sequence_number icmp) (time_to_live ipv4) ∷ [];
  }

  unfoldable pub consider : Ipv4Header × Stream → Pinger → Pinger
  unfolding extract_icmp is_reply take_reply
  consider r p =
      let (icmp, is) = extract_icmp r.1 new_icmp_header in
      if is_reply is.good icmp p then take_reply r.0 icmp p else p

  unfoldable pub handle_receive : List ℕ → Pinger → Pinger
  unfolding extract consider start_receive
  handle_receive bytes p =
      start_receive (consider (extract (record { bytes = bytes; good = true }) new_ipv4_header) p)

  unfoldable pub new_pinger : Pinger
  unfolding start_send start_receive
  new_pinger = start_receive (
      start_send (record {
        sequence_number = 0;
        num_replies = 0;
        waits = [];
        receives = 0;
        sent = [];
        output = [];
      }))

  -- A wait of the timer ends, or a packet arrives.
  pub data Step : Pinger → Pinger → Type 0 where
    timeout :
        {p : Pinger} (ws : List Wait)
        → p.waits ≡ for_timeout ∷ ws
        → Step p (handle_timeout (record p { waits = ws }))
    send :
        {p : Pinger} (ws : List Wait)
        → p.waits ≡ for_send ∷ ws
        → Step p (start_send (record p { waits = ws }))
    receive :
        {p : Pinger} (n : ℕ) (bytes : List ℕ)
        → p.receives ≡ suc n
        → Step p (handle_receive bytes (record p { receives = n }))

  pub data Reach : Pinger → Type 0 where
    begin : Reach new_pinger
    more : {p q : Pinger} → Reach p → Step p q → Reach q
