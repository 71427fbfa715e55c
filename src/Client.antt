-- ===== src/Client.antt =====
-- asio_client/asio_client.cpp: a thread of the client sends one request and then sends back each of
-- the 101 packages that it reads. `header_rcv` is kept as the memory of the struct, whose layout is
-- the compiler's. The reads and the writes of asio block. A read goes on once all its bytes have come;
-- if they never come it throws when the server closes the connection, and else it waits for ever:
-- `thrown` is that the thread gets no further, for either reason. `sends k` tells the k-th write to
-- throw after some bytes. Console output, the clock and the sleep are left out.
pub mod Relay
pub mod Round
pub mod Rounds
pub mod Threads
use asio_tcp.Base.{
  ℕ, zero, suc, ◌-◌, ◌≡◌, Bool, true, false, Option, none, some, List, [], ◌++◌, length, take, drop,
  replicate, leb, ◌==◌, if◌then◌else◌,
}
use asio_tcp.Message.{Hdr}

-- The memory of a HDR.
pub record Layout : Type 0 where
  pub header_size : ℕ
  pub to_bytes : Hdr → List ℕ
  pub of_bytes : List ℕ → Hdr
  pub length-to_bytes : (h : Hdr) → length (to_bytes h) ≡ header_size
  pub of_bytes-to_bytes : (h : Hdr) → of_bytes (to_bytes h) ≡ h

-- The variables of RunConnection; `incoming` is all that the server still sends, `sent` what
-- was written to the socket in `writes` calls.
pub record Conn : Type 0 where
  pub incoming : List ℕ
  pub sent : List ℕ
  pub writes : ℕ
  pub header : Hdr
  pub header_rcv : List ℕ
  pub buf : List ℕ
  pub pack_cnt : ℕ

-- How a step ends: regularly, with an exception, or with a failed assertion.
pub data Outcome : Type 0 where
  ok : Conn → Outcome
  thrown : Conn → Outcome
  aborted : Outcome

infixl 5 ◌>>◌
abbrev pub ◌>>◌ : (Conn → Outcome) → (Conn → Outcome) → Conn → Outcome
◌>>◌ f g c = elim (f c) [ ok c' ↦ g c' | thrown c' ↦ thrown c' | aborted ↦ aborted ]

abbrev pub max_length : ℕ
max_length = 1048576

abbrev pub total_cnt : ℕ
total_cnt = 100

module _ ⦃layout : Layout⦄ (sends : ℕ → Option ℕ) where
  -- boost::asio::write of all of `bytes`.
  unfoldable pub write_all : List ℕ → Conn → Outcome
  write_all bytes c = elim (sends c.writes) [
    | none ↦ ok (record c { sent = c.sent ++ bytes; writes = suc c.writes })
    | some n ↦ thrown (record c { sent = c.sent ++ take n bytes; writes = suc c.writes })
  ]

  unfoldable pub count_up : Conn → Outcome
  count_up c = ok (record c { header = record (c.header) { pack_num = suc c.header.pack_num } })

  unfoldable pub receive_header : Conn → Outcome
  receive_header c =
      if leb layout.header_size (length c.incoming)
      then ok (record c {
        header_rcv = take layout.header_size c.incoming;
        incoming = drop layout.header_size c.incoming;
      })
      else thrown (record c {
        header_rcv = c.incoming ++ drop (length c.incoming) c.header_rcv;
        incoming = [];
      })

  abbrev pub announced_len : Conn → ℕ
  announced_len c = (layout.of_bytes c.header_rcv).len

  unfoldable pub receive_body : Conn → Outcome
  receive_body c =
      if leb (announced_len c) (length c.incoming)
      then ok (record c {
        buf = c.buf ++ take (announced_len c) c.incoming;
        incoming = drop (announced_len c) c.incoming;
        pack_cnt = suc c.pack_cnt;
      })
      else thrown (record c { buf = c.buf ++ c.incoming; incoming = [] })

  unfoldable pub send_header : Conn → Outcome
  unfolding write_all
  send_header c = write_all c.header_rcv c

  -- What is written leaves the stream buffer; `nSize == header_rcv.len` is asserted.
  unfoldable pub send_front : Conn → Outcome
  send_front c = write_all (take (announced_len c) c.buf) c

  unfoldable pub check_size : Conn → Outcome
  check_size c =
      if length (take (announced_len c) c.buf) == announced_len c
      then ok (record c { buf = drop (announced_len c) c.buf })
      else aborted

  abbrev pub send_body : Conn → Outcome
  send_body = send_front >> check_size

  unfoldable pub consume : Conn → Outcome
  consume c = ok (record c { buf = [] })

  -- The body of the loop.
  unfoldable pub round : Conn → Outcome
  round = count_up >> receive_header >> receive_body >> send_header >> send_body >> consume

  -- do … while (nCount++ < nTotalCnt), by what `nCount` is short of `nTotalCnt`.
  unfoldable pub rounds : ℕ → Conn → Outcome
  rounds zero = round
  rounds (suc n) = round >> rounds n

  unfoldable pub request_header : Hdr
  request_header = record {
    len = max_length - layout.header_size;
    type = 0;
    subtype = 0;
    pack_num = 0;
  }

  unfoldable pub at_connect : List ℕ → Conn
  at_connect incoming = record {
    incoming = incoming;
    sent = [];
    writes = 0;
    header = request_header;
    header_rcv = replicate layout.header_size 0;
    buf = [];
    pack_cnt = 0;
  }

  -- The first message: a header and the start of the array `request`.
  unfoldable pub frame : List ℕ → List ℕ
  frame request = layout.to_bytes request_header ++ take (max_length - layout.header_size) request

  unfoldable pub send_request : List ℕ → Conn → Outcome
  send_request request =
      write_all (layout.to_bytes request_header)
      >> write_all (take (max_length - layout.header_size) request)

  -- RunConnection after the connection is made, which fails if `refused`.
  unfoldable pub run_connection : Bool → List ℕ → List ℕ → Option Outcome
  run_connection refused request incoming =
      if refused
      then none
      else some ((send_request request >> rounds total_cnt) (at_connect incoming))
