-- ===== src/Example/Wire.antt =====
-- Echoes of the server on the wire: a client that reads one, and a session that cannot write its own.
use asio_tcp.Base.{false, true, count, ◌<◌, ℕ, ◌≡◌, refl, List, [], ◌∷◌, ◌++◌, arith}
use asio_tcp.Message.{body}
use asio_tcp.Client.{Conn, rounds}
use asio_tcp.Client.Round.{Package, stream, facing}
use asio_tcp.Client.Rounds.{Succeeds}
use asio_tcp.System.Fifo.Echo.{sent_by}
use asio_tcp.System.Fifo.Wire.{contents}
use asio_tcp.System.Fifo.Frames.{bytes_by}
use asio_tcp.System.Fifo.Relayed.{IsPart, Reach-framed, Reach-relayed}
use asio_tcp.Example.Ring.{list_buffer}
use asio_tcp.Example.Client.{four_places, no_failure}
use asio_tcp.World.{World, write_header}
use asio_tcp.System.Fifo.Texts.{texts}
use asio_tcp.System.Fifo.Drain.{Reach-drains}
use asio_tcp.System.{handle, header_sent, header_arrived}
use asio_tcp.System.Run.{Reach, here, next}
use asio_tcp.System.Fifo.Stuck.{Reach-stuck}
use asio_tcp.Example.Trace.{
  Run, Run-Sane, step, after, hdr, boots, listening, connected, announced, received, halfway,
  answered,
}

-- The header is out, and the body is being sent.
Reach-framed_example :
    (packages : List Package) × (part : List ℕ) × (bytes_by 0 halfway.reach
      ≡ stream packages ++ part)
    × (contents packages ≡ sent_by 0 halfway.reach)
    × IsPart 0 halfway.last part
Reach-framed_example = Reach-framed 18 4 hdr (omega arith) boots halfway.reach 0

-- The bytes of the whole echo.
echo_on_wire : bytes_by 0 answered.reach ≡ 3 ∷ 7 ∷ 0 ∷ 1 ∷ 10 ∷ 20 ∷ 30 ∷ []
unfolding answered halfway received announced connected listening body
echo_on_wire = refl

abbrev conn : Conn
conn = record {
  incoming = [];
  sent = 9 ∷ [];
  writes = 2;
  header = hdr;
  header_rcv = [];
  buf = [];
  pack_cnt = 0;
}

Reach-relayed_example :
    Succeeds no_failure
      (λ k. refl)
      (λ c.
        (c.sent ++ c.incoming ≡ 9 ∷ bytes_by 0 answered.reach)
        × (c.pack_cnt ≡ 1)
        × IsPart 0 answered.last c.incoming)
      (rounds no_failure 0 (facing (bytes_by 0 answered.reach) conn))
unfolding answered halfway received announced connected listening body
Reach-relayed_example =
    Reach-relayed 18 4 hdr (omega arith) boots answered.reach 0 no_failure (λ k. refl) 0 conn refl

-- The header of the echo could not be written; then a second message is announced.
unfoldable broken : Run
unfolding step received
broken = record {
  last = after (handle (header_sent 0 true) received.last) received.last;
  reach = next (header_sent 0 true) received.reach (1, [], refl, omega arith) refl;
}

unfoldable reading_on : World
unfolding step broken
reading_on = after (handle (header_arrived 0 false hdr) broken.last) broken.last

goes_on : Reach broken.last reading_on
unfolding step reading_on
goes_on = next (header_arrived 0 false hdr) here ([], refl, omega arith) refl

Reach-stuck_example :
    ((reading_on.session 0).socket.writes ≡ [])
    × ((more : List ℕ) × ((reading_on.session 0).msg_queue ≡ 1 ∷ more))
    × ((q : ℕ) → 0 < count q (1 ∷ []) → reading_on.heap.cell q ≡ broken.last.heap.cell q)
unfolding broken
Reach-stuck_example = Reach-stuck 0 (Run-Sane broken) (omega arith) refl 1 [] refl goes_on

-- The echo that was queued is sent.
Reach-drains_example :
    (w : World) × (r : Reach received.last w) × ((w.session 0).msg_queue ≡ [])
    × ((w.session 0).socket.writes ≡ [])
    × (sent_by 0 r ≡ texts received.last (received.last.session 0).msg_queue)
unfolding received
Reach-drains_example = Reach-drains 0 (Run-Sane received) (write_header 1) [] (omega arith) refl
