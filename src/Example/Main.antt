-- ===== src/Example/Main.antt =====
-- _tmain (asio_test/asio_test.cpp) while its first client is connected, and the queue of the client's
-- session when the header of the echo is out.
use asio_tcp.Base.{
  true, ◌<◌, Ensures, arith, ℕ, suc, ◌≤◌, ◌≡◌, refl, Bool, false, some, [], ◌∷◌, ◌++◌, length,
}
use asio_tcp.Message.{Hdr}
use asio_tcp.World.{World}
use asio_tcp.System.{Event, accepted, header_sent, handle, Enabled}
use asio_tcp.System.Fifo.{FifoStep, fifo, label, header_out}
use asio_tcp.System.Fifo.Run.{handle-FifoStep}
use asio_tcp.Message.{body}
use asio_tcp.System.Fifo.Texts.{texts}
use asio_tcp.System.Fifo.Echo.{read_by, sent_by, Reach-echoed}
use asio_tcp.Example.Trace as Trace
use asio_tcp.System.Restart.{restart}
use asio_tcp.System.Main.{boot, Main, booted, slept, first_start, Main-safe}
use asio_tcp.Example.Ring.{list_buffer}
use asio_tcp.Example.Trace.{
  hdr, step, listening, connected, received, announced, halfway, answered, Run-Sane,
}

pub boots : boot true hdr ≡ some listening.last
unfolding boot step listening
boots = refl

unfoldable pub one_client : Main first_start connected.last
unfolding boot step listening connected
one_client = slept (accepted 0 false true hdr) (booted hdr boots) tt ([], refl, refl) refl

Main-safe_example :
    ((e : Event)
      → Enabled e connected.last
      → (w : World) × (handle e connected.last ≡ some (tt, w)))
    × ((refuses : ℕ → Bool) (again : Hdr)
        → ((j : ℕ) → refuses j ≡ false)
        → (w : World) × (restart refuses true again connected.last ≡ some (tt, w)))
    × (length connected.last.mgr.connection_list ≤ suc connected.last.mgr.max_conn)
Main-safe_example = Main-safe one_client

handle-FifoStep_example :
    Ensures
      (λ r.
        (i : ℕ)
        → i < received.last.created
        → FifoStep
            (label (header_sent 0 false) i)
            (fifo (received.last.session i))
            (fifo (r.1.session i)))
      (handle (header_sent 0 false) received.last)
unfolding received
handle-FifoStep_example =
    handle-FifoStep (header_sent 0 false) received.last (Run-Sane received)
      (1, [], refl, omega arith)

header_is_out : label (header_sent 0 false) 0 ≡ header_out
unfolding label
header_is_out = refl

-- The body that was read was sent back.
Reach-echoed_example :
    read_by 0 answered.reach
    ≡ sent_by 0 answered.reach ++ texts answered.last (answered.last.session 0).msg_queue
Reach-echoed_example = Reach-echoed 18 4 hdr (omega arith) Trace.boots answered.reach 0

-- What the bodies are there.
echo_bytes :
    (read_by 0 answered.reach ≡ some (10 ∷ 20 ∷ 30 ∷ []) ∷ [])
    × (sent_by 0 answered.reach ≡ some (10 ∷ 20 ∷ 30 ∷ []) ∷ [])
unfolding answered halfway received announced connected listening body
echo_bytes = (refl, refl)
