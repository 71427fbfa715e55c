-- ===== src/Example/Witness.antt =====
-- The theorems at concrete states of the server.
use asio_tcp.Base.{
  true, count, ◌<◌, ℕ, ◌≤◌, ◌≡◌, ◌≢◌, ◌↔◌, refl, false, none, some, List, [], ◌∷◌, ◌++◌, arith,
  length, replicate, update, Ensures,
}
use asio_tcp.Message.{ConnMsg, fixed, set_body, construct}
use asio_tcp.Message.Body.{IsValid, Stored, construct-IsValid, set_body-Stored}
use asio_tcp.World.{World, write_header, write_body, set_session}
use asio_tcp.Manager.{allocate_msg_buffer}
use asio_tcp.Server.{handler_accept}
use asio_tcp.Server.Race.{overtaken_accept, overtaken_accept-none_iff}
use asio_tcp.Ownership.Broadcast.Every.{Broadcast, write_to_all-Broadcast}
use asio_tcp.Session.{write_to_all, process_msg}
use asio_tcp.Session.Echo.{Echoed, process_msg-Echoed}
use asio_tcp.Session.Race.{overtaken, Writing}
use asio_tcp.System.Doubled.{doubled, doubled-Writing}
use asio_tcp.Format.{format, format_iff}
use asio_tcp.Ownership.{Inv}
use asio_tcp.Ownership.Memory.{new_msg-Inv, assign-Inv}
use asio_tcp.Ownership.Pool.{Allocated, allocate-Allocated}
use asio_tcp.Ownership.Queue.{change-Inv}
use asio_tcp.System.{header_sent, handle, body_in, write_done}
use asio_tcp.System.Safety.{SaneAfter}
use asio_tcp.System.Run.{handle-Sane, Reach-safe}
use asio_tcp.System.Stop.{Halted, stop_server-Closed}
use asio_tcp.Server.{stop_server, can_stop}
use asio_tcp.Example.Ring.{list_buffer}
use asio_tcp.Example.Trace.{
  listening, hdr, boots, step, connected, announced, received, halfway, answered, Run-Sane,
}

abbrev bytes : List ℕ
bytes = 10 ∷ 20 ∷ 30 ∷ []

-- One session is connected, and not more than one beyond the limit of 18.
Reach-safe_example : length answered.last.mgr.connection_list ≤ 19
unfolding answered
Reach-safe_example = (Reach-safe 18 4 hdr (omega arith) boots answered.reach).2

handle-Sane_example : Ensures SaneAfter (handle (header_sent 0 false) received.last)
unfolding received
handle-Sane_example =
    handle-Sane (header_sent 0 false) received.last (Run-Sane received) (1, [], refl, omega arith)

-- The body of the announced message is in the stream buffer.
abbrev arrived : World
arrived = set_session 0 (body_in bytes (announced.last.session 0)) announced.last

arrived-Inv : Inv [] arrived
unfolding announced
arrived-Inv = (change-Inv 0 (Run-Sane announced).inv (omega arith) (body_in bytes) refl).0

process_msg-Echoed_example : Ensures (λ r. Echoed 0 arrived r.1) (process_msg 0 arrived)
unfolding announced
process_msg-Echoed_example = process_msg-Echoed 0 arrived arrived-Inv (omega arith)

set_body-Stored_example : Ensures (Stored bytes (construct hdr)) (set_body bytes (construct hdr))
set_body-Stored_example = set_body-Stored bytes (construct hdr) (construct-IsValid hdr)

-- The pool has the buffer of the first echo.
allocate-Allocated_example :
    Ensures (Allocated [] hdr answered.last) (allocate_msg_buffer hdr answered.last)
allocate-Allocated_example = allocate-Allocated (Run-Sane answered).inv hdr

abbrev full_msg : ConnMsg
full_msg = record {
  buff_fix = bytes ++ replicate 253 0;
  buff = fixed;
  size_allocated = 0;
  header = hdr;
}

full_msg-IsValid : IsValid full_msg
full_msg-IsValid = record { fix_size = refl; holds = (refl, omega arith) }

-- The write of the echoed body is done, its handler has yet to run, and another thread has a message.
abbrev sent : World
sent = set_session 0 (write_done (halfway.last.session 0)) halfway.last

abbrev given : World
given = record sent {
  heap = record { cell = update sent.heap.cell 2 (some (construct hdr)); next = 3 };
}

abbrev loaded : World
loaded = record sent { heap = record { cell = update given.heap.cell 2 (some full_msg); next = 3 } }

sent-Inv : Inv [] sent
unfolding halfway
sent-Inv = (change-Inv 0 (Run-Sane halfway).inv (omega arith) write_done refl).0

given-Inv : Inv (2 ∷ []) given
unfolding halfway step
given-Inv = (new_msg-Inv sent-Inv hdr).0

loaded-Inv : Inv (2 ∷ []) loaded
unfolding halfway step
loaded-Inv = (assign-Inv 2 given-Inv full_msg full_msg-IsValid).0

write_to_all-Broadcast_example :
    Ensures (λ r. Broadcast 2 [] hdr bytes (0 ∷ []) loaded r.1) (write_to_all 2 loaded)
unfolding halfway step
write_to_all-Broadcast_example =
    write_to_all-Broadcast 2 full_msg bytes loaded refl loaded-Inv refl (omega arith, tt)
      (λ i pos. ground arith)

doubled-Writing_example :
    Ensures
      (λ r. Writing 0 (2 ∷ []) (write_header 2 ∷ write_header 2 ∷ []) r.1)
      (overtaken 0 2 loaded)
    × Ensures (λ r. Writing 0 [] (write_body 2 ∷ []) r.1) (doubled 0 2 loaded)
unfolding halfway
doubled-Writing_example =
    doubled-Writing 0 2 1 loaded full_msg loaded-Inv (omega arith) refl refl refl refl

stop_server-Closed_example :
    Ensures
      (λ r.
        Halted received.last r.1
        × ((i : ℕ)
            → 0 < count i received.last.mgr.connection_list
            → (r.1.session i).socket.is_open ≡ false))
      (stop_server (λ i. false) received.last)
unfolding received announced connected listening can_stop
stop_server-Closed_example =
    stop_server-Closed (λ i. false) received.last (Run-Sane received) refl (λ j. refl)

-- One client is connected, and one is allowed.
abbrev at_limit : World
at_limit = record connected.last { mgr = record (connected.last.mgr) { max_conn = 1 } }

overtaken_accept-none_iff_example :
    Ensures (λ r. length r.1.mgr.connection_list ≡ 2) (handler_accept 2 false true hdr at_limit)
    × ((overtaken_accept 1 2 hdr at_limit ≡ none) ↔ (◌≡◌ {A = ℕ} 1 1))
unfolding connected
overtaken_accept-none_iff_example = overtaken_accept-none_iff 1 2 hdr at_limit refl

-- A text of 15 characters and a string with room for 15, as in the library of Visual C++.
abbrev text : List ℕ
text = replicate 15 b'x'

format_iff_example : (format 15 (λ n. n) text ≡ some text) ↔ (length text ≢ 15)
format_iff_example = format_iff 15 (λ n. n) (λ n. omega arith) text
