-- ===== src/Example/Trace.antt =====
-- One client connects, sends a message of three bytes, and has it echoed.
use asio_tcp.Base.{true, ◌≡◌, refl, false, Option, none, some, [], ◌∷◌, arith, inr}
use asio_tcp.Message.{Hdr, set_body, body_length, copy_in, uninitialised, construct, body}
use asio_tcp.World.{World, read_header, write_header}
use asio_tcp.Memory.{new_msg, deref, delete, assign}
use asio_tcp.Manager.{
  can_join, join, leave, buffer_empty, buffer_full, take_front, put_back, allocate_locked,
  allocate_msg_buffer, dellocate_locked, dellocate_msg_buffer, set_insert, set_erase,
}
use asio_tcp.Session.{
  new_session, do_read, do_write, enqueue, write, process_msg_business, fill, process_msg,
  handler_read_header, handler_read_body, handler_write_header, dequeue, handler_write_body, start,
}
use asio_tcp.Server.{
  new_server, start_accept, next_client_id, admit, handler_accept, start_server, serve, can_stop,
}
use asio_tcp.System.{
  Event, header_arrived, body_arrived, header_sent, body_sent, accepted, started, handle, Sane,
}
use asio_tcp.System.Run.{Reach, here, next, Reach-Sane, new_server-Sane}
use asio_tcp.Example.Ring.{list_buffer, nothing_within}

abbrev pub hdr : Hdr
hdr = record { len = 3; type = 7; subtype = 0; pack_num = 1 }

-- The world after a computation that returns.
abbrev pub value : Option World → World → World
value none w = w
value (some w) v = w

abbrev pub after : Option ((Unit {0}) × World) → World → World
after none w = w
after (some (_, w)) v = w

-- All that the events below run.
unfoldable pub step : Event → World → Option ((Unit {0}) × World)
unfolding handle set_body body_length copy_in construct uninitialised body new_msg deref delete
    assign can_join join leave buffer_empty buffer_full take_front put_back allocate_locked
    allocate_msg_buffer dellocate_locked dellocate_msg_buffer set_insert set_erase new_session
    do_read do_write enqueue write process_msg_business fill process_msg handler_read_header
    handler_read_body handler_write_header dequeue handler_write_body start new_server start_accept
    next_client_id admit handler_accept serve start_server can_stop
step e w = handle e w

-- A server for 18 clients and with 4 threads, as `main` makes it.
abbrev pub booted : World
booted = record {
  heap = record { cell = λ _. none; next = 1 };
  mgr = record {
    connection_list = [];
    max_conn = 18;
    conn_msg_buffer = record { limit = 50; items = []; within = nothing_within 50 };
  };
  session = λ _. new_session hdr;
  created = 0;
  server = record {
    listening = false;
    accepting = [];
    ios_stopped = false;
    io_threads = [];
    curr_client_id = 1;
    io_thread_num = 4;
  };
}

pub boots : new_server 18 4 hdr ≡ some booted
unfolding step
boots = refl

-- The states that follow, and that they are reached.
pub record Run : Type 0 where
  pub last : World
  pub reach : Reach booted last

unfoldable pub listening : Run
unfolding step
listening = record {
  last = after (handle (started true hdr) booted) booted;
  reach = next (started true hdr) here (refl, refl) refl;
}

unfoldable pub connected : Run
unfolding step listening
connected = record {
  last = after (handle (accepted 0 false true hdr) listening.last) booted;
  reach = next (accepted 0 false true hdr) listening.reach ([], refl, refl) refl;
}

unfoldable pub announced : Run
unfolding step connected
announced = record {
  last = after (handle (header_arrived 0 false hdr) connected.last) booted;
  reach = next (header_arrived 0 false hdr) connected.reach ([], refl, omega arith) refl;
}

unfoldable pub received : Run
unfolding step announced
received = record {
  last = after (handle (body_arrived 0 false (10 ∷ 20 ∷ 30 ∷ [])) announced.last) booted;
  reach =
      next (body_arrived 0 false (10 ∷ 20 ∷ 30 ∷ [])) announced.reach
        (3, [], refl, omega arith, inr refl) refl;
}

-- The echo is in the queue, and its header is being sent.
echo_queued :
    ((received.last.session 0).msg_queue ≡ 1 ∷ [])
    × ((received.last.session 0).socket.writes ≡ write_header 1 ∷ [])
    × ((received.last.session 0).socket.reads ≡ read_header ∷ [])
unfolding received
echo_queued = (refl, refl, refl)

unfoldable pub halfway : Run
unfolding step received
halfway = record {
  last = after (handle (header_sent 0 false) received.last) booted;
  reach = next (header_sent 0 false) received.reach (1, [], refl, omega arith) refl;
}

unfoldable pub answered : Run
unfolding step halfway
answered = record {
  last = after (handle (body_sent 0 false) halfway.last) booted;
  reach = next (body_sent 0 false) halfway.reach (1, [], refl, omega arith) refl;
}

-- The buffer is in the pool, and nothing is left to send.
echo_done :
    ((answered.last.session 0).msg_queue ≡ [])
    × ((answered.last.session 0).socket.writes ≡ [])
    × (answered.last.mgr.conn_msg_buffer.items ≡ 1 ∷ [])
unfolding answered
echo_done = (refl, refl, refl)

pub Run-Sane : (r : Run) → Sane r.last
Run-Sane r = Reach-Sane (rw boots at (new_server-Sane 18 4 hdr (omega arith))) r.reach
