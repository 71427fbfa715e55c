-- ===== src/Session.antt =====
-- class session_tcp (asio_test/connection.h and connection.cpp): one connection, which reads a header
-- and a body in turn, echoes each message, and sends the messages of a queue one after another. Its
-- methods are split where the mutex of the session is released. The error code of a handler is
-- `true` for an error. Console output is left out, and what it reads of a message is kept.
pub mod Echo
pub mod Race
use asio_tcp.Base.{ℕ, Bool, true, false, Option, none, some, List, [], ◌∷◌, ◌++◌, if◌then◌else◌}
use asio_tcp.Ring.{CircularBuffer, is_empty}
use asio_tcp.Message.{Hdr, ConnMsg, body, set_body, set_body_from}
use asio_tcp.World.{
  Manager, Session, Socket, ReadOp, read_header, read_body, WriteOp, write_header, write_body,
  World, M, ◌>>=◌, ◌>>◌, pure, get, modify, of_option, fault, set_session,
}
use asio_tcp.Memory.{deref, assign}
use asio_tcp.Manager.{join, leave, allocate_msg_buffer, dellocate_msg_buffer}

-- session_tcp::session_tcp; the header is read before it is used.
unfoldable pub new_session : Hdr → Session
new_session header = record {
  socket = record { is_open = true; reads = []; writes = [] };
  buf = [];
  header = header;
  curr_pack_num = 0;
  client_id = 0;
  msg_queue = [];
}

abbrev pub start_read : ReadOp → Session → Session
start_read op s = record s { socket = record (s.socket) { reads = s.socket.reads ++ op ∷ [] } }

abbrev pub start_write : WriteOp → Session → Session
start_write op s = record s { socket = record (s.socket) { writes = s.socket.writes ++ op ∷ [] } }

module _ ⦃cb : CircularBuffer⦄ where
  abbrev pub change : ℕ → (Session → Session) → M (Unit {0})
  change i f = modify (λ w. set_session i (f (w.session i)) w)

  unfoldable pub do_read : ℕ → M (Unit {0})
  do_read i = change i (start_read read_header)

  -- The front of the queue goes out, its header first.
  unfoldable pub do_write : ℕ → M (Unit {0})
  do_write i = do
    queue ← get (λ w. (w.session i).msg_queue)
    elim queue [ [] ↦ pure tt | p ∷ rest ↦ deref p >> change i (start_write (write_header p)) ]

  -- `write` under its lock: the message is queued; the result says that nothing was in process.
  unfoldable pub enqueue : ℕ → ℕ → M Bool
  enqueue i msg = do
    queue ← get (λ w. (w.session i).msg_queue)
    change i (λ s. record s { msg_queue = queue ++ msg ∷ [] })
    pure (is_empty queue)

  -- The length of the message is read for the console after the lock is released.
  unfoldable pub write : ℕ → ℕ → M (Unit {0})
  write i msg = do idle ← enqueue i msg; deref msg; if idle then do_write i else pure tt

  unfoldable pub process_msg_business : ℕ → ℕ → M ℕ
  process_msg_business i msg = do write i msg; pure 0

  -- msg->set_body(…)
  unfoldable pub fill : ℕ → (ConnMsg → Option ConnMsg) → M (Unit {0})
  fill msg method = do m ← deref msg; m' ← of_option (method m); assign msg m'

  -- The body that was read goes into a message buffer, and the stream buffer is emptied.
  unfoldable pub process_msg : ℕ → M ℕ
  process_msg i = do
    s ← get (λ w. w.session i)
    msg ← allocate_msg_buffer s.header
    fill msg (set_body s.buf)
    change i (λ s'. record s' { buf = [] })
    process_msg_business i msg

  unfoldable pub handler_read_header : ℕ → Bool → M (Unit {0})
  handler_read_header i error =
      if error then leave i else change i (λ s. start_read (read_body s.header.len) s)

  unfoldable pub handler_read_body : ℕ → Bool → M (Unit {0})
  handler_read_body i error = if error then leave i else (process_msg i >> do_read i)

  unfoldable pub handler_write_header : ℕ → Bool → M (Unit {0})
  handler_write_header i error =
      if error
      then leave i
      else get (λ w. (w.session i).msg_queue) >>= λ queue. elim queue [
        | [] ↦ pure tt
        | p ∷ rest ↦ deref p >>= λ m. of_option (body m) >> change i (start_write (write_body p))
      ]

  -- handler_write_body under its lock: the front of the queue is given back.
  unfoldable pub dequeue : ℕ → M (Unit {0})
  dequeue i = do
    queue ← get (λ w. (w.session i).msg_queue)
    elim queue [
      | [] ↦ pure tt
      | p ∷ rest ↦
          deref p >> dellocate_msg_buffer p >> change i (λ s. record s { msg_queue = rest })
    ]

  unfoldable pub handler_write_body : ℕ → Bool → M (Unit {0})
  handler_write_body i error = if error then leave i else (dequeue i >> do_write i)

  -- `found` says that the socket has both of the addresses that are printed: asking for one that it has
  -- not throws, and nothing catches that. `assert(false)` if the connection is refused.
  unfoldable pub start : ℕ → ℕ → Bool → M (Unit {0})
  start i clientid found = do
    change i (λ s. record s { client_id = clientid })
    if found then (join i >>= λ joined. if joined then do_read i else fault) else fault

  -- connection_mgr::write_to_all: each session gets a copy in a message buffer of its own.
  unfoldable pub copy_one : ℕ → Hdr → ℕ → M (Unit {0})
  copy_one msg header i = do
    msg_new ← allocate_msg_buffer header
    m ← deref msg
    bytes ← of_option (body m)
    fill msg_new (set_body_from bytes m.header.len)
    write i msg_new

  unfoldable pub copy_to : ℕ → Hdr → List ℕ → M (Unit {0})
  unfolding copy_one
  copy_to msg header [] = pure tt
  copy_to msg header (i ∷ is) = copy_one msg header i >> copy_to msg header is

  unfoldable pub write_to_all : ℕ → M (Unit {0})
  unfolding copy_to
  write_to_all msg = do
    clients ← get (λ w. w.mgr.connection_list)
    m ← deref msg
    copy_to msg m.header clients
