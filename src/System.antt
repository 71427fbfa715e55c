-- ===== src/System.antt =====
-- The server at work: an event is the completion of an operation that the program started, or a call
-- of `start` or `stop`; its handler runs to the end before the next. What asio does is left open: which
-- operation completes next, with which data, and whether with an error.
pub mod Orderly
pub mod Safety
pub mod Writes
pub mod Accept
pub mod Stop
pub mod Run
pub mod Restart
pub mod Main
pub mod Lifetime
pub mod Numbers
pub mod Admit
pub mod Doubled
pub mod Fifo
use asio_tcp.Base.{
  ℕ, suc, ◌+◌, ◌≤◌, ◌<◌, ◌≡◌, ◌⊎◌, Bool, true, false, Option, none, some, List, [], ◌∷◌, ◌++◌,
  length, drop, count,
}
use asio_tcp.Ring.{CircularBuffer}
use asio_tcp.Message.{Hdr}
use asio_tcp.World.{
  Session, Socket, Server, ReadOp, read_header, read_body, WriteOp, write_header, write_body, World,
  M, ◌>>=◌, ◌>>◌, modify,
}
use asio_tcp.Session.{
  change, handler_read_header, handler_read_body, handler_write_header, handler_write_body,
}
use asio_tcp.Server.{
  set_server, handler_accept, start_server, can_stop, stop_server, serve, shut_down,
  start_server-serve, stop_server-shut_down,
}
use asio_tcp.Ownership.{Inv}

pub data Event : Type 0 where
  header_arrived : ℕ → Bool → Hdr → Event
  body_arrived : ℕ → Bool → List ℕ → Event
  header_sent : ℕ → Bool → Event
  body_sent : ℕ → Bool → Event
  accepted : ℕ → Bool → Bool → Hdr → Event
  started : Bool → Hdr → Event
  stopped : (ℕ → Bool) → Event

-- The operation in front is done; what was read is in the memory of the session.
abbrev pub read_done : Session → Session
read_done s = record s { socket = record (s.socket) { reads = drop 1 s.socket.reads } }

abbrev pub write_done : Session → Session
write_done s = record s { socket = record (s.socket) { writes = drop 1 s.socket.writes } }

abbrev pub header_in : Hdr → Session → Session
header_in h s = record (read_done s) { header = h }

abbrev pub body_in : List ℕ → Session → Session
body_in bytes s = record (read_done s) { buf = s.buf ++ bytes }

module _ ⦃cb : CircularBuffer⦄ where
  unfoldable pub handle : Event → M (Unit {0})
  handle (header_arrived i error h) = change i (header_in h) >> handler_read_header i error
  handle (body_arrived i error bytes) = change i (body_in bytes) >> handler_read_body i error
  handle (header_sent i error) = change i write_done >> handler_write_header i error
  handle (body_sent i error) = change i write_done >> handler_write_body i error
  handle (accepted i error found h) =
      modify (λ w. set_server (record (w.server) { accepting = drop 1 w.server.accepting }) w)
      >> handler_accept i error found h
  handle (started binds h) = start_server binds h
  handle (stopped refuses) = stop_server refuses

  -- An operation completes only if it was started; a read without an error has all its bytes. Where a
  -- call of asio throws (an accepted socket without its addresses, an acceptor that is open or closed when
  -- it should not be, or cannot listen) and where a socket refuses to be shut down, `handle` faults, and
  -- the program ends: these events are not enabled.
  abbrev pub Enabled : Event → World → Type 0
  Enabled (header_arrived i error h) w =
      (rest : List ReadOp) × ((w.session i).socket.reads ≡ read_header ∷ rest) × (i < w.created)
  Enabled (body_arrived i error bytes) w =
      (n : ℕ) × (rest : List ReadOp) × ((w.session i).socket.reads ≡ read_body n ∷ rest)
      × (i < w.created)
      × ((error ≡ true) ⊎ (length bytes ≡ n))
  Enabled (header_sent i error) w =
      (p : ℕ) × (rest : List WriteOp) × ((w.session i).socket.writes ≡ write_header p ∷ rest)
      × (i < w.created)
  Enabled (body_sent i error) w =
      (p : ℕ) × (rest : List WriteOp) × ((w.session i).socket.writes ≡ write_body p ∷ rest)
      × (i < w.created)
  Enabled (accepted i error found h) w =
      (rest : List ℕ) × (w.server.accepting ≡ i ∷ rest) × (found ≡ true)
  Enabled (started binds h) w = (w.server.listening ≡ false) × (binds ≡ true)
  Enabled (stopped refuses) w = (can_stop w ≡ true) × ((i : ℕ) → refuses i ≡ false)

  pub handle-started :
      (binds : Bool) (h : Hdr) (w : World)
      → Enabled (started binds h) w
      → handle (started binds h) w ≡ serve h w
  unfolding handle
  handle-started binds h w (deaf, bound) = start_server-serve h w bound deaf

  pub handle-stopped :
      (refuses : ℕ → Bool) (w : World)
      → Enabled (stopped refuses) w
      → handle (stopped refuses) w ≡ shut_down refuses w
  unfolding handle
  handle-stopped refuses w (able, _) = stop_server-shut_down refuses w able

-- One write at a time: none, or the header or the body of the front of the queue.
abbrev pub Chain : List ℕ → List WriteOp → Type 0
Chain [] ws = ws ≡ []
Chain (p ∷ ps) ws = (ws ≡ []) ⊎ (ws ≡ write_header p ∷ []) ⊎ (ws ≡ write_body p ∷ [])

-- One read at a time: none, or a header, or the body that the last header announced.
abbrev pub Reading : Session → Type 0
Reading s =
    (s.socket.reads ≡ [])
    ⊎ ((s.socket.reads ≡ read_header ∷ []) × (s.buf ≡ []))
    ⊎ ((s.socket.reads ≡ read_body s.header.len ∷ []) × (s.buf ≡ []))

pub record IsOrderly (s : Session) : Type 0 where
  pub writing : Chain s.msg_queue s.socket.writes
  pub reading : Reading s

-- A session for which an accept was started.
pub record IsFresh (s : Session) : Type 0 where
  pub no_reads : s.socket.reads ≡ []
  pub no_writes : s.socket.writes ≡ []
  pub no_msgs : s.msg_queue ≡ []
  pub no_bytes : s.buf ≡ []

module _ ⦃cb : CircularBuffer⦄ where
  pub record Sane (w : World) : Type 0 where
    pub inv : Inv [] w
    pub orderly : (i : ℕ) → i < w.created → IsOrderly (w.session i)
    pub fresh : (i : ℕ) → 0 < count i w.server.accepting → (i < w.created) × IsFresh (w.session i)
    pub once : (i : ℕ) → count i w.server.accepting ≤ 1
    pub room : length w.mgr.connection_list ≤ suc w.mgr.max_conn
