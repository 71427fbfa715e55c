-- ===== src/Server.antt =====
-- class server_tcp (asio_test/server.h and Server.cpp): it accepts connections one at a time, numbers
-- the clients, and starts and stops the threads that run the handlers. The io_service, the acceptor
-- and the threads are seen through the calls that the code makes of them.
pub mod Address
pub mod Race
use asio_tcp.Base.{
  ℕ, suc, ◌+◌, ◌%◌, ◌^◌, Bool, true, false, [], ◌∷◌, ◌++◌, replicate, update, leb, if◌then◌else◌,
  ◌==◌, ◌&&◌, length, ◌≡◌, refl, Option, none, some,
}
use asio_tcp.Ring.{CircularBuffer}
use asio_tcp.Message.{Hdr}
use asio_tcp.World.{Server, Manager, World, M, ◌>>=◌, ◌>>◌, pure, get, modify, fault}
use asio_tcp.Manager.{new_manager, can_join, leave, clear_buffer}
use asio_tcp.Manager as Connections
use asio_tcp.Session.{new_session, start}
use asio_tcp.Session

abbrev pub max_io_thread : ℕ
max_io_thread = 10

-- UINT
abbrev pub u32 : ℕ → ℕ
u32 n = n % 2 ^ 32

module _ ⦃cb : CircularBuffer⦄ where
  abbrev pub set_server : Server → World → World
  set_server s w = record w { server = s }

  -- server_tcp::server_tcp, with its assertion on the number of threads, in a program that has no
  -- session and no message yet; `header` is what memory holds where a session's header will be.
  unfoldable pub new_server : ℕ → ℕ → Hdr → Option World
  unfolding new_manager new_session
  new_server max_conn io_thread_num header =
      if leb io_thread_num max_io_thread
      then some (record {
        heap = record { cell = λ _. none; next = 1 };
        mgr = new_manager max_conn;
        session = λ _. new_session header;
        created = 0;
        server = record {
          listening = false;
          accepting = [];
          ios_stopped = false;
          io_threads = [];
          curr_client_id = 1;
          io_thread_num = io_thread_num;
        };
      })
      else none

  -- A new session, and an accept that is started for it.
  unfoldable pub start_accept : Hdr → M (Unit {0})
  start_accept header = modify (λ w. record w {
    session = update w.session w.created (new_session header);
    created = suc w.created;
    server = record (w.server) { accepting = w.server.accepting ++ w.created ∷ [] };
  })

  -- curr_client_id_++
  unfoldable pub next_client_id : M ℕ
  next_client_id = do
    id ← get (λ w. w.server.curr_client_id)
    modify (λ w. set_server (record (w.server) { curr_client_id = u32 (id + 1) }) w)
    pure id

  -- handler_accept, up to the next accept: the client is numbered, or refused without a number; `found`
  -- says that the accepted socket has its addresses.
  unfoldable pub admit : ℕ → Bool → Bool → M (Unit {0})
  admit new error found =
      if error
      then leave new
      else (can_join >>= λ room.
          if room then (next_client_id >>= λ id. start new id found) else pure tt)

  unfoldable pub handler_accept : ℕ → Bool → Bool → Hdr → M (Unit {0})
  handler_accept new error found header = admit new error found >> start_accept header

  -- server_tcp::start, once the acceptor listens: a thread is `true` while it runs.
  unfoldable pub serve : Hdr → M (Unit {0})
  serve header = do
    modify (λ w.
        set_server (record (w.server) { ios_stopped = false; listening = true; curr_client_id = 1 })
          w)
    start_accept header
    modify (λ w.
        set_server (record (w.server) { io_threads = replicate w.server.io_thread_num true }) w)

  -- server_tcp::start: open throws if the acceptor is open, and `binds` says that open, set_option, bind
  -- and listen do not throw otherwise.
  unfoldable pub start_server : Bool → Hdr → M (Unit {0})
  start_server binds header = get (λ w. w.server.listening) >>= λ listens.
      if listens then fault else (if binds then serve header else fault)

  -- What server_tcp::stop needs: cancel throws if the acceptor is not open, and the loop that joins the
  -- threads takes `io_thread_num` of them from the array.
  unfoldable pub can_stop : World → Bool
  can_stop w = w.server.listening && (length w.server.io_threads == w.server.io_thread_num)

  -- server_tcp::stop, where the acceptor and the threads are there.
  unfoldable pub shut_down : (ℕ → Bool) → M (Unit {0})
  shut_down refuses = do
    modify (λ w. set_server (record (w.server) { listening = false }) w)
    Connections.stop refuses
    modify (λ w. set_server (record (w.server) { ios_stopped = true }) w)
    modify (λ w. set_server (record (w.server) { io_threads = [] }) w)
    clear_buffer

  -- server_tcp::stop; what it needs is tested before the rest, which does not change it.
  unfoldable pub stop_server : (ℕ → Bool) → M (Unit {0})
  stop_server refuses = get can_stop >>= λ able. if able then shut_down refuses else fault

  -- Where nothing throws, `start` and `stop` are these.
  pub start_server-serve :
      {binds : Bool} (header : Hdr) (w : World)
      → binds ≡ true
      → w.server.listening ≡ false
      → start_server binds header w ≡ serve header w
  unfolding start_server
  start_server-serve header w e f = rw (e, f) refl

  pub stop_server-shut_down :
      (refuses : ℕ → Bool) (w : World)
      → can_stop w ≡ true
      → stop_server refuses w ≡ shut_down refuses w
  unfolding stop_server
  stop_server-shut_down refuses w e = rw e refl

  unfoldable pub write_to_all : ℕ → M (Unit {0})
  write_to_all msg = Session.write_to_all msg

  unfoldable pub conn_mgr : M Manager
  conn_mgr = get (λ w. w.mgr)

  unfoldable pub stopped : M Bool
  stopped = get (λ w. w.server.ios_stopped)

  unfoldable pub client_num : M ℕ
  client_num = Connections.size
