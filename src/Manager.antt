-- ===== src/Manager.antt =====
-- class connection_mgr (asio_test/connection.h and connection.cpp): the set of connections and the
-- pool of message buffers. Each function between a lock and its unlock is a definition of its own, so
-- that what another thread does between two of them can be written down.
pub mod Connections
pub mod Threads
use asio_tcp.Base.{
  ℕ, ◌≡◌, Bool, true, false, Option, none, some, List, [], ◌∷◌, length, ltb, leb, ◌==◌,
  if◌then◌else◌,
}
use asio_tcp.Ring.{CircularBuffer}
use asio_tcp.Message.{Hdr, ConnMsg, capacity, max_body_length}
use asio_tcp.World.{
  Manager, Session, Socket, World, M, ◌>>=◌, ◌>>◌, pure, get, modify, of_option, fault, set_pool,
  set_list, set_session,
}
use asio_tcp.Memory.{new_msg, delete, deref}

-- std::set::insert and erase.
unfoldable pub set_insert : ℕ → List ℕ → List ℕ
set_insert i [] = i ∷ []
set_insert i (j ∷ js) =
    let rest = set_insert i js in
    if ltb i j then i ∷ j ∷ js else if i == j then j ∷ js else j ∷ rest

unfoldable pub set_erase : ℕ → List ℕ → List ℕ
set_erase i [] = []
set_erase i (j ∷ js) = if i == j then js else j ∷ set_erase i js

-- socket_.cancel() and close(): what was started there is completed with an error.
abbrev pub close_socket : Socket → Socket
close_socket s = record s { is_open = false }

abbrev pub pool_capacity : ℕ
pool_capacity = 50

module _ ⦃cb : CircularBuffer⦄ where
  unfoldable pub new_manager : ℕ → Manager
  new_manager max_conn = record {
    connection_list = [];
    max_conn = max_conn;
    conn_msg_buffer = cb.with_capacity pool_capacity;
  }

  unfoldable pub can_join : M Bool
  can_join = get (λ w. if ltb w.mgr.max_conn (length w.mgr.connection_list) then false else true)

  unfoldable pub join : ℕ → M Bool
  unfolding set_insert
  join incomer w =
      if ltb w.mgr.max_conn (length w.mgr.connection_list)
      then some (false, w)
      else some (true, set_list (set_insert incomer w.mgr.connection_list) w)

  unfoldable pub leave : ℕ → M (Unit {0})
  leave outcomer = modify (λ w. set_list (set_erase outcomer w.mgr.connection_list) w)

  unfoldable pub size : M ℕ
  size = get (λ w. length w.mgr.connection_list)

  unfoldable pub buffer_empty : M Bool
  buffer_empty = get (λ w. cb.empty w.mgr.conn_msg_buffer)

  unfoldable pub buffer_full : M Bool
  buffer_full = get (λ w. cb.full w.mgr.conn_msg_buffer)

  unfoldable pub take_front : M ℕ
  take_front w =
      some (cb.front w.mgr.conn_msg_buffer, set_pool (cb.pop_front w.mgr.conn_msg_buffer) w)

  unfoldable pub put_back : ℕ → M (Unit {0})
  put_back p = modify (λ w. set_pool (cb.push_back w.mgr.conn_msg_buffer p) w)

  -- allocate_msg_buffer, under its write lock: the buffer is looked at again.
  unfoldable pub allocate_locked : Hdr → M ℕ
  unfolding buffer_empty take_front
  allocate_locked header = do gone ← buffer_empty; if gone then new_msg header else take_front

  unfoldable pub allocate_msg_buffer : Hdr → M ℕ
  unfolding buffer_empty
  allocate_msg_buffer header =
      if leb header.len max_body_length
      then (buffer_empty >>= λ none_left.
          if none_left then new_msg header else allocate_locked header)
      else new_msg header

  -- dellocate_msg_buffer, under its write lock.
  unfoldable pub dellocate_locked : ℕ → M (Unit {0})
  unfolding buffer_full put_back
  dellocate_locked msg = do no_room ← buffer_full; if no_room then delete msg else put_back msg

  -- The assertion that `msg` is not NULL is part of `deref`.
  unfoldable pub dellocate_msg_buffer : ℕ → M (Unit {0})
  unfolding buffer_full
  dellocate_msg_buffer msg = do
    m ← deref msg
    if capacity m == max_body_length
        then (buffer_full >>= λ no_room. if no_room then delete msg else dellocate_locked msg)
        else delete msg

  -- The loop of `clear_buffer`, and what follows it.
  unfoldable pub delete_all : List ℕ → M (Unit {0})
  delete_all [] = pure tt
  delete_all (p ∷ ps) = delete p >> delete_all ps

  unfoldable pub clear_buffer : M (Unit {0})
  unfolding delete_all
  clear_buffer = do
    items ← get (λ w. cb.contents w.mgr.conn_msg_buffer)
    delete_all items
    modify (λ w. set_pool (cb.clear w.mgr.conn_msg_buffer) w)

  -- The loop of `find` over the set.
  unfoldable pub find_in : ℕ → (ℕ → Session) → List ℕ → Option ℕ
  find_in clientid session [] = none
  find_in clientid session (i ∷ is) =
      if (session i).client_id == clientid then some i else find_in clientid session is

  unfoldable pub find : ℕ → M (Option ℕ)
  unfolding find_in
  find clientid =
      if clientid == 0
      then pure none
      else get (λ w. find_in clientid w.session w.mgr.connection_list)

  -- The loop of `stop`; `refuses i` says that the socket of session `i` cannot be shut down, or that
  -- cancel or close throws. After an error of shutdown the text that is printed goes as a std::string
  -- through the dots of output_console, which has no defined behaviour.
  unfoldable pub disconnect : (ℕ → Bool) → List ℕ → M (Unit {0})
  disconnect refuses [] = pure tt
  disconnect refuses (i ∷ is) =
      (if refuses i
        then fault
        else modify (λ w.
          set_session i (record (w.session i) { socket = close_socket (w.session i).socket }) w))
      >> disconnect refuses is

  unfoldable pub stop : (ℕ → Bool) → M (Unit {0})
  unfolding disconnect
  stop refuses = do
    clients ← get (λ w. w.mgr.connection_list)
    disconnect refuses clients
    modify (set_list [])
