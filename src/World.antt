-- ===== src/World.antt =====
-- The state of the server program: the heap of messages, the connection manager, the sessions and
-- the acceptor, with the operations on memory that its methods are made of. A session is named by
-- the number of its creation, a message by its address. An asynchronous operation that is started is
-- kept in the state until its handler is called.
pub mod Steps
use asio_tcp.Base.{
  ℕ, suc, ◌+◌, ◌≡◌, Bool, true, false, Option, none, some, List, [], ◌∷◌, ◌++◌, update, ltb, assert,
}
use asio_tcp.Ring.{CircularBuffer}
use asio_tcp.Message.{Hdr, ConnMsg}

-- Addresses are never used again; 0 is NULL.
pub record Heap : Type 0 where
  pub cell : ℕ → Option ConnMsg
  pub next : ℕ

pub data ReadOp : Type 0 where
  read_header : ReadOp
  read_body : ℕ → ReadOp

-- A write out of the header or the body of the message at an address.
pub data WriteOp : Type 0 where
  write_header : ℕ → WriteOp
  write_body : ℕ → WriteOp

-- What the program sees of a socket, and the operations that it has started there.
pub record Socket : Type 0 where
  pub is_open : Bool
  pub reads : List ReadOp
  pub writes : List WriteOp

-- class session_tcp
pub record Session : Type 0 where
  pub socket : Socket
  pub buf : List ℕ
  pub header : Hdr
  pub curr_pack_num : ℕ
  pub client_id : ℕ
  pub msg_queue : List ℕ

-- class server_tcp; `accepting` are the sessions for which an accept was started.
pub record Server : Type 0 where
  pub listening : Bool
  pub accepting : List ℕ
  pub ios_stopped : Bool
  pub io_threads : List Bool
  pub curr_client_id : ℕ
  pub io_thread_num : ℕ

module _ ⦃cb : CircularBuffer⦄ where
  -- class connection_mgr; the set of connections is in the order of its keys.
  pub record Manager : Type 0 where
    pub connection_list : List ℕ
    pub max_conn : ℕ
    pub conn_msg_buffer : cb.Buffer

  pub record World : Type 0 where
    pub heap : Heap
    pub mgr : Manager
    pub session : ℕ → Session
    pub created : ℕ
    pub server : Server

  abbrev pub M : Type 0 → Type 0
  M A = World → Option (A × World)

  abbrev pub fault : {A : Type 0} → M A
  fault w = none

  abbrev pub pure : {A : Type 0} → A → M A
  pure a w = some (a, w)

  module _ {A B : Type 0} where
    infixl 5 ◌>>=◌ ◌>>◌
    abbrev pub ◌>>=◌ : (step : M A) (next : A → M B) → M B
    ◌>>=◌ step next w = elim (step w) [ none ↦ none | some (a, w') ↦ next a w' ]

    abbrev pub ◌>>◌ : (step : M A) (then_step : M B) → M B
    step >> then_step = step >>= λ _. then_step

  abbrev pub of_option : {A : Type 0} → Option A → M A
  of_option none w = none
  of_option (some a) w = some (a, w)

  abbrev pub get {ℓ} : {A : Type ℓ} → (World → A) → World → Option (A × World)
  get f w = some (f w, w)

  abbrev pub modify : (World → World) → M (Unit {0})
  modify f w = some (tt, f w)

  abbrev pub set_heap : Heap → World → World
  set_heap h w = record w { heap = h }

  abbrev pub set_pool : cb.Buffer → World → World
  set_pool b w = record w { mgr = record (w.mgr) { conn_msg_buffer = b } }

  abbrev pub set_list : List ℕ → World → World
  set_list l w = record w { mgr = record (w.mgr) { connection_list = l } }

  abbrev pub set_session : ℕ → Session → World → World
  set_session i s w = record w { session = update w.session i s }
