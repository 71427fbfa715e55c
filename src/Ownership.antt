-- ===== src/Ownership.antt =====
-- Who owns a message buffer: the pool of the connection manager, the queue of one session, or the
-- method that is running. No buffer has two owners, none is lost, and none is freed while it is owned.
pub mod Memory
pub mod Pool
pub mod Queue
pub mod Dequeue
pub mod Steady
pub mod Receive
pub mod Send
pub mod Clear
pub mod Broadcast
pub mod Threads
use asio_tcp.Base.{
  ℕ, ◌+◌, ◌≤◌, ◌<◌, ◌≡◌, refl, false, Option, none, some, List, count, total, arith,
}
use asio_tcp.Ring.{CircularBuffer}
use asio_tcp.Message.{ConnMsg, is_null}
use asio_tcp.Message.Body.{IsValid}
use asio_tcp.World.{Session, Server, Manager, World}
use asio_tcp.Manager.{pool_capacity}

abbrev pub live : Option ConnMsg → ℕ
live none = 0
live (some m) = 1

abbrev pub queued : ℕ → Session → ℕ
queued p s = count p s.msg_queue

module _ ⦃cb : CircularBuffer⦄ where
  abbrev pub pooled : ℕ → World → ℕ
  pooled p w = count p (cb.contents w.mgr.conn_msg_buffer)

  -- `held` lists the buffers in the hands of the running method.
  pub record Inv (held : List ℕ) (w : World) : Type 0 where
    pub started : 0 < w.heap.next
    pub null_dead : w.heap.cell 0 ≡ none
    pub fresh : (p : ℕ) → w.heap.next ≤ p → w.heap.cell p ≡ none
    pub owned :
        (p : ℕ)
        → pooled p w + total (queued p) w.created w.session + count p held ≡ live (w.heap.cell p)
    pub valid : (p : ℕ) (m : ConnMsg) → w.heap.cell p ≡ some m → IsValid m
    pub small :
        (p : ℕ) (m : ConnMsg) → 0 < pooled p w → w.heap.cell p ≡ some m → m.size_allocated ≡ 0
    pub filled :
        (i p : ℕ) (m : ConnMsg)
        → i < w.created
        → 0 < queued p (w.session i)
        → w.heap.cell p ≡ some m
        → is_null m.buff ≡ false
    pub limit : cb.limit w.mgr.conn_msg_buffer ≡ pool_capacity

-- A buffer that has an owner is alive.
pub live-some : (o : Option ConnMsg) → 0 < live o → (m : ConnMsg) × (o ≡ some m)
live-some none h = absurd (omega arith)
live-some (some m) h = (m, refl)

module _ ⦃cb : CircularBuffer⦄ where
  -- The set of connections and the acceptor own nothing.
  pub Inv-unowned :
      (held l : List ℕ) (s : Server) (w : World)
      → Inv held w
      → Inv held (record w { mgr = record (w.mgr) { connection_list = l }; server = s })
  Inv-unowned held l s w inv = record {
    started = inv.started;
    null_dead = inv.null_dead;
    fresh = inv.fresh;
    owned = inv.owned;
    valid = inv.valid;
    small = inv.small;
    filled = inv.filled;
    limit = inv.limit;
  }
