-- ===== src/Memory.antt =====
-- new, delete and the use of a pointer to a message; a dead or null pointer is a fault.
use asio_tcp.Base.{ℕ, suc, none, some, update}
use asio_tcp.Ring.{CircularBuffer}
use asio_tcp.Message.{Hdr, ConnMsg, construct}
use asio_tcp.World.{M, ◌>>=◌, modify, of_option, set_heap}

module _ ⦃cb : CircularBuffer⦄ where
  -- new conn_msg(header)
  unfoldable pub new_msg : Hdr → M ℕ
  new_msg header w = some (
    w.heap.next,
    set_heap
        (record {
          cell = update w.heap.cell w.heap.next (some (construct header));
          next = suc w.heap.next;
        })
        w,
  )

  -- *p
  unfoldable pub deref : ℕ → M ConnMsg
  deref p w = of_option (w.heap.cell p) w

  -- delete p
  unfoldable pub delete : ℕ → M (Unit {0})
  unfolding deref
  delete p = do
    m ← deref p
    modify (λ w. set_heap (record (w.heap) { cell = update w.heap.cell p none }) w)

  -- *p = m
  unfoldable pub assign : ℕ → ConnMsg → M (Unit {0})
  assign p m = modify (λ w. set_heap (record (w.heap) { cell = update w.heap.cell p (some m) }) w)
