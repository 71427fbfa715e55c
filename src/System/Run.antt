-- ===== src/System/Run.antt =====
-- The server from its construction on: any sequence of events.
use asio_tcp.Base.{
  true, false, ℕ, suc, ◌+◌, ◌≤◌, ◌<◌, ◌≡◌, refl, ap, some, [], count, length, arith, Ensures,
  Ensures-mono, Ensures-value, total, total-zero, le→leb,
}
use asio_tcp.Ring.{CircularBuffer}
use asio_tcp.Message.{Hdr, ConnMsg, capacity, max_body_length}
use asio_tcp.World.{World}
use asio_tcp.Manager.{pool_capacity}
use asio_tcp.Session.{new_session}
use asio_tcp.Server.{new_server, max_io_thread}
use asio_tcp.Ownership.{queued, pooled, live}
use asio_tcp.System.{
  Event, header_arrived, body_arrived, header_sent, body_sent, accepted, started, stopped, handle,
  Enabled, IsOrderly, Sane,
}
use asio_tcp.System.Safety.{SaneAfter, header_arrived-Sane, body_arrived-Sane}
use asio_tcp.System.Writes.{header_sent-Sane, body_sent-Sane}
use asio_tcp.System.Accept.{accepted-Sane}
use asio_tcp.System.Stop.{Halted, stop_server-Halted, start_server-Sane}

module _ ⦃cb : CircularBuffer⦄ where
  -- In a sane state these return, and leave a sane state: a handler whose operation was pending, if an
  -- accepted socket has its addresses; `start`, if the acceptor is closed and can listen; and `stop`, if
  -- the acceptor is open, the threads are there, and no socket refuses to be shut down or closed.
  pub handle-Sane : (e : Event) (w : World) → Sane w → Enabled e w → Ensures SaneAfter (handle e w)
  unfolding handle
  handle-Sane (header_arrived i error h) w sane en = header_arrived-Sane i w sane en.2 error h en
  handle-Sane (body_arrived i error bytes) w sane en =
      body_arrived-Sane i w sane en.3 error bytes en
  handle-Sane (header_sent i error) w sane en = header_sent-Sane i w sane en.3 error en
  handle-Sane (body_sent i error) w sane en = body_sent-Sane i w sane en.3 error en
  handle-Sane (accepted i error true h) w sane en = accepted-Sane i error h w sane en
  handle-Sane (accepted i error false h) w sane en = absurd (cc en.2)
  handle-Sane (started binds h) w sane en = start_server-Sane h w sane en.1 en.0
  handle-Sane (stopped refuses) w sane en =
      Ensures-mono (λ r. Halted w r.1) SaneAfter (λ r d. d.sane) _
        (stop_server-Halted refuses w sane en.0 en.1)

  -- The states that the program can be in.
  pub data Reach (start : World) : World → Type 0 where
    here : Reach start start
    next :
        {v w : World} (e : Event)
        → Reach start v
        → Enabled e v
        → handle e v ≡ some (tt, w)
        → Reach start w

  pub Reach-Sane : {u v : World} → Sane u → Reach u v → Sane v
  Reach-Sane sane here = sane
  Reach-Sane sane (next {v} {w} e r en eq) =
      let before : Sane v = Reach-Sane sane r in rw eq at (handle-Sane e v before en)

  pub new_server-Sane :
      (max_conn threads : ℕ) (h : Hdr)
      → threads ≤ max_io_thread
      → Ensures Sane (new_server max_conn threads h)
  unfolding new_server
  new_server-Sane max_conn threads h few =
      rw (le→leb threads max_io_thread few, Ensures)
        (record {
          inv = record {
            started = omega arith;
            null_dead = refl;
            fresh = λ p le. refl;
            owned = λ p.
                omega (arith, ap (count p) no_pool, total-zero (queued p) (λ _. new_session h));
            valid = λ p m e. absurd (cc e);
            small = λ p m pos e. absurd (cc e);
            filled = λ i p m lt. absurd (omega arith);
            limit = cb.limit-with_capacity pool_capacity;
          };
          orderly = λ i lt. absurd (omega arith);
          fresh = λ i pos. absurd (omega arith);
          once = λ i. omega arith;
          room = omega arith;
        })
    where
      no_pool : cb.contents (cb.with_capacity pool_capacity) ≡ []
      no_pool = cb.contents-with_capacity pool_capacity

  -- In every state that the program reaches from its construction with at most ten threads, as long as
  -- nothing throws: each handler of a pending operation returns, if an accepted socket has its addresses;
  -- `start` returns if the acceptor is closed and can listen, and `stop` if the acceptor is open, the
  -- threads are there, and no socket refuses to be shut down or closed; a session has at most one read
  -- and at most one write in process, and the write is of the front of its queue; at most
  -- `max_conn + 1` sessions are connected; every allocated message has one owner, the pool or the queue
  -- of one session, and the pool holds at most fifty, all of the standard capacity.
  pub Reach-safe :
      (max_conn threads : ℕ) (h : Hdr) {u v : World}
      → threads ≤ max_io_thread
      → new_server max_conn threads h ≡ some u
      → Reach u v
      → ((e : Event) → Enabled e v → (w : World) × (handle e v ≡ some (tt, w)))
        × ((i : ℕ) → i < v.created → IsOrderly (v.session i))
        × (length v.mgr.connection_list ≤ suc v.mgr.max_conn)
        × ((p : ℕ) → pooled p v + total (queued p) v.created v.session ≡ live (v.heap.cell p))
        × (length (cb.contents v.mgr.conn_msg_buffer) ≤ pool_capacity)
        × ((p : ℕ) (m : ConnMsg)
            → 0 < pooled p v
            → v.heap.cell p ≡ some m
            → capacity m ≡ max_body_length)
  Reach-safe max_conn threads h {u} {v} few boots r = (
    λ e en.
        let ((_, w), eq, _) = Ensures-value SaneAfter (handle e v) (handle-Sane e v sane en) in
        (w, eq),
    sane.orderly,
    sane.room,
    λ p. omega (arith, sane.inv.owned p),
    omega (arith, cb.bounded v.mgr.conn_msg_buffer, sane.inv.limit),
    λ p m pos e. ground (arith, sane.inv.small p m),
  )
    where
      sane : Sane v
      sane = Reach-Sane (rw boots at (new_server-Sane max_conn threads h few)) r
