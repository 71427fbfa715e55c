-- ===== src/System/Fifo/Frame.antt =====
-- No event but the end of its own write touches a message in the queue of a session (asio_test).
use asio_tcp.Base.{
  ℕ, ◌<◌, ◌≡◌, ◌≢◌, ==_iff, refl, ap, ◌∙◌, Bool, true, false, List, [], arith, Ensures,
  Ensures-mono, Ensures-and, count, weight-le-total,
}
use asio_tcp.Ring.{CircularBuffer}
use asio_tcp.Message.{Hdr}
use asio_tcp.World.{World, Heap, set_session, write_body}
use asio_tcp.World.Steps.{bind-Ensures}
use asio_tcp.Manager
use asio_tcp.Manager.{leave, clear_buffer}
use asio_tcp.Session.{
  handler_read_header, handler_read_body, handler_write_header, handler_write_body, start_write,
}
use asio_tcp.Server.{set_server, start_accept, serve, shut_down, handler_accept, admit}
use asio_tcp.Ownership.{queued, pooled, Inv}
use asio_tcp.Ownership.Queue.{Leaves, change-Inv}
use asio_tcp.Ownership.Clear.{clear_buffer-others}
use asio_tcp.Ownership.Send.{handler_write_header-Inv}
use asio_tcp.System.{
  Event, header_arrived, body_arrived, header_sent, body_sent, accepted, started, stopped, handle,
  Enabled, write_done, Sane, handle-started, handle-stopped,
}
use asio_tcp.System.Stop.{disconnected}
use asio_tcp.System.Accept.{renumber-Sane}
use asio_tcp.System.Fifo.{Fifo, body_out, label, header_in_front}
use asio_tcp.System.Fifo.Run.{Calm, stop-Calm, admit-Calm}
use asio_tcp.System.Fifo.Texts.{Untouched}
use asio_tcp.System.Fifo.Bodies.{body_arrived-Untouched}
use asio_tcp.System.Fifo.Sent.{body_sent-Untouched}

module _ ⦃cb : CircularBuffer⦄ where
  abbrev SameHeap : World → World → Type 0
  SameHeap w w' = w'.heap ≡ w.heap

  header_arrived-SameHeap :
      (k : ℕ) (error : Bool) (h : Hdr) (w : World)
      → Ensures (λ r. SameHeap w r.1) (handle (header_arrived k error h) w)
  unfolding handle handler_read_header leave
  header_arrived-SameHeap k true h w = refl
  header_arrived-SameHeap k false h w = refl

  body_failed-SameHeap :
      (k : ℕ) (bytes : List ℕ) (w : World)
      → Ensures (λ r. SameHeap w r.1) (handle (body_arrived k true bytes) w)
  unfolding handle handler_read_body leave
  body_failed-SameHeap k bytes w = refl

  body_unsent-SameHeap :
      (k : ℕ) (w : World) → Ensures (λ r. SameHeap w r.1) (handle (body_sent k true) w)
  unfolding handle handler_write_body leave
  body_unsent-SameHeap k w = refl

  header_sent-SameHeap :
      (k : ℕ) (error : Bool) (w : World)
      → Sane w
      → Enabled (header_sent k error) w
      → Ensures (λ r. SameHeap w r.1) (handle (header_sent k error) w)
  unfolding handle handler_write_header leave
  header_sent-SameHeap k true w sane en = refl
  header_sent-SameHeap k false w sane (p, rest, e, lt) =
      let (ps, q, only) = header_in_front p rest _ (rw e at (sane.orderly k lt).writing) in
      let first = change-Inv k sane.inv lt write_done refl in
      Ensures-mono (Leaves [] k (start_write (write_body p) (x.session k)) x) (λ r. SameHeap w r.1)
        (λ r m. m.2) (handler_write_header k false x)
        (handler_write_header-Inv k first.0 lt p ps (ap (λ s. s.msg_queue) first.1.here ∙ q))
    where
      x : World
      x = set_session k (write_done (w.session k)) w

  accepted-SameHeap :
      (k : ℕ) (error : Bool) (h : Hdr) (w : World)
      → Ensures (λ r. SameHeap w r.1) (handle (accepted k error true h) w)
  unfolding handle handler_accept start_accept
  accepted-SameHeap k error h w =
      bind-Ensures (λ r. Calm w r.1) (λ r. SameHeap w r.1) (admit k error true)
        (λ _. start_accept h) _ (admit-Calm k error _) λ _ v c. c.2

  started-SameHeap : (h : Hdr) (w : World) → Ensures (λ r. SameHeap w r.1) (serve h w)
  unfolding handle serve start_accept
  started-SameHeap h w = refl

  -- `stop` frees the pool, and nothing of a queue.
  stopped-Untouched :
      (refuses : ℕ → Bool) (willing : (j : ℕ) → refuses j ≡ false) (w : World) (i : ℕ)
      → Sane w
      → i < w.created
      → Ensures (λ r. Untouched i w r.1) (shut_down refuses w)
  unfolding handle shut_down
  stopped-Untouched refuses willing w i sane lt =
      bind-Ensures
        (λ r.
          (Sane r.1
            × (r.1.mgr.connection_list ≡ [])
            × (r.1.server ≡ u.server)
            × (r.1.created ≡ u.created))
          × Calm u r.1)
        (λ r. Untouched i w r.1) (Manager.stop refuses) _ u
        (Ensures-and _ _ (Manager.stop refuses u)
          (disconnected refuses willing u (renumber-Sane u.server w sane refl))
          (stop-Calm refuses willing u))
        λ _ v (d, c).
          let s = record (v.server) { ios_stopped = true; io_threads = [] } in
          let x = set_server s v in
          Ensures-mono (λ r. (q : ℕ) → pooled q x ≡ 0 → r.1.heap.cell q ≡ x.heap.cell q)
            (λ r. Untouched i w r.1)
            (λ r m q pos.
              let inv : Inv [] x = (renumber-Sane s v d.0 refl).inv in
              m q
                (unpooled q x inv (rw d.3 lt) (rw (ap (λ (f : Fifo). count q f.queue) (c.1 i)) pos))
              ∙ ap (λ (k : Heap). k.cell q) c.2)
            (clear_buffer x) (clear_buffer-others x (renumber-Sane s v d.0 refl).inv)
    where
      u : World
      u = set_server (record (w.server) { listening = false }) w

      unpooled :
          (q : ℕ) (x : World)
          → Inv [] x
          → i < x.created
          → 0 < queued q (x.session i)
          → pooled q x ≡ 0
      unpooled q x inv below pos =
          ground (arith, inv.owned q, pos, weight-le-total (queued q) x.session i x.created below)

  SameHeap-Untouched :
      (e : Event) (w : World) (i : ℕ)
      → Ensures (λ r. SameHeap w r.1) (handle e w)
      → Ensures (λ r. Untouched i w r.1) (handle e w)
  SameHeap-Untouched e w i same =
      Ensures-mono (λ r. SameHeap w r.1) (λ r. Untouched i w r.1)
        (λ r h q pos. ap (λ (k : Heap). k.cell q) h) (handle e w) same

  pub handle-Untouched :
      (e : Event) (w : World) (i : ℕ)
      → Sane w
      → Enabled e w
      → i < w.created
      → label e i ≢ body_out
      → Ensures (λ r. Untouched i w r.1) (handle e w)
  unfolding label
  handle-Untouched (header_arrived k error h) w i sane en lt ne =
      SameHeap-Untouched _ w i (header_arrived-SameHeap k error h w)
  handle-Untouched (body_arrived k true bytes) w i sane en lt ne =
      SameHeap-Untouched _ w i (body_failed-SameHeap k bytes w)
  handle-Untouched (body_arrived k false bytes) w i sane en lt ne =
      body_arrived-Untouched k w sane en.3 bytes en i lt
  handle-Untouched (header_sent k error) w i sane en lt ne =
      SameHeap-Untouched _ w i (header_sent-SameHeap k error w sane en)
  handle-Untouched (body_sent k true) w i sane en lt ne =
      SameHeap-Untouched _ w i (body_unsent-SameHeap k w)
  handle-Untouched (body_sent k false) w i sane en lt ne =
      body_sent-Untouched k w sane en.3 en i lt (λ same. ne (rw ((==_iff k i).1 same) refl))
  handle-Untouched (accepted k error false h) w i sane en lt ne = absurd (cc en.2)
  handle-Untouched (accepted k error true h) w i sane en lt ne =
      SameHeap-Untouched _ w i (accepted-SameHeap k error h w)
  handle-Untouched (started binds h) w i sane en lt ne =
      SameHeap-Untouched (started binds h) w i
        (rw (handle-started binds h w en) (started-SameHeap h w))
  handle-Untouched (stopped refuses) w i sane en lt ne =
      rw (handle-stopped refuses w en) (stopped-Untouched refuses en.1 w i sane lt)
