-- ===== src/Session/Race.antt =====
-- Two threads of the io_service in one session: what `write` does between the two critical sections
-- of handler_write_body.
use asio_tcp.Base.{
  ℕ, ◌<◌, ◌≡◌, ap, ◌∙◌, false, some, List, [], ◌∷◌, Ensures, Ensures-mono, Ensures-and,
  weight-le-total, ◌≢◌, arith,
}
use asio_tcp.Ring.{CircularBuffer}
use asio_tcp.Message.{ConnMsg, is_null}
use asio_tcp.World.{World, Session, WriteOp, write_header, M, ◌>>◌}
use asio_tcp.World.Steps.{bind-Ensures}
use asio_tcp.Session.{dequeue, do_write, write}
use asio_tcp.Ownership.{Inv, queued}
use asio_tcp.Ownership.Queue.{Became, Leaves, Moved, written, sending, write-Inv, do_write-Inv}
use asio_tcp.Ownership.Dequeue.{dequeue-Inv, dequeue-frame}

module _ ⦃cb : CircularBuffer⦄ where
  -- handler_write_body with a whole `write` of another thread between its critical section, which
  -- gives the sent message back, and its `do_write`.
  unfoldable pub overtaken : ℕ → ℕ → M (Unit {0})
  overtaken i q = dequeue i >> (write i q >> do_write i)

  -- Session `i` has these messages in its queue and these writes in process.
  abbrev pub Writing : ℕ → List ℕ → List WriteOp → World → Type 0
  Writing i ps ops w =
      Inv [] w
      × (i < w.created)
      × ((w.session i).msg_queue ≡ ps)
      × ((w.session i).socket.writes ≡ ops)

  pub overtaken-Twice :
      (i p q : ℕ) (w : World) (m : ConnMsg)
      → Inv (q ∷ []) w
      → i < w.created
      → (w.session i).msg_queue ≡ p ∷ []
      → (w.session i).socket.writes ≡ []
      → w.heap.cell q ≡ some m
      → is_null m.buff ≡ false
      → Ensures
          (λ r. Writing i (q ∷ []) (write_header q ∷ write_header q ∷ []) r.1)
          (overtaken i q w)
  unfolding overtaken sending written
  overtaken-Twice i p q w m inv lt one none_pending alive full =
      bind-Ensures Given Twice (dequeue i) (λ _. write i q >> do_write i) w
        (Ensures-and _ _ (dequeue i w) (dequeue-Inv i inv lt p [] one)
          (dequeue-frame i inv lt p q [] one other))
        (λ _ v d.
          bind-Ensures (Leaves [] i (written q (v.session i)) v) Twice (write i q) (λ _. do_write i)
            v (write-Inv i q d.0.0 (rw d.0.1.created lt) m (d.1 ∙ alive) full)
            (λ _ x c. both v d x c))
    where
      s : Session
      s = record (w.session i) { msg_queue = [] }

      other : p ≢ q
      other = ground (arith, inv.owned q, weight-le-total (queued q) w.session i w.created)

      Given : Unit {0} × World → Type 0
      Given r = (Inv (q ∷ []) r.1 × Became i s w r.1) × (r.1.heap.cell q ≡ w.heap.cell q)

      Twice : Unit {0} × World → Type 0
      Twice r = Writing i (q ∷ []) (write_header q ∷ write_header q ∷ []) r.1

      both :
          (v : World)
          → Given (tt, v)
          → (x : World) → Moved [] i (written q (v.session i)) v x
          → Ensures Twice (do_write i x)
      both v d x c =
          Ensures-mono (Leaves [] i (sending (x.session i)) x) Twice
            (λ r a.
              let here : r.1.session i ≡ sending (written q s) =
                a.1.here ∙ ap sending (c.1.here ∙ ap (written q) d.0.1.here) in
              (
                a.0,
                omega (arith, lt, d.0.1.created, c.1.created, a.1.created),
                ap (λ (t : Session). t.msg_queue) here ∙ queued_once,
                ap (λ (t : Session). t.socket.writes) here ∙ twice,
              ))
            (do_write i x) (do_write-Inv i c.0 (rw c.1.created (rw d.0.1.created lt)))
        where
          twice : (sending (written q s)).socket.writes ≡ write_header q ∷ write_header q ∷ []
          twice = ground (arith, none_pending)

          queued_once : (sending (written q s)).msg_queue ≡ q ∷ []
          queued_once = ground arith

  -- Whenever the message just sent was the last of the queue, both threads start to send the new
  -- one: two writes of the same header are in process on one socket.
  pub two_writes :
      (i p q : ℕ) (w : World) (m : ConnMsg)
      → Inv (q ∷ []) w
      → i < w.created
      → (w.session i).msg_queue ≡ p ∷ []
      → (w.session i).socket.writes ≡ []
      → w.heap.cell q ≡ some m
      → is_null m.buff ≡ false
      → Ensures
          (λ r. (r.1.session i).socket.writes ≡ write_header q ∷ write_header q ∷ [])
          (overtaken i q w)
  two_writes i p q w m inv lt one none_pending alive full =
      Ensures-mono (λ r. Writing i (q ∷ []) (write_header q ∷ write_header q ∷ []) r.1)
        (λ r. (r.1.session i).socket.writes ≡ write_header q ∷ write_header q ∷ []) (λ r d. d.3)
        (overtaken i q w) (overtaken-Twice i p q w m inv lt one none_pending alive full)
