-- ===== src/Ownership/Receive.antt =====
-- Ownership across ProcessMsg: a received body goes into a buffer and onto the queue.
use asio_tcp.Base.{
  ℕ, ◌<◌, ◌≤◌, ◌≡◌, refl, ap, ◌∙◌, false, Option, some, List, [], ◌∷◌, ◌⊎◌, Ensures, Ensures-mono,
  Ensures-and, Ensures-value, arith,
}
use asio_tcp.Ring.{CircularBuffer}
use asio_tcp.Message.{
  Hdr, Buff, null, fixed, dynamic, ConnMsg, construct, is_null, body, set_body, max_body_length,
}
use asio_tcp.Message.Body.{IsValid, Stored, set_body-Stored}
use asio_tcp.World.{World, Session, Heap, ◌>>◌, pure, set_session}
use asio_tcp.World.Steps.{bind-Ensures}
use asio_tcp.Memory.{deref, assign}
use asio_tcp.Manager.{allocate_msg_buffer}
use asio_tcp.Session.{change, fill, write, process_msg_business, process_msg}
use asio_tcp.Ownership.{Inv}
use asio_tcp.Ownership.Memory.{assign-Inv, held-live}
use asio_tcp.Ownership.Pool.{Kept, OnlyHeap-Kept, Allocated, allocate-Allocated}
use asio_tcp.Ownership.Steady.{
  Steady, allocate-Steady, not_handed_out, Kept-Elsewhere, assign-others,
}
use asio_tcp.Ownership.Queue.{
  Became, Moved, Moved-trans, Moved-eq, Leaves, written, change-Inv, write-Inv,
}

abbrev pub emptied : Session → Session
emptied s = record s { buf = [] }

module _ ⦃cb : CircularBuffer⦄ where
  pub Kept-trans : (u v w : World) → Kept u v → Kept v w → Kept u w
  Kept-trans u v w a b = record {
    connection_list = b.connection_list ∙ a.connection_list;
    max_conn = b.max_conn ∙ a.max_conn;
    session = b.session ∙ a.session;
    created = b.created ∙ a.created;
    server = b.server ∙ a.server;
  }

  pub Became-after :
      (i : ℕ) (s : Session) (u v w : World) → Kept u v → Became i s v w → Became i s u w
  Became-after i s u v w k b = record {
    connection_list = b.connection_list ∙ k.connection_list;
    max_conn = b.max_conn ∙ k.max_conn;
    created = b.created ∙ k.created;
    server = b.server ∙ k.server;
    here = b.here;
    others = λ j ne. b.others j ne ∙ ap (λ (f : ℕ → Session). f j) k.session;
  }

  -- A buffer handed out and filled with `src`.
  pub record Filled (held : List ℕ) (h : Hdr) (src : List ℕ) (w : World) (p : ℕ) (v : World)
      : Type 0 where
    pub inv : Inv (p ∷ held) v
    pub kept : Kept w v
    pub msg : ConnMsg
    pub old : ConnMsg
    pub alive : v.heap.cell p ≡ some msg
    pub stored : Stored src old msg
    pub steady : Steady held w v
    pub source :
        ((old ≡ construct h)
          × ((cb.contents w.mgr.conn_msg_buffer ≡ []) ⊎ (max_body_length < h.len)))
        ⊎ ((ps : List ℕ) × (cb.contents w.mgr.conn_msg_buffer ≡ p ∷ ps)
            × (h.len ≤ max_body_length)
            × (w.heap.cell p ≡ some old))

  module _ {held : List ℕ} {w : World} (h : Hdr) (src : List ℕ) where
    -- A call of `set_body` on a buffer just handed out.
    pub fill-Filled :
        (method : ConnMsg → Option ConnMsg)
        → ((old : ConnMsg) → IsValid old → Ensures (Stored src old) (method old))
        → (p : ℕ) (v : World) → Allocated held h w (p, v) × Steady held w v
        → Ensures (λ r. Filled held h src w p r.1) (fill p method v)
    unfolding fill deref
    fill-Filled method stores p v ((inv, source, kept), st) =
        let (old, alive) = held-live p inv in
        let (m', done, stored) =
          Ensures-value (Stored src old) (method old) (stores old (inv.valid p old alive)) in
        rw (alive, done, Ensures)
          (Ensures-mono _ (λ r. Filled held h src w p r.1)
            (λ r a. record {
              inv = a.0.0;
              kept = Kept-trans w v r.1 kept (OnlyHeap-Kept v r.1 a.0.2);
              msg = m';
              old = old;
              alive = a.0.1;
              stored = stored;
              steady = λ q n e there.
                  a.1 q (not_handed_out p q v inv (Kept-Elsewhere held q w v kept e))
                  ∙ st q n e there;
              source = ground arith;
            })
            _
            (Ensures-and _ _ (assign p m' v) (assign-Inv p inv m' stored.valid)
              (assign-others p m' v)))

  pub body-not_null : (m : ConnMsg) (bytes : List ℕ) → body m ≡ some bytes → is_null m.buff ≡ false
  unfolding body
  body-not_null m bytes e = by_buff m.buff refl
    where
      by_buff : (b : Buff) → m.buff ≡ b → is_null b ≡ false
      by_buff null h = ground arith
      by_buff fixed h = refl
      by_buff (dynamic x) h = refl

  -- What ProcessMsg leaves: a message with the received body at the end of the queue.
  pub record Received (held : List ℕ) (i : ℕ) (w w' : World) : Type 0 where
    pub inv : Inv held w'
    pub at : ℕ
    pub msg : ConnMsg
    pub old : ConnMsg
    pub alive : w'.heap.cell at ≡ some msg
    pub stored : Stored (w.session i).buf old msg
    pub became : Became i (written at (emptied (w.session i))) w w'
    pub steady : Steady held w w'
    pub source :
        ((old ≡ construct (w.session i).header)
          × ((cb.contents w.mgr.conn_msg_buffer ≡ [])
              ⊎ (max_body_length < (w.session i).header.len)))
        ⊎ ((ps : List ℕ) × (cb.contents w.mgr.conn_msg_buffer ≡ at ∷ ps)
            × ((w.session i).header.len ≤ max_body_length)
            × (w.heap.cell at ≡ some old))

  module _ {held : List ℕ} {w : World} (i : ℕ) (inv : Inv held w) (lt : i < w.created) where
    -- Once the buffer is filled: the stream buffer is emptied and the message is written.
    finish :
        (p : ℕ) (v : World)
        → Filled held (w.session i).header (w.session i).buf w p v
        → Ensures (λ r. Received held i w r.1) ((change i emptied >> process_msg_business i p) v)
    unfolding process_msg_business
    finish p v f =
        bind-Ensures (Leaves held i (written p (x.session i)) x) (λ r. Received held i w r.1)
          (write i p) (λ _. pure 0) x
          (write-Inv i p cleared.0 below f.msg f.alive
            (body-not_null f.msg (w.session i).buf f.stored.kept))
          received
      where
        x : World
        x = set_session i (emptied (v.session i)) v

        below : i < v.created
        below = rw f.kept.created lt

        cleared : Moved (p ∷ held) i (emptied (v.session i)) v x
        cleared = change-Inv i f.inv below emptied refl

        same : written p (x.session i) ≡ written p (emptied (w.session i))
        same =
            ap (written p) (cleared.1.here ∙ ap (λ (g : ℕ → Session). emptied (g i)) f.kept.session)

        received :
            (u : Unit {0}) (y : World)
            → Moved held i (written p (x.session i)) x y
            → Received held i w y
        received u y moved = record {
          inv = moved.0;
          at = p;
          msg = f.msg;
          old = f.old;
          alive = ap (λ (h : Heap). h.cell p) moved.2 ∙ f.alive;
          stored = f.stored;
          became = Became-after i _ w v y f.kept (Moved-trans cleared (Moved-eq same moved)).1;
          steady = λ q n e there. ap (λ (h : Heap). h.cell q) moved.2 ∙ f.steady q n e there;
          source = f.source;
        }

    -- ProcessMsg does not fault, and leaves the message as `Received` says.
    pub process_msg-Received : Ensures (λ r. Received held i w r.1) (process_msg i w)
    unfolding process_msg
    process_msg-Received =
        bind-Ensures (λ r. Allocated held s.header w r × Steady held w r.1)
          (λ r. Received held i w r.1) (allocate_msg_buffer s.header) _ w
          (Ensures-and _ _ _ (allocate-Allocated inv s.header) (allocate-Steady w inv s.header))
          λ p v a.
            bind-Ensures (λ r. Filled held s.header s.buf w p r.1) (λ r. Received held i w r.1)
              (fill p (set_body s.buf)) _ v
              (fill-Filled s.header s.buf (set_body s.buf) (set_body-Stored s.buf) p v a)
              λ _ u f. finish p u f
      where
        s : Session
        s = w.session i
