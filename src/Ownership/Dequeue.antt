-- ===== src/Ownership/Dequeue.antt =====
-- Ownership across the locked part of handler_write_body: the front of the queue goes back.
use asio_tcp.Base.{
  ℕ, ◌<◌, ◌≡◌, ◌≢◌, sym, subst, ap, ◌∙◌, some, List, [], ◌∷◌, Ensures, Ensures-mono, arith,
}
use asio_tcp.Ring.{CircularBuffer}
use asio_tcp.Message.{ConnMsg}
use asio_tcp.World.{World, Session, ◌>>◌, set_session}
use asio_tcp.World.Steps.{bind-Ensures}
use asio_tcp.Memory.{deref, delete}
use asio_tcp.Manager.{dellocate_msg_buffer, dellocate_locked, buffer_full, put_back}
use asio_tcp.Session.{change, dequeue}
use asio_tcp.Ownership.{Inv}
use asio_tcp.Ownership.Pool.{Kept, dellocate-Inv}
use asio_tcp.Ownership.Queue.{Became, Moved, set_session-Inv, queue-live}

abbrev pub with_rest : List ℕ → Session → Session
with_rest rest s = record s { msg_queue = rest }

module _ ⦃cb : CircularBuffer⦄ where
  -- Giving a buffer back and changing a session are independent.
  dellocate-change :
      (p i : ℕ) (f : Session → Session) (w : World)
      → (dellocate_msg_buffer p >> change i f) w ≡ (change i f >> dellocate_msg_buffer p) w
  unfolding dellocate_msg_buffer dellocate_locked buffer_full put_back delete deref
  dellocate-change p i f w = ground arith

  -- No other buffer is touched.
  dellocate-frame :
      (p q : ℕ) (w : World) (m : ConnMsg)
      → w.heap.cell p ≡ some m
      → p ≢ q
      → Ensures (λ r. r.1.heap.cell q ≡ w.heap.cell q) (dellocate_msg_buffer p w)
  unfolding dellocate_msg_buffer dellocate_locked buffer_full put_back delete deref
  dellocate-frame p q w m alive ne = ground arith

  Kept-Became : (i : ℕ) (s : Session) (u v w : World) → Became i s u v → Kept v w → Became i s u w
  Kept-Became i s u v w b k = record {
    connection_list = k.connection_list ∙ b.connection_list;
    max_conn = k.max_conn ∙ b.max_conn;
    created = k.created ∙ b.created;
    server = k.server ∙ b.server;
    here = ap (λ (f : ℕ → Session). f i) k.session ∙ b.here;
    others = λ j ne. ap (λ (f : ℕ → Session). f j) k.session ∙ b.others j ne;
  }

  module _ {held : List ℕ} {w : World} (i : ℕ) (inv : Inv held w) (lt : i < w.created) where
    -- The front of the queue, taken out of it, is nobody else's.
    pub popped :
        (p : ℕ) (rest : List ℕ)
        → (w.session i).msg_queue ≡ p ∷ rest
        → Moved
            (p ∷ held)
            i
            (with_rest rest (w.session i))
            w
            (set_session i (with_rest rest (w.session i)) w)
    popped p rest e =
        set_session-Inv held (p ∷ held) w i (with_rest rest (w.session i)) inv lt
          (λ q. ground (arith, e)) (λ q m pos a. inv.filled i q m lt (ground (arith, e)) a)

    -- The front of the queue is given back, and the session has the rest.
    pub dequeue-Inv :
        (p : ℕ) (rest : List ℕ)
        → (w.session i).msg_queue ≡ p ∷ rest
        → Ensures
            (λ r. Inv held r.1 × Became i (record (w.session i) { msg_queue = rest }) w r.1)
            (dequeue i w)
    unfolding dequeue deref
    dequeue-Inv p rest e =
        let (m, alive) = queue-live i inv lt p rest e in
        rw (e, alive, Ensures)
          (subst (Ensures Left) (sym (dellocate-change p i (with_rest rest) w)) (
            Ensures-mono _ Left
              (λ r d.
                (d.0, Kept-Became i (with_rest rest (w.session i)) w _ r.1 (popped p rest e).1 d.1))
              _ (dellocate-Inv p (popped p rest e).0)))
      where
        Left : Unit {0} × World → Type 0
        Left r = Inv held r.1 × Became i (with_rest rest (w.session i)) w r.1

    pub dequeue-frame :
        (p q : ℕ) (rest : List ℕ)
        → (w.session i).msg_queue ≡ p ∷ rest
        → p ≢ q
        → Ensures (λ r. r.1.heap.cell q ≡ w.heap.cell q) (dequeue i w)
    unfolding dequeue deref
    dequeue-frame p q rest e ne =
        let (m, alive) = queue-live i inv lt p rest e in
        rw (e, alive, Ensures)
          (bind-Ensures (λ r. r.1.heap.cell q ≡ w.heap.cell q)
            (λ r. r.1.heap.cell q ≡ w.heap.cell q) (dellocate_msg_buffer p) _ w
            (dellocate-frame p q w m alive ne) (λ _ v d. d))

    dequeue-none : (w.session i).msg_queue ≡ [] → dequeue i w ≡ some (tt, w)
    unfolding dequeue
    dequeue-none e = rw e
