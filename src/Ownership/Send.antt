-- ===== src/Ownership/Send.antt =====
-- Ownership across the two write handlers, where their operation had no error.
use asio_tcp.Base.{
  ℕ, ◌<◌, ◌≡◌, ◌≢◌, ◌∙◌, ap, refl, subst, false, some, List, ◌∷◌, take, Ensures, Ensures-mono,
  Ensures-and, arith,
}
use asio_tcp.Ring.{CircularBuffer}
use asio_tcp.Message.{ConnMsg, Buff, null, fixed, dynamic, is_null, body}
use asio_tcp.Message.Body.{IsValid}
use asio_tcp.World.{World, Heap, write_body}
use asio_tcp.World.Steps.{bind-Ensures}
use asio_tcp.Memory.{deref}
use asio_tcp.Session.{start_write, dequeue, do_write, handler_write_header, handler_write_body}
use asio_tcp.Ownership.{Inv}
use asio_tcp.Ownership.Queue.{
  Became, Became-trans, Leaves, change-Inv, queue-live, do_write-Inv, sending,
}
use asio_tcp.Ownership.Dequeue.{with_rest, dequeue-Inv, dequeue-frame}

-- A valid message whose buffer was chosen has a body.
pub IsValid-body :
    (m : ConnMsg) → IsValid m → is_null m.buff ≡ false → (bytes : List ℕ) × (body m ≡ some bytes)
unfolding body
IsValid-body m v = by_buff m.buff refl
  where
    by_buff : (b : Buff) → m.buff ≡ b → is_null b ≡ false → (bytes : List ℕ) × (body m ≡ some bytes)
    by_buff null e h = absurd (cc h)
    by_buff fixed e h = (take m.header.len m.buff_fix, ground (arith, v.fix_size, v.holds))
    by_buff (dynamic bytes) e h = (take m.header.len bytes, ground (arith, v.fix_size, v.holds))

module _ ⦃cb : CircularBuffer⦄ {held : List ℕ} {w : World} (i : ℕ) (inv : Inv held w)
    (lt : i < w.created) (p : ℕ) (rest : List ℕ) (e : (w.session i).msg_queue ≡ p ∷ rest) where
  -- After the header the body of the same message is sent, which is there.
  pub handler_write_header-Inv :
      Ensures
        (Leaves held i (start_write (write_body p) (w.session i)) w)
        (handler_write_header i false w)
  unfolding handler_write_header deref
  handler_write_header-Inv =
      let (m, alive) = queue-live i inv lt p rest e in
      let (bytes, there) =
        IsValid-body m (inv.valid p m alive) (inv.filled i p m lt (ground arith) alive) in
      rw (e, alive, there, Ensures) (change-Inv i inv lt (start_write (write_body p)) refl)

  -- After the body the buffer is given back, and the next message is sent if there is one.
  pub handler_write_body-Inv :
      Ensures
        (λ r. Inv held r.1 × Became i (sending (record (w.session i) { msg_queue = rest })) w r.1)
        (handler_write_body i false w)
  unfolding handler_write_body
  handler_write_body-Inv =
      bind-Ensures (λ r. Inv held r.1 × Became i (record (w.session i) { msg_queue = rest }) w r.1)
        _ (dequeue i) (λ _. do_write i) w (dequeue-Inv i inv lt p rest e)
        λ u v d.
          Ensures-mono (Leaves held i (sending (v.session i)) v) _
            (λ r a. (
              a.0,
              Became-trans i _ _ w v r.1 d.1 (subst (λ s. Became i (sending s) v r.1) d.1.here a.1),
            ))
            (do_write i v) (do_write-Inv i d.0 (rw d.1.created lt))

  -- No buffer but that of the front is touched.
  pub handler_write_body-frame :
      (q : ℕ)
      → p ≢ q
      → Ensures (λ r. r.1.heap.cell q ≡ w.heap.cell q) (handler_write_body i false w)
  unfolding handler_write_body
  handler_write_body-frame q ne =
      bind-Ensures
        (λ r.
          (Inv held r.1 × Became i (with_rest rest (w.session i)) w r.1)
          × (r.1.heap.cell q ≡ w.heap.cell q))
        (λ r. r.1.heap.cell q ≡ w.heap.cell q) (dequeue i) (λ _. do_write i) w
        (Ensures-and _ _ (dequeue i w) (dequeue-Inv i inv lt p rest e)
          (dequeue-frame i inv lt p q rest e ne))
        λ u v (d, same).
          Ensures-mono (Leaves held i (sending (v.session i)) v) _
            (λ r a. ap (λ (h : Heap). h.cell q) a.2 ∙ same) (do_write i v)
            (do_write-Inv i d.0 (rw d.1.created lt))
