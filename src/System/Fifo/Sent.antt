-- ===== src/System/Fifo/Sent.antt =====
-- A session (asio_test) that has sent a body: which bodies wait then.
use asio_tcp.Base.{
  ℕ, suc, ◌<◌, ◌≡◌, ◌≢◌, refl, sym, ap, subst, ◌∙◌, false, List, [], ◌∷◌, append-nil, count, arith,
  Ensures, Ensures-mono, Ensures-and, Ensures-all, inr, ℕ_discrete, ==_iff,
}
use asio_tcp.Ring.{CircularBuffer}
use asio_tcp.World.{Session, World, WriteOp, write_body, set_session}
use asio_tcp.Session.{handler_write_body}
use asio_tcp.Ownership.{queued, Inv}
use asio_tcp.Ownership.Queue.{Became, Moved, change-Inv, queue-sending, sending}
use asio_tcp.Ownership.Dequeue.{popped}
use asio_tcp.Ownership.Steady.{not_handed_out}
use asio_tcp.Ownership.Send.{handler_write_body-Inv, handler_write_body-frame}
use asio_tcp.System.{body_sent, handle, Enabled, write_done, Sane}
use asio_tcp.System.Fifo.{label, body_in_front}
use asio_tcp.System.Fifo.Moves.{differ}
use asio_tcp.System.Fifo.Texts.{text, texts, Carried, Untouched, texts-same, quiet-Carried}

module _ ⦃cb : CircularBuffer⦄ (k : ℕ) (w : World) (sane : Sane w) (lt : k < w.created) where
  -- After the body of the front was sent: the rest waits, and its bodies are what they were.
  module _ (p : ℕ) (ops : List WriteOp) (ps : List ℕ)
      (writes : (w.session k).socket.writes ≡ write_body p ∷ ops)
      (front : (w.session k).msg_queue ≡ p ∷ ps) where
    abbrev done : World
    done = set_session k (write_done (w.session k)) w

    first_sent : Moved [] k (write_done (w.session k)) w done
    first_sent = change-Inv k sane.inv lt write_done refl

    front_there : (done.session k).msg_queue ≡ p ∷ ps
    front_there = ap (λ (s : Session). s.msg_queue) first_sent.1.here ∙ front

    -- The message that was sent is in no queue but for its place at the front.
    not_front : (i q : ℕ) → i < w.created → k ≢ i → 0 < queued q (w.session i) → p ≢ q
    not_front i q below ne pos =
        let out = popped k first_sent.0 lt p ps front_there in
        not_handed_out p q _ out.0
          (inr (i, below, rw (out.1.others i ne, first_sent.1.others i ne) pos))

    not_again : (q : ℕ) → 0 < count q ps → p ≢ q
    not_again q pos =
        let out = popped k first_sent.0 lt p ps front_there in
        not_handed_out p q _ out.0 (inr (k, lt, rw out.1.here pos))

    sent_frame :
        Ensures
          (λ r. (a : (q : ℕ) × (p ≢ q)) → r.1.heap.cell a.0 ≡ w.heap.cell a.0)
          (handle (body_sent k false) w)
    unfolding handle
    sent_frame =
        Ensures-all (λ (a : (q : ℕ) × (p ≢ q)) r. r.1.heap.cell a.0 ≡ w.heap.cell a.0)
          (handler_write_body k false done) (suc p, λ e. absurd (omega (arith, e)))
          (λ a. handler_write_body-frame k first_sent.0 lt p ps front_there a.0 a.1)

    sent_queue : Ensures (λ r. (r.1.session k).msg_queue ≡ ps) (handle (body_sent k false) w)
    unfolding handle
    sent_queue =
        Ensures-mono
          (λ r.
            Inv [] r.1 × Became k (sending (record (done.session k) { msg_queue = ps })) done r.1)
          _ (λ r m. ap (λ (s : Session). s.msg_queue) m.1.here ∙ queue-sending _)
          (handler_write_body k false done)
          (handler_write_body-Inv k first_sent.0 lt p ps front_there)

    sent_here : Ensures (λ r. Carried (body_sent k false) w r.1 k) (handle (body_sent k false) w)
    sent_here =
        Ensures-mono
          (λ r.
            ((a : (q : ℕ) × (p ≢ q)) → r.1.heap.cell a.0 ≡ w.heap.cell a.0)
            × ((r.1.session k).msg_queue ≡ ps))
          _
          (λ r (same, q).
            rw ((==_iff k k).1 refl, writes, front)
              (append-nil _
                ∙ ap (text w p ∷◌) (
                    sym (
                      ap (texts r.1) q
                      ∙ texts-same w r.1 ps (λ j pos. same (j, not_again j pos))))))
          (handle (body_sent k false) w) (Ensures-and _ _ _ sent_frame sent_queue)

  pub body_sent-Untouched :
      (en : Enabled (body_sent k false) w)
      → (i : ℕ) → i < w.created
      → k ≢ i
      → Ensures (λ r. Untouched i w r.1) (handle (body_sent k false) w)
  body_sent-Untouched (p, rest, e, more) i below ne =
      let (ps, front, only) = body_in_front p rest _ (rw e at (sane.orderly k lt).writing) in
      Ensures-mono (λ r. (a : (q : ℕ) × (p ≢ q)) → r.1.heap.cell a.0 ≡ w.heap.cell a.0)
        (λ r. Untouched i w r.1)
        (λ r same q pos. same (q, not_front p rest ps e front i q below ne pos))
        (handle (body_sent k false) w) (sent_frame p rest ps e front)

  pub body_sent-Carried :
      (en : Enabled (body_sent k false) w)
      → (i : ℕ) → i < w.created
      → Ensures (λ r. Carried (body_sent k false) w r.1 i) (handle (body_sent k false) w)
  unfolding label
  body_sent-Carried (p, rest, e, more) i below =
      let (ps, front, only) = body_in_front p rest _ (rw e at (sane.orderly k lt).writing) in
      elim (ℕ_discrete k i) [
        | yes same ↦
            subst
              (λ j.
                Ensures (λ r. Carried (body_sent k false) w r.1 j) (handle (body_sent k false) w))
              same (sent_here p rest ps e front)
        | no ne ↦
            quiet-Carried (body_sent k false) w i sane (p, rest, e, more) below
              (rw (differ k i ne) tt) refl (rw (differ k i ne) refl)
              (body_sent-Untouched (p, rest, e, more) i below ne)
      ]
