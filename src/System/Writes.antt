-- ===== src/System/Writes.antt =====
-- The two completions of a write are handled without a fault, and leave the server in order.
use asio_tcp.Base.{
  ℕ, ◌<◌, ◌≡◌, refl, sym, ap, subst, ◌∙◌, Bool, true, false, List, [], ◌∷◌, arith, Ensures,
  Ensures-mono,
}
use asio_tcp.Ring.{CircularBuffer}
use asio_tcp.World.{Session, WriteOp, write_header, write_body, World, M, ◌>>◌, set_session}
use asio_tcp.Manager.{leave}
use asio_tcp.Session.{start_write, change, handler_write_header, handler_write_body}
use asio_tcp.Ownership.{Inv}
use asio_tcp.Ownership.Queue.{Became, Moved, Leaves, change-Inv, sending}
use asio_tcp.Ownership.Send.{handler_write_header-Inv, handler_write_body-Inv}
use asio_tcp.System.{header_sent, body_sent, handle, Enabled, write_done, IsOrderly, Sane}
use asio_tcp.System.Orderly.{write_done-IsOrderly, sending-IsOrderly, body_next-IsOrderly}
use asio_tcp.System.Safety.{SaneAfter, writes_idle, failed, went_on}

module _ ⦃cb : CircularBuffer⦄ where
  module _ (i : ℕ) (w : World) (sane : Sane w) (lt : i < w.created) where
    -- Where a write is pending, its message is the front of the queue.
    in_front :
        (op : WriteOp) (rest : List WriteOp)
        → (w.session i).socket.writes ≡ op ∷ rest
        → (p : ℕ) × (ps : List ℕ) × ((w.session i).msg_queue ≡ p ∷ ps)
    in_front op rest e = by_queue (w.session i).msg_queue refl
      where
        by_queue :
            (qs : List ℕ)
            → (w.session i).msg_queue ≡ qs
            → (p : ℕ) × (ps : List ℕ) × ((w.session i).msg_queue ≡ p ∷ ps)
        by_queue [] q = absurd (ground (arith, (sane.orderly i lt).writing))
        by_queue (p ∷ ps) q = (p, ps, q)

    module _ (op : WriteOp) (rest : List WriteOp)
        (e : (w.session i).socket.writes ≡ op ∷ rest) where
      done : IsOrderly (write_done (w.session i)) × ((write_done (w.session i)).socket.writes ≡ [])
      done = write_done-IsOrderly (w.session i) (sane.orderly i lt) op rest e

      abbrev sent : World
      sent = set_session i (write_done (w.session i)) w

      sent-Moved : Moved [] i (write_done (w.session i)) w sent
      sent-Moved = change-Inv i sane.inv lt write_done refl

      write_failed : Ensures SaneAfter ((change i write_done >> leave i) w)
      write_failed = failed i w sane lt write_done (writes_idle i op rest w sane e) refl done.0

      queue_sent :
          (p : ℕ) (ps : List ℕ)
          → (w.session i).msg_queue ≡ p ∷ ps
          → (sent.session i).msg_queue ≡ p ∷ ps
      queue_sent p ps q = ap (λ (s : Session). s.msg_queue) sent-Moved.1.here ∙ q

      -- A handler that takes the session on to `g`, an orderly state from here.
      sent-Sane :
          (g : Session → Session)
          → IsOrderly (g (write_done (w.session i)))
          → (m : M (Unit {0}))
          → Ensures (λ r. Inv [] r.1 × Became i (g (sent.session i)) sent r.1) (m sent)
          → Ensures SaneAfter (m sent)
      sent-Sane g o m h =
          Ensures-mono (λ r. Inv [] r.1 × Became i (g (sent.session i)) sent r.1) SaneAfter
            (λ r a.
              went_on i w sane lt write_done (g (sent.session i)) (writes_idle i op rest w sane e)
                refl (subst (λ s. IsOrderly (g s)) (sym sent-Moved.1.here) o) r.1 a.0 a.1)
            (m sent) h

      header_handled : Ensures SaneAfter (handler_write_header i false sent)
      header_handled =
          let (p, ps, q) = in_front op rest e in
          sent-Sane (start_write (write_body p))
            (body_next-IsOrderly (write_done (w.session i)) done.0 p ps done.1 q)
            (handler_write_header i false)
            (Ensures-mono (Leaves [] i (start_write (write_body p) (sent.session i)) sent) _
              (λ r a. (a.0, a.1)) (handler_write_header i false sent)
              (handler_write_header-Inv i sent-Moved.0 lt p ps (queue_sent p ps q)))

      body_handled : Ensures SaneAfter (handler_write_body i false sent)
      body_handled =
          let (p, ps, q) = in_front op rest e in
          sent-Sane (λ s. sending (record s { msg_queue = ps }))
            (sending-IsOrderly (write_done (w.session i)) done.0 ps done.1)
            (handler_write_body i false)
            (handler_write_body-Inv i sent-Moved.0 lt p ps (queue_sent p ps q))

    pub header_sent-Sane :
        (error : Bool)
        → Enabled (header_sent i error) w
        → Ensures SaneAfter (handle (header_sent i error) w)
    unfolding handle handler_write_header
    header_sent-Sane true (m, rest, e, _) = write_failed (write_header m) rest e
    header_sent-Sane false (m, rest, e, _) = header_handled (write_header m) rest e

    pub body_sent-Sane :
        (error : Bool)
        → Enabled (body_sent i error) w
        → Ensures SaneAfter (handle (body_sent i error) w)
    unfolding handle handler_write_body
    body_sent-Sane true (m, rest, e, _) = write_failed (write_body m) rest e
    body_sent-Sane false (m, rest, e, _) = body_handled (write_body m) rest e
