-- ===== src/System/Fifo/Moves.antt =====
-- The completions of a session's operations (asio_test), as steps of its queue.
use asio_tcp.Base.{
  ℕ, ◌≤◌, ◌<◌, ◌≡◌, ◌≢◌, refl, sym, ap, subst, ◌∙◌, Bool, true, false, List, [], ◌∷◌, arith,
  Ensures, Ensures-mono, ◌⊎◌, ℕ_discrete, if◌then◌else◌, inl, ==_iff, ◌==◌,
}
use asio_tcp.Ring.{CircularBuffer}
use asio_tcp.Message.{Hdr}
use asio_tcp.World.{
  Session, read_header, read_body, write_header, write_body, World, ◌>>◌, set_session,
}
use asio_tcp.World.Steps.{bind-Ensures}
use asio_tcp.Manager.{leave}
use asio_tcp.Session.{
  start_read, start_write, change, do_read, process_msg, handler_read_header, handler_read_body,
  handler_write_header, handler_write_body,
}
use asio_tcp.Ownership.{Inv}
use asio_tcp.Ownership.Queue.{Became, Became-trans, Moved, Leaves, change-Inv, written, sending}
use asio_tcp.Ownership.Receive.{Received, process_msg-Received, emptied}
use asio_tcp.Ownership.Send.{handler_write_header-Inv, handler_write_body-Inv}
use asio_tcp.System.{
  header_arrived, body_arrived, header_sent, body_sent, handle, Enabled, header_in, body_in,
  write_done, Sane,
}
use asio_tcp.System.Fifo.{
  fifo, Label, nothing, queued_one, header_out, body_out, cut_off, FifoStep, stay, broken_header,
  broken_body, label_at, stay_at, written-FifoStep, header-FifoStep, body-FifoStep, header_in_front,
  body_in_front,
}

pub differ : (k i : ℕ) → k ≢ i → (k == i) ≡ false
differ k i ne = ground (arith, ne)

module _ ⦃cb : CircularBuffer⦄ where
  -- Every session that there was takes a step, and those to come have no messages that they had not.
  pub record Steps (l : ℕ → Label) (w w' : World) : Type 0 where
    pub grown : w.created ≤ w'.created
    pub steps : (i : ℕ) → i < w.created → FifoStep (l i) (fifo (w.session i)) (fifo (w'.session i))
    pub unborn :
        (i : ℕ)
        → w.created ≤ i
        → ((w'.session i).msg_queue ≡ (w.session i).msg_queue) ⊎ ((w'.session i).msg_queue ≡ [])

  became :
      (k : ℕ) (l : Label) (s : Session) (w w' : World)
      → k < w.created
      → Became k s w w'
      → FifoStep l (fifo (w.session k)) (fifo s)
      → Steps (label_at k l) w w'
  became k l s w w' below b step = record {
    grown = omega (arith, b.created);
    steps = λ i lt. elim (ℕ_discrete k i) [
      | yes e ↦
          let same : (k == k) ≡ true = (==_iff k k).1 refl in
          subst (λ j. FifoStep (label_at k l j) (fifo (w.session j)) (fifo (w'.session j))) e
            (rw (same, b.here) step)
      | no ne ↦ rw (differ k i ne) (stay_at (ap fifo (sym (b.others i ne))))
    ];
    unborn = λ i ge. inl (
        ap (λ (s : Session). s.msg_queue) (b.others i (λ e. absurd (omega (arith, e, ge, below)))));
  }

  module _ (k : ℕ) (w : World) (sane : Sane w) (lt : k < w.created) where
    abbrev after : (Session → Session) → World
    after f = set_session k (f (w.session k)) w

    moved :
        (f : Session → Session)
        → (f (w.session k)).msg_queue ≡ (w.session k).msg_queue
        → Moved [] k (f (w.session k)) w (after f)
    moved f same = change-Inv k sane.inv lt f same

    -- An operation that failed: the session leaves, with what it has.
    failed-Steps :
        (l : Label) (f : Session → Session)
        → (f (w.session k)).msg_queue ≡ (w.session k).msg_queue
        → FifoStep l (fifo (w.session k)) (fifo (f (w.session k)))
        → Ensures (λ r. Steps (label_at k l) w r.1) ((change k f >> leave k) w)
    unfolding leave
    failed-Steps l f same step =
        let t = became k l (f (w.session k)) w (after f) lt (moved f same).1 step in
        record { grown = t.grown; steps = t.steps; unborn = t.unborn }

    pub header_arrived-Steps :
        (error : Bool) (h : Hdr)
        → Ensures (λ r. Steps (label_at k nothing) w r.1) (handle (header_arrived k error h) w)
    unfolding handle handler_read_header
    header_arrived-Steps true h = failed-Steps nothing (header_in h) refl stay
    header_arrived-Steps false h =
        let first = moved (header_in h) refl in
        let x = after (header_in h) in
        let again = change-Inv k first.0 lt (λ s. start_read (read_body s.header.len) s) refl in
        became k nothing _ w _ lt (Became-trans k _ _ w x _ first.1 again.1)
          (subst (λ s. FifoStep nothing (fifo (w.session k)) (fifo s)) (sym first.1.here) stay)

    pub body_arrived-Steps :
        (error : Bool) (bytes : List ℕ)
        → Ensures
            (λ r. Steps (label_at k (if error then nothing else queued_one)) w r.1)
            (handle (body_arrived k error bytes) w)
    unfolding handle handler_read_body do_read
    body_arrived-Steps true bytes = failed-Steps nothing (body_in bytes) refl stay
    body_arrived-Steps false bytes =
        bind-Ensures (λ r. Received [] k x r.1) (λ r. Steps (label_at k queued_one) w r.1)
          (process_msg k) (λ _. do_read k) x (process_msg-Received k first.0 lt)
          λ _ y d.
            let again = change-Inv k d.inv (rw d.became.created lt) (start_read read_header) refl in
            became k queued_one _ w _ lt
              (Became-trans k _ _ w x _ first.1 (Became-trans k _ _ x y _ d.became again.1))
              (subst (λ s. FifoStep queued_one (fifo (w.session k)) (fifo s)) (sym d.became.here)
                (subst
                  (λ s. FifoStep queued_one (fifo (w.session k)) (fifo (written d.at (emptied s))))
                  (sym first.1.here)
                  (written-FifoStep d.at (emptied (body_in bytes (w.session k)))
                    (sane.orderly k lt).writing)))
      where
        x : World
        x = after (body_in bytes)

        first : Moved [] k (body_in bytes (w.session k)) w x
        first = moved (body_in bytes) refl

    pub header_sent-Steps :
        (error : Bool)
        → Enabled (header_sent k error) w
        → Ensures
            (λ r. Steps (label_at k (if error then cut_off else header_out)) w r.1)
            (handle (header_sent k error) w)
    unfolding handle handler_write_header
    header_sent-Steps true (p, rest, e, _) =
        let (ps, q, only) = header_in_front p rest _ (rw e at (sane.orderly k lt).writing) in
        failed-Steps cut_off write_done refl (rw (q, e, only) (broken_header p ps))
    header_sent-Steps false (p, rest, e, _) =
        let (ps, q, only) = header_in_front p rest _ (rw e at (sane.orderly k lt).writing) in
        let first = moved write_done refl in
        Ensures-mono (Leaves [] k (start_write (write_body p) (x.session k)) x)
          (λ r. Steps (label_at k header_out) w r.1)
          (λ r m. became k header_out _ w r.1 lt (Became-trans k _ _ w x r.1 first.1 m.1) (
            subst
              (λ s. FifoStep header_out (fifo (w.session k)) (fifo (start_write (write_body p) s)))
              (sym first.1.here)
              (header-FifoStep p ps (w.session k) q p (e ∙ ap (write_header p ∷◌) only))))
          (handler_write_header k false x)
          (handler_write_header-Inv k first.0 lt p ps
            (ap (λ (s : Session). s.msg_queue) first.1.here ∙ q))
      where
        x : World
        x = after write_done

    pub body_sent-Steps :
        (error : Bool)
        → Enabled (body_sent k error) w
        → Ensures
            (λ r. Steps (label_at k (if error then cut_off else body_out)) w r.1)
            (handle (body_sent k error) w)
    unfolding handle handler_write_body
    body_sent-Steps true (p, rest, e, _) =
        let (ps, q, only) = body_in_front p rest _ (rw e at (sane.orderly k lt).writing) in
        failed-Steps cut_off write_done refl (rw (q, e, only) (broken_body p ps))
    body_sent-Steps false (p, rest, e, _) =
        let (ps, q, only) = body_in_front p rest _ (rw e at (sane.orderly k lt).writing) in
        let first = moved write_done refl in
        Ensures-mono
          (λ r. Inv [] r.1 × Became k (sending (record (x.session k) { msg_queue = ps })) x r.1)
          (λ r. Steps (label_at k body_out) w r.1)
          (λ r m. became k body_out _ w r.1 lt (Became-trans k _ _ w x r.1 first.1 m.1) (
            subst
              (λ s.
                FifoStep body_out (fifo (w.session k))
                  (fifo (sending (record s { msg_queue = ps }))))
              (sym first.1.here)
              (body-FifoStep p ps (w.session k) q p (e ∙ ap (write_body p ∷◌) only))))
          (handler_write_body k false x)
          (handler_write_body-Inv k first.0 lt p ps
            (ap (λ (s : Session). s.msg_queue) first.1.here ∙ q))
      where
        x : World
        x = after write_done
