-- ===== src/System/Fifo/Echo.antt =====
-- What a session (asio_test) reads and what it sends back, byte for byte, along a run of the server.
use asio_tcp.Base.{
  ℕ, ◌≤◌, ◌≡◌, refl, sym, ap, ◌∙◌, true, false, some, List, [], ◌++◌, append_assoc, ltb, Bool-cases,
  inl, inr, arith, ltb→lt,
}
use asio_tcp.Ring.{CircularBuffer}
use asio_tcp.Message.{Hdr}
use asio_tcp.World.{World}
use asio_tcp.Server.{new_server, max_io_thread}
use asio_tcp.System.{
  Event, header_arrived, body_arrived, header_sent, body_sent, accepted, started, stopped, handle,
  Enabled, Sane,
}
use asio_tcp.System.Run.{Reach, here, next, Reach-Sane, new_server-Sane}
use asio_tcp.System.Fifo.{label}
use asio_tcp.System.Fifo.Moves.{Steps, differ}
use asio_tcp.System.Fifo.Run.{handle-Steps}
use asio_tcp.System.Fifo.Delivery.{new_server-empty}
use asio_tcp.System.Fifo.Texts.{Text, texts, read_at, sent_at, Carried}
use asio_tcp.System.Fifo.Carry.{handle-Carried}

module _ ⦃cb : CircularBuffer⦄ where
  -- The bodies that session `i` has read, and those that it has sent, from the first on.
  abbrev pub read_by : ℕ → {u v : World} → Reach u v → List Text
  read_by i here = []
  read_by i (next e r en eq) = read_by i r ++ read_at e i

  abbrev pub sent_by : ℕ → {u v : World} → Reach u v → List Text
  sent_by i here = []
  sent_by i (next {v} e r en eq) = sent_by i r ++ sent_at e v i

  -- An operation that completes is one of a session that was made.
  unborn_still :
      (e : Event) (w : World) (i : ℕ)
      → Enabled e w
      → w.created ≤ i
      → (read_at e i ≡ []) × (sent_at e w i ≡ [])
  unborn_still (header_arrived k error h) w i en ge = (refl, refl)
  unborn_still (body_arrived k true bytes) w i en ge = (refl, refl)
  unborn_still (body_arrived k false bytes) w i en ge =
      (rw (differ k i (λ e. absurd (omega (arith, e, en.3, ge)))) refl, refl)
  unborn_still (header_sent k error) w i en ge = (refl, refl)
  unborn_still (body_sent k true) w i en ge = (refl, refl)
  unborn_still (body_sent k false) w i en ge =
      (refl, rw (differ k i (λ e. absurd (omega (arith, e, en.3, ge)))) refl)
  unborn_still (accepted k error found h) w i en ge = (refl, refl)
  unborn_still (started binds h) w i en ge = (refl, refl)
  unborn_still (stopped refuses) w i en ge = (refl, refl)

  record Echoes {u v : World} (r : Reach u v) : Type 0 where
    echoes : (i : ℕ) → read_by i r ≡ sent_by i r ++ texts v (v.session i).msg_queue
    unborn : (i : ℕ) → v.created ≤ i → (v.session i).msg_queue ≡ []

  pub carry :
      (read sent waiting more out left : List Text)
      → read ≡ sent ++ waiting
      → waiting ++ more ≡ out ++ left
      → read ++ more ≡ (sent ++ out) ++ left
  carry read sent waiting more out left e f =
      ap (◌++ more) e
      ∙ append_assoc sent waiting more
      ∙ ap (sent ++◌) f
      ∙ sym (append_assoc sent out left)

  next-Echoes :
      {u v w : World} (e : Event) (r : Reach u v) (en : Enabled e v)
      (eq : handle e v ≡ some (tt, w))
      → Sane v
      → Echoes r
      → Echoes (next e r en eq)
  next-Echoes {v = v} {w = w} e r en eq sane t = record {
    echoes = λ i.
        carry (read_by i r) (sent_by i r) (texts v (v.session i).msg_queue) (read_at e i)
          (sent_at e v i) (texts w (w.session i).msg_queue) (t.echoes i) (carried i);
    unborn = λ i ge. still i (omega (arith, ge, steps.grown));
  }
    where
      steps : Steps (label e) v w
      steps = let d = handle-Steps e v sane en in rw eq at d

      still : (i : ℕ) → v.created ≤ i → (w.session i).msg_queue ≡ []
      still i ge = elim (steps.unborn i ge) [
        | inl same ↦ same ∙ t.unborn i ge
        | inr none_left ↦ none_left
      ]

      carried : (i : ℕ) → Carried e v w i
      carried i = elim (Bool-cases (ltb i v.created)) [
        | inl old ↦ let d = handle-Carried e v i sane en (ltb→lt i v.created old) in rw eq at d
        | inr new ↦
            let ge : v.created ≤ i = ground (arith, new) in
            let (no_read, no_sent) = unborn_still e v i en ge in
            rw (no_read, no_sent, t.unborn i ge, still i ge) refl
      ]

  Reach-Echoes :
      {u v : World} → Sane u → ((i : ℕ) → (u.session i).msg_queue ≡ []) → (r : Reach u v) → Echoes r
  Reach-Echoes sane empty here = record {
    echoes = λ i. rw (empty i) refl;
    unborn = λ i ge. empty i;
  }
  Reach-Echoes sane empty (next e r en eq) =
      next-Echoes e r en eq (Reach-Sane sane r) (Reach-Echoes sane empty r)

  -- From the construction of the server with at most ten threads on, whatever happens, the bodies that a session has read
  -- without an error are, in their order and byte for byte, those that it has sent without an error,
  -- and then those of the messages that wait in its queue.
  pub Reach-echoed :
      (max_conn threads : ℕ) (h : Hdr) {u v : World}
      → threads ≤ max_io_thread
      → new_server max_conn threads h ≡ some u
      → (r : Reach u v) (i : ℕ) → read_by i r ≡ sent_by i r ++ texts v (v.session i).msg_queue
  Reach-echoed max_conn threads h few boots r =
      (Reach-Echoes (rw boots at (new_server-Sane max_conn threads h few))
        (rw boots at (new_server-empty max_conn threads h few)) r).echoes
