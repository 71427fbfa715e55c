-- ===== src/System/Fifo/Delivery.antt =====
-- What goes into and out of the queues of the sessions (asio_test) along a run of the server.
use asio_tcp.Base.{
  ℕ, ◌+◌, ◌≤◌, ◌<◌, ◌≡◌, refl, ap, ◌∙◌, some, [], ◌∷◌, length, length-append, ltb, Bool-cases, inl,
  inr, arith, ltb→lt, le→leb, Ensures,
}
use asio_tcp.Ring.{CircularBuffer}
use asio_tcp.Message.{Hdr}
use asio_tcp.World.{World}
use asio_tcp.Session.{new_session}
use asio_tcp.Server.{new_server, max_io_thread}
use asio_tcp.System.{
  Event, header_arrived, body_arrived, header_sent, body_sent, accepted, started, stopped, handle,
  Enabled, Sane,
}
use asio_tcp.System.Run.{Reach, here, next, Reach-Sane, new_server-Sane}
use asio_tcp.System.Fifo.{
  Label, nothing, queued_one, body_out, Fifo, FifoStep, stay, push, header_done, body_done,
  broken_header, broken_body, label, label_at,
}
use asio_tcp.System.Fifo.Moves.{Steps, differ}
use asio_tcp.System.Fifo.Run.{handle-Steps}

abbrev is_in : Label → ℕ
is_in queued_one = 1
is_in _ = 0

abbrev is_out : Label → ℕ
is_out body_out = 1
is_out _ = 0

FifoStep-length :
    {l : Label} {f g : Fifo} → FifoStep l f g → length g.queue + is_out l ≡ length f.queue + is_in l
FifoStep-length stay = refl
FifoStep-length (push ps ph p) = omega (arith, length-append ps (p ∷ []))
FifoStep-length (header_done p ps) = refl
FifoStep-length (body_done p ps) = omega arith
FifoStep-length (broken_header p ps) = refl
FifoStep-length (broken_body p ps) = refl

module _ ⦃cb : CircularBuffer⦄ where
  -- How many bodies session `i` has read, and how many it has sent, without an error.
  abbrev pub bodies_in : ℕ → {u v : World} → Reach u v → ℕ
  bodies_in i here = 0
  bodies_in i (next e r en eq) = is_in (label e i) + bodies_in i r

  abbrev pub bodies_out : ℕ → {u v : World} → Reach u v → ℕ
  bodies_out i here = 0
  bodies_out i (next e r en eq) = is_out (label e i) + bodies_out i r

  at_other :
      (k i : ℕ) (l : Label) (w : World) → k < w.created → w.created ≤ i → label_at k l i ≡ nothing
  at_other k i l w below ge = rw (differ k i (λ e. absurd (omega (arith, e, below, ge)))) refl

  -- An operation that completes is one of a session that was made.
  pub label_unborn :
      (e : Event) (w : World) (i : ℕ) → Enabled e w → w.created ≤ i → label e i ≡ nothing
  unfolding label
  label_unborn (header_arrived k error h) w i en ge = at_other k i _ w en.2 ge
  label_unborn (body_arrived k error bytes) w i en ge = at_other k i _ w en.3 ge
  label_unborn (header_sent k error) w i en ge = at_other k i _ w en.3 ge
  label_unborn (body_sent k error) w i en ge = at_other k i _ w en.3 ge
  label_unborn (accepted k error found h) w i en ge = refl
  label_unborn (started binds h) w i en ge = refl
  label_unborn (stopped refuses) w i en ge = refl

  record Tally {u v : World} (r : Reach u v) : Type 0 where
    balance : (i : ℕ) → bodies_in i r ≡ bodies_out i r + length (v.session i).msg_queue
    unborn : (i : ℕ) → v.created ≤ i → length (v.session i).msg_queue ≡ 0

  next-Tally :
      {u v w : World} (e : Event) (r : Reach u v) (en : Enabled e v)
      (eq : handle e v ≡ some (tt, w))
      → Tally r
      → Steps (label e) v w
      → Tally (next e r en eq)
  next-Tally {v = v} {w = w} e r en eq t steps = record {
    balance = λ i. elim (Bool-cases (ltb i v.created)) [
      | inl old ↦
          omega (arith, t.balance i, FifoStep-length (steps.steps i (ltb→lt i v.created old)))
      | inr new ↦
          let ge : v.created ≤ i = ground (arith, new) in
          let none_in = ap is_in (label_unborn e v i en ge) in
          let none_out = ap is_out (label_unborn e v i en ge) in
          omega (arith, t.balance i, t.unborn i ge, still i ge, none_in, none_out)
    ];
    unborn = λ i ge. still i (omega (arith, ge, steps.grown));
  }
    where
      still : (i : ℕ) → v.created ≤ i → length (w.session i).msg_queue ≡ 0
      still i ge = elim (steps.unborn i ge) [
        | inl same ↦ ap length same ∙ t.unborn i ge
        | inr none_left ↦ ap length none_left
      ]

  Reach-Tally :
      {u v : World} → Sane u → ((i : ℕ) → (u.session i).msg_queue ≡ []) → (r : Reach u v) → Tally r
  Reach-Tally sane empty here = record {
    balance = λ i. omega (arith, ap length (empty i));
    unborn = λ i ge. ap length (empty i);
  }
  Reach-Tally sane empty (next {v} {w} e r en eq) =
      let before : Sane v = Reach-Sane sane r in
      let steps = handle-Steps e v before en in
      next-Tally e r en eq (Reach-Tally sane empty r) (rw eq at steps)

  pub new_server-empty :
      (max_conn threads : ℕ) (h : Hdr)
      → threads ≤ max_io_thread
      → Ensures (λ w. (i : ℕ) → (w.session i).msg_queue ≡ []) (new_server max_conn threads h)
  unfolding new_server new_session
  new_server-empty max_conn threads h few =
      rw (le→leb threads max_io_thread few, Ensures) (λ i. refl)

  -- From the construction of the server on, whatever happens, for each session: it has read as many
  -- bodies without an error as it has sent back without an error and as messages wait in its queue.
  pub Reach-delivered :
      (max_conn threads : ℕ) (h : Hdr) {u v : World}
      → threads ≤ max_io_thread
      → new_server max_conn threads h ≡ some u
      → (r : Reach u v) (i : ℕ) → bodies_in i r ≡ bodies_out i r + length (v.session i).msg_queue
  Reach-delivered max_conn threads h few boots r =
      (Reach-Tally (rw boots at (new_server-Sane max_conn threads h few))
        (rw boots at (new_server-empty max_conn threads h few)) r).balance
