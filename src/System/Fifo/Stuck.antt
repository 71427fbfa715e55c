-- ===== src/System/Fifo/Stuck.antt =====
-- A session (asio_test) of which a write failed while messages were in its queue.
use asio_tcp.Base.{
  ℕ, ◌<◌, ◌≡◌, ◌≢◌, refl, sym, ap, ◌∙◌, some, List, [], ◌∷◌, ◌++◌, append_assoc, append-nil, count,
  count-append, arith,
}
use asio_tcp.Ring.{CircularBuffer}
use asio_tcp.World.{World, WriteOp, write_header, write_body}
use asio_tcp.System.{Event, handle, Enabled, Sane}
use asio_tcp.System.Run.{Reach, here, next, Reach-Sane}
use asio_tcp.System.Fifo.{
  quiet, phase_of, Label, body_out, label, fifo, Fifo, FifoStep, stay, push, header_done, body_done,
  broken_header, broken_body,
}
use asio_tcp.System.Fifo.Moves.{Steps}
use asio_tcp.System.Fifo.Run.{handle-Steps}
use asio_tcp.System.Fifo.Texts.{Untouched}
use asio_tcp.System.Fifo.Frame.{handle-Untouched}
use asio_tcp.System.Fifo.Wire.{FifoStep-body_out}

pub no_write : (ws : List WriteOp) → phase_of ws ≡ quiet → ws ≡ []
no_write [] e = refl
no_write (write_header p ∷ ws) e = absurd (cc e)
no_write (write_body p ∷ ws) e = absurd (cc e)

-- Nothing is sent, although a message waits.
abbrev pub IsStuck : Fifo → Type 0
IsStuck f = (f.phase ≡ quiet) × (p : ℕ) × (ps : List ℕ) × (f.queue ≡ p ∷ ps)

FifoStep-IsStuck :
    {l : Label} {f g : Fifo}
    → FifoStep l f g
    → IsStuck f
    → IsStuck g × (more : List ℕ) × (g.queue ≡ f.queue ++ more)
FifoStep-IsStuck {f} stay s = (s, [], sym (append-nil f.queue))
FifoStep-IsStuck (push [] ph p) (e, q, qs, there) = absurd (cc there)
FifoStep-IsStuck (push (r ∷ rs) ph p) (e, q, qs, there) = ((e, r, rs ++ p ∷ [], refl), p ∷ [], refl)
FifoStep-IsStuck (header_done p ps) s = absurd (cc s.0)
FifoStep-IsStuck (body_done p ps) s = absurd (cc s.0)
FifoStep-IsStuck (broken_header p ps) s = absurd (cc s.0)
FifoStep-IsStuck (broken_body p ps) s = absurd (cc s.0)

IsStuck-body_out : {l : Label} {f g : Fifo} → FifoStep l f g → IsStuck f → l ≢ body_out
IsStuck-body_out step s same =
    let (p, front, ph, _) = FifoStep-body_out step same in absurd (cc (s.0, ph))

module _ ⦃cb : CircularBuffer⦄ where
  record Remains (i : ℕ) (v w : World) : Type 0 where
    stuck : IsStuck (fifo (w.session i))
    made : i < w.created
    more : List ℕ
    queue : (w.session i).msg_queue ≡ (v.session i).msg_queue ++ more
    untouched : Untouched i v w

  module _ {v : World} (i : ℕ) (sane : Sane v) (lt : i < v.created)
      (stuck : IsStuck (fifo (v.session i))) where
    next-Remains :
        {w w' : World} (e : Event) (r : Reach v w)
        → Enabled e w
        → handle e w ≡ some (tt, w')
        → Remains i v w
        → Remains i v w'
    next-Remains {w} {w'} e r en eq t = record {
      stuck = after.0;
      made = omega (arith, t.made, steps.grown);
      more = t.more ++ after.1;
      queue =
          after.2 ∙ ap (◌++ after.1) t.queue ∙ append_assoc (v.session i).msg_queue t.more after.1;
      untouched = λ q pos.
          kept q (
            omega (arith, ap (count q) t.queue, count-append q (v.session i).msg_queue t.more, pos))
          ∙ t.untouched q pos;
    }
      where
        steps : Steps (label e) w w'
        steps = let d = handle-Steps e w (Reach-Sane sane r) en in rw eq at d

        after :
            IsStuck (fifo (w'.session i))
            × (more : List ℕ) × ((w'.session i).msg_queue ≡ (w.session i).msg_queue ++ more)
        after = FifoStep-IsStuck (steps.steps i t.made) t.stuck

        kept : Untouched i w w'
        kept =
            let d =
              handle-Untouched e w i (Reach-Sane sane r) en t.made
                (IsStuck-body_out (steps.steps i t.made) t.stuck) in
            rw eq at d

    Reach-Remains : {w : World} → Reach v w → Remains i v w
    Reach-Remains here = record {
      stuck = stuck;
      made = lt;
      more = [];
      queue = sym (append-nil _);
      untouched = λ q pos. refl;
    }
    Reach-Remains (next e r en eq) = next-Remains e r en eq (Reach-Remains r)

  -- In a sane state, if nothing is being sent although messages wait in the queue of a session, as it is
  -- after a failed write, then whatever happens, nothing is being sent ever after: all of them stay in
  -- the queue, each in its buffer as it is, and messages that are read are only added behind them.
  pub Reach-stuck :
      {v w : World} (i : ℕ)
      → Sane v
      → i < v.created
      → (v.session i).socket.writes ≡ []
      → (p : ℕ) (ps : List ℕ) → (v.session i).msg_queue ≡ p ∷ ps
      → Reach v w
      → ((w.session i).socket.writes ≡ [])
        × ((more : List ℕ) × ((w.session i).msg_queue ≡ (v.session i).msg_queue ++ more))
        × ((q : ℕ) → 0 < count q (v.session i).msg_queue → w.heap.cell q ≡ v.heap.cell q)
  Reach-stuck i sane lt idle p ps waits r =
      let t = Reach-Remains i sane lt (ap phase_of idle, p, ps, waits) r in
      (no_write _ t.stuck.0, (t.more, t.queue), t.untouched)
