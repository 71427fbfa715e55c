-- ===== src/System/Fifo/Drain.antt =====
-- A session (asio_test) whose writes do not fail sends all that waits in its queue.
use asio_tcp.Base.{
  ℕ, ◌<◌, ◌≡◌, refl, sym, ap, ◌∙◌, false, List, [], ◌∷◌, ◌++◌, append_assoc, append-nil, arith,
  if◌then◌else◌, ◌==◌, ==_iff, Ensures-value,
}
use asio_tcp.Ring.{CircularBuffer}
use asio_tcp.World.{World, WriteOp, write_header, write_body}
use asio_tcp.System.{Event, header_sent, body_sent, handle, Enabled, Sane}
use asio_tcp.System.Safety.{SaneAfter}
use asio_tcp.System.Run.{Reach, here, next, Reach-Sane, handle-Sane}
use asio_tcp.System.Fifo.{
  Phase, quiet, in_header, in_body, phase_of, first_part, Label, nothing, header_in_front,
  body_in_front, header_out, body_out, label, fifo, Fifo, FifoStep, stay, push, header_done,
  body_done, broken_header, broken_body,
}
use asio_tcp.System.Fifo.Moves.{Steps}
use asio_tcp.System.Fifo.Run.{handle-Steps}
use asio_tcp.System.Fifo.Texts.{texts, read_at, sent_at, Carried}
use asio_tcp.System.Fifo.Carry.{handle-Carried}
use asio_tcp.System.Fifo.Echo.{read_by, sent_by, carry}
use asio_tcp.System.Fifo.Wire.{FifoStep-body_out}
use asio_tcp.System.Fifo.Stuck.{no_write}

header_first :
    (ws : List WriteOp)
    → phase_of ws ≡ in_header
    → (p : ℕ) × (rest : List WriteOp) × (ws ≡ write_header p ∷ rest)
header_first [] e = absurd (cc e)
header_first (write_header p ∷ ws) e = (p, ws, refl)
header_first (write_body p ∷ ws) e = absurd (cc e)

body_first :
    (ws : List WriteOp)
    → phase_of ws ≡ in_body
    → (p : ℕ) × (rest : List WriteOp) × (ws ≡ write_body p ∷ rest)
body_first [] e = absurd (cc e)
body_first (write_header p ∷ ws) e = absurd (cc e)
body_first (write_body p ∷ ws) e = (p, ws, refl)

FifoStep-header_out :
    {l : Label} {f g : Fifo}
    → FifoStep l f g
    → l ≡ header_out
    → (g.queue ≡ f.queue) × (g.phase ≡ in_body)
FifoStep-header_out stay e = absurd (cc e)
FifoStep-header_out (push ps ph p) e = absurd (cc e)
FifoStep-header_out (header_done p ps) e = (refl, refl)
FifoStep-header_out (body_done p ps) e = absurd (cc e)
FifoStep-header_out (broken_header p ps) e = absurd (cc e)
FifoStep-header_out (broken_body p ps) e = absurd (cc e)

module _ ⦃cb : CircularBuffer⦄ where
  -- What waited and was read is what was sent and waits.
  record Balanced {u v : World} (i : ℕ) (r : Reach u v) : Type 0 where
    made : i < v.created
    balance :
        texts u (u.session i).msg_queue ++ read_by i r
        ≡ sent_by i r ++ texts v (v.session i).msg_queue

  Reach-Balanced : {u v : World} (i : ℕ) → Sane u → i < u.created → (r : Reach u v) → Balanced i r
  Reach-Balanced {u} i sane lt here = record { made = lt; balance = append-nil _ }
  Reach-Balanced {u} i sane lt (next {v} {w} e r en eq) =
      let t = Reach-Balanced i sane lt r in
      let before : Sane v = Reach-Sane sane r in
      let d = handle-Carried e v i before en t.made in
      let carried : Carried e v w i = rw eq at d in
      let s = handle-Steps e v before en in
      let steps : Steps (label e) v w = rw eq at s in
      record {
        made = omega (arith, t.made, steps.grown);
        balance =
            sym (append_assoc (texts u (u.session i).msg_queue) (read_by i r) (read_at e i))
            ∙ carry _ (sent_by i r) _ (read_at e i) (sent_at e v i) _ t.balance carried;
      }

  module _ {u : World} (i : ℕ) (sane : Sane u) where
    -- A run that goes on from `r` and reads nothing for session `i`.
    record Longer {v : World} (r : Reach u v) (queue : List ℕ) (ph : Phase) : Type 0 where
      last : World
      reach : Reach u last
      made : i < last.created
      waits : (last.session i).msg_queue ≡ queue
      phase : phase_of (last.session i).socket.writes ≡ ph
      no_reads : read_by i reach ≡ read_by i r

    one_more :
        {v : World} (r : Reach u v) (e : Event) (l : Label)
        → Enabled e v
        → i < v.created
        → label e i ≡ l
        → read_at e i ≡ []
        → (w : World) × (r' : Reach u w) × (i < w.created)
          × FifoStep l (fifo (v.session i)) (fifo (w.session i))
          × (read_by i r' ≡ read_by i r)
    one_more {v} r e l en lt same none_read =
        let before : Sane v = Reach-Sane sane r in
        let ((_, w), eq, _) = Ensures-value SaneAfter (handle e v) (handle-Sane e v before en) in
        let s = handle-Steps e v before en in
        let steps : Steps (label e) v w = rw eq at s in
        (
          w,
          next e r en eq,
          omega (arith, lt, steps.grown),
          rw same at (steps.steps i lt),
          ap (read_by i r ++◌) none_read ∙ append-nil _,
        )

    at_self : (l : Label) → (if i == i then l else nothing) ≡ l
    at_self l = rw ((==_iff i i).1 refl) refl

    header_goes :
        {v : World} (r : Reach u v)
        → i < v.created
        → phase_of (v.session i).socket.writes ≡ in_header
        → Longer r (v.session i).msg_queue in_body
    unfolding label
    header_goes {v} r lt ph =
        let (p, rest, there) = header_first _ ph in
        let (w, r', lt', step, no_reads) =
          one_more r (header_sent i false) header_out (p, rest, there, lt) lt (at_self header_out)
            refl in
        let (q, phase) = FifoStep-header_out step refl in
        record { last = w; reach = r'; made = lt'; waits = q; phase = phase; no_reads = no_reads }

    body_goes :
        {v : World} (r : Reach u v) (p : ℕ) (ps : List ℕ)
        → i < v.created
        → (v.session i).msg_queue ≡ p ∷ ps
        → phase_of (v.session i).socket.writes ≡ in_body
        → Longer r ps (first_part ps)
    unfolding label
    body_goes {v} r p ps lt front ph =
        let (op, rest, there) = body_first _ ph in
        let (w, r', lt', step, no_reads) =
          one_more r (body_sent i false) body_out (op, rest, there, lt) lt (at_self body_out)
            refl in
        let (p', q, _, phase) = FifoStep-body_out step refl in
        let left : (w.session i).msg_queue ≡ ps = ground (arith, q, front) in
        record {
          last = w;
          reach = r';
          made = lt';
          waits = left;
          phase = phase ∙ ap first_part left;
          no_reads = no_reads;
        }

    drain :
        (ps : List ℕ) {v : World} (r : Reach u v)
        → i < v.created
        → (v.session i).msg_queue ≡ ps
        → phase_of (v.session i).socket.writes ≡ first_part ps
        → Longer r [] quiet
    drain [] {v} r lt q ph = record {
      last = v;
      reach = r;
      made = lt;
      waits = q;
      phase = ph;
      no_reads = refl;
    }
    drain (p ∷ ps) {v} r lt q ph =
        let a = header_goes r lt ph in
        let b = body_goes a.reach p ps a.made (a.waits ∙ q) a.phase in
        let c = drain ps b.reach b.made b.waits b.phase in
        record {
          last = c.last;
          reach = c.reach;
          made = c.made;
          waits = c.waits;
          phase = c.phase;
          no_reads = c.no_reads ∙ b.no_reads ∙ a.no_reads;
        }

    drained :
        (lt : i < u.created)
        → Longer here [] quiet
        → (w : World) × (r : Reach u w) × ((w.session i).msg_queue ≡ [])
          × ((w.session i).socket.writes ≡ [])
          × (sent_by i r ≡ texts u (u.session i).msg_queue)
    drained lt a =
        let t = Reach-Balanced i sane lt a.reach in
        (
          a.last,
          a.reach,
          a.waits,
          no_write _ a.phase,
          sym (
              sym (append-nil _)
              ∙ ap (texts u (u.session i).msg_queue ++◌) (sym a.no_reads)
              ∙ t.balance
              ∙ ap (λ q. sent_by i a.reach ++ texts a.last q) a.waits
              ∙ append-nil _),
        )

    -- In a sane state in which a write of a session is in process, there is a run from there that sends,
    -- without an error, the bodies of all messages in its queue, in their order and as they are, and
    -- leaves the queue empty and nothing to be sent.
    pub Reach-drains :
        (op : WriteOp) (rest : List WriteOp)
        → i < u.created
        → (u.session i).socket.writes ≡ op ∷ rest
        → (w : World) × (r : Reach u w) × ((w.session i).msg_queue ≡ [])
          × ((w.session i).socket.writes ≡ [])
          × (sent_by i r ≡ texts u (u.session i).msg_queue)
    Reach-drains (write_header p) rest lt e =
        let (ps, front, _) = header_in_front p rest _ (rw e at (sane.orderly i lt).writing) in
        drained lt
          (drain (u.session i).msg_queue here lt refl (ap phase_of e ∙ sym (ap first_part front)))
    Reach-drains (write_body p) rest lt e =
        let (ps, front, _) = body_in_front p rest _ (rw e at (sane.orderly i lt).writing) in
        let a = body_goes here p ps lt front (ap phase_of e) in
        let b = drain ps a.reach a.made a.waits a.phase in
        drained lt (record {
          last = b.last;
          reach = b.reach;
          made = b.made;
          waits = b.waits;
          phase = b.phase;
          no_reads = b.no_reads ∙ a.no_reads;
        })
