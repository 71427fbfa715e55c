-- ===== src/System/Fifo.antt =====
-- What a session (session_tcp of asio_test/connection.h) is for those who write to it, without the
-- heap, the pool and the other sessions: a queue whose front is sent in two parts.
pub mod Moves
pub mod Run
pub mod Delivery
pub mod Texts
pub mod Bodies
pub mod Sent
pub mod Frame
pub mod Carry
pub mod Echo
pub mod Parts
pub mod Wire
pub mod Frames
pub mod Relayed
pub mod Stuck
pub mod Drain
use asio_tcp.Base.{
  ℕ, suc, ◌≤◌, ◌<◌, ◌≡◌, ◌≢◌, refl, sym, ap, subst, ◌∙◌, Bool, true, false, Option, none, some,
  List, [], ◌∷◌, ◌++◌, update, update_ne, update_self, arith, Ensures, Ensures-mono, Ensures-and,
  ◌⊎◌, ℕ_discrete, if◌then◌else◌, inl, inr, ==_iff, ◌==◌,
}
use asio_tcp.Ring.{CircularBuffer, is_empty}
use asio_tcp.Message.{Hdr}
use asio_tcp.World.{
  Session, Server, ReadOp, read_header, read_body, WriteOp, write_header, write_body, World, M,
  ◌>>=◌, ◌>>◌, set_session,
}
use asio_tcp.World.Steps.{bind-Ensures}
use asio_tcp.Manager.{leave}
use asio_tcp.Session.{
  start_read, start_write, change, do_read, process_msg, handler_read_header, handler_read_body,
  handler_write_header, handler_write_body,
}
use asio_tcp.Ownership.{Inv}
use asio_tcp.Ownership.Queue.{Became, Became-trans, Moved, Leaves, change-Inv, written, sending}
use asio_tcp.Ownership.Receive.{Received, process_msg-Received, emptied}
use asio_tcp.Ownership.Send.{handler_write_header-Inv, handler_write_body-Inv}
use asio_tcp.System.{
  Event, header_arrived, body_arrived, header_sent, body_sent, accepted, started, stopped, handle,
  Enabled, header_in, body_in, read_done, write_done, Chain, IsOrderly, Sane,
}

-- Nothing is sent, or a part of the front.
pub data Phase : Type 0 where
  quiet : Phase
  in_header : Phase
  in_body : Phase

pub record Fifo : Type 0 where
  pub queue : List ℕ
  pub phase : Phase

abbrev pub phase_of : List WriteOp → Phase
phase_of [] = quiet
phase_of (write_header p ∷ ws) = in_header
phase_of (write_body p ∷ ws) = in_body

abbrev pub fifo : Session → Fifo
fifo s = record { queue = s.msg_queue; phase = phase_of s.socket.writes }

abbrev pub first_part : List ℕ → Phase
first_part [] = quiet
first_part (p ∷ ps) = in_header

-- What may happen to it.
pub data Label : Type 0 where
  nothing : Label
  queued_one : Label
  header_out : Label
  body_out : Label
  cut_off : Label

-- Nothing; a message is queued, and sent at once if it is the only one; the body follows the header;
-- the front is done, and the next is sent; a part could not be sent, and nothing is from then on.
pub data FifoStep : Label → Fifo → Fifo → Type 0 where
  stay : {f : Fifo} → FifoStep nothing f f
  push :
      (ps : List ℕ) (ph : Phase) (p : ℕ)
      → FifoStep queued_one
          (record { queue = ps; phase = ph })
          (record { queue = ps ++ p ∷ []; phase = if is_empty ps then in_header else ph })
  header_done :
      (p : ℕ) (ps : List ℕ)
      → FifoStep header_out
          (record { queue = p ∷ ps; phase = in_header })
          (record { queue = p ∷ ps; phase = in_body })
  body_done :
      (p : ℕ) (ps : List ℕ)
      → FifoStep body_out
          (record { queue = p ∷ ps; phase = in_body })
          (record { queue = ps; phase = first_part ps })
  broken_header :
      (p : ℕ) (ps : List ℕ)
      → FifoStep cut_off
          (record { queue = p ∷ ps; phase = in_header })
          (record { queue = p ∷ ps; phase = quiet })
  broken_body :
      (p : ℕ) (ps : List ℕ)
      → FifoStep cut_off
          (record { queue = p ∷ ps; phase = in_body })
          (record { queue = p ∷ ps; phase = quiet })

-- What an event is for session `i`.
abbrev pub label_at : ℕ → Label → ℕ → Label
label_at k l i = if k == i then l else nothing

unfoldable pub label : Event → ℕ → Label
label (header_arrived k error h) i = label_at k nothing i
label (body_arrived k error bytes) i = label_at k (if error then nothing else queued_one) i
label (header_sent k error) i = label_at k (if error then cut_off else header_out) i
label (body_sent k error) i = label_at k (if error then cut_off else body_out) i
label (accepted k error found h) i = nothing
label (started binds h) i = nothing
label (stopped refuses) i = nothing

pub stay_at : {f g : Fifo} → f ≡ g → FifoStep nothing f g
stay_at {f} e = subst (FifoStep nothing f) e stay

pub written-FifoStep :
    (p : ℕ) (s : Session)
    → Chain s.msg_queue s.socket.writes
    → FifoStep queued_one (fifo s) (fifo (written p s))
unfolding written sending
written-FifoStep p s chain = by_queue s.msg_queue refl
  where
    by_queue : (ps : List ℕ) → s.msg_queue ≡ ps → FifoStep queued_one (fifo s) (fifo (written p s))
    by_queue [] e =
        let none_sent : s.socket.writes ≡ [] = rw e at chain in rw (e, none_sent) (push [] quiet p)
    by_queue (r ∷ ps) e = rw e (push (r ∷ ps) (phase_of s.socket.writes) p)

pub header-FifoStep :
    (p : ℕ) (ps : List ℕ) (s : Session)
    → s.msg_queue ≡ p ∷ ps
    → (op : ℕ) → s.socket.writes ≡ write_header op ∷ []
    → FifoStep header_out (fifo s) (fifo (start_write (write_body p) (write_done s)))
header-FifoStep p ps s q op e = rw (q, e) (header_done p ps)

pub body-FifoStep :
    (p : ℕ) (ps : List ℕ) (s : Session)
    → s.msg_queue ≡ p ∷ ps
    → (op : ℕ) → s.socket.writes ≡ write_body op ∷ []
    → FifoStep body_out (fifo s) (fifo (sending (record (write_done s) { msg_queue = ps })))
unfolding sending
body-FifoStep p [] s q op e = rw (q, e) (body_done p [])
body-FifoStep p (r ∷ ps) s q op e = rw (q, e) (body_done p (r ∷ ps))

-- The write in front is that of the front of the queue, and the only one.
pub header_in_front :
    (p : ℕ) (rest : List WriteOp) (qs : List ℕ)
    → Chain qs (write_header p ∷ rest)
    → (ps : List ℕ) × (qs ≡ p ∷ ps) × (rest ≡ [])
header_in_front p rest [] chain = absurd cc
header_in_front p rest (q ∷ qs) chain = (qs, ground arith, ground arith)

pub body_in_front :
    (p : ℕ) (rest : List WriteOp) (qs : List ℕ)
    → Chain qs (write_body p ∷ rest)
    → (ps : List ℕ) × (qs ≡ p ∷ ps) × (rest ≡ [])
body_in_front p rest [] chain = absurd cc
body_in_front p rest (q ∷ qs) chain = (qs, ground arith, ground arith)
