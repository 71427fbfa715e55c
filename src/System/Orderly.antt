-- ===== src/System/Orderly.antt =====
-- The methods of a session keep it orderly.
use asio_tcp.Base.{ℕ, ◌≡◌, refl, ◌∙◌, List, [], ◌∷◌, arith}
use asio_tcp.Message.{Hdr}
use asio_tcp.World.{Session, ReadOp, read_header, read_body, WriteOp, write_body}
use asio_tcp.Session.{start_read, start_write}
use asio_tcp.Ownership.Queue.{sending, written}
use asio_tcp.Ownership.Receive.{emptied}
use asio_tcp.System.{write_done, header_in, body_in, IsOrderly, IsFresh}

module _ (s : Session) (o : IsOrderly s) where
  open o use {writing, reading}

  pub header_in-IsOrderly :
      (h : Hdr) (rest : List ReadOp)
      → s.socket.reads ≡ read_header ∷ rest
      → IsOrderly (header_in h s) × IsOrderly (start_read (read_body h.len) (header_in h s))
  header_in-IsOrderly h rest e = ground arith

  pub body_in-IsOrderly :
      (bytes : List ℕ) (n : ℕ) (rest : List ReadOp)
      → s.socket.reads ≡ read_body n ∷ rest
      → IsOrderly (body_in bytes s)
  body_in-IsOrderly bytes n rest e = ground arith

  -- The write in front was the only one.
  pub write_done-IsOrderly :
      (op : WriteOp) (rest : List WriteOp)
      → s.socket.writes ≡ op ∷ rest
      → IsOrderly (write_done s) × ((write_done s).socket.writes ≡ [])
  write_done-IsOrderly op rest e = by_queue s.msg_queue refl
    where
      by_queue :
          (ps : List ℕ)
          → s.msg_queue ≡ ps
          → IsOrderly (write_done s) × ((write_done s).socket.writes ≡ [])
      by_queue [] q = ground arith
      by_queue (p ∷ ps) q = ground arith

  -- A message that is written goes out at once exactly if no other is in process.
  pub written-IsOrderly : (p : ℕ) → IsOrderly (written p s)
  unfolding written sending
  written-IsOrderly p = by_queue s.msg_queue refl
    where
      by_queue : (ps : List ℕ) → s.msg_queue ≡ ps → IsOrderly (written p s)
      by_queue [] q = ground arith
      by_queue (r ∷ ps) q = ground arith

  -- The next read is started where none is pending.
  pub start_read-IsOrderly : s.socket.reads ≡ [] → s.buf ≡ [] → IsOrderly (start_read read_header s)
  start_read-IsOrderly e b = ground arith

  -- The next message is sent where no write is pending.
  pub sending-IsOrderly :
      (ps : List ℕ) → s.socket.writes ≡ [] → IsOrderly (sending (record s { msg_queue = ps }))
  unfolding sending
  sending-IsOrderly [] e = ground arith
  sending-IsOrderly (p ∷ ps) e = ground arith

  -- The body follows its header.
  pub body_next-IsOrderly :
      (p : ℕ) (ps : List ℕ)
      → s.socket.writes ≡ []
      → s.msg_queue ≡ p ∷ ps
      → IsOrderly (start_write (write_body p) s)
  body_next-IsOrderly p ps e q = ground arith

pub written_reads : (p : ℕ) (s : Session) → (written p s).socket.reads ≡ s.socket.reads
unfolding written sending
written_reads p s = ground arith

pub written_buf : (p : ℕ) (s : Session) → (written p s).buf ≡ s.buf
unfolding written sending
written_buf p s = ground arith

pub IsFresh-IsOrderly : (s : Session) → IsFresh s → IsOrderly s
IsFresh-IsOrderly s f = ground arith

-- After an echo the session waits for the next header.
pub echoed-IsOrderly :
    (p : ℕ) (s : Session)
    → IsOrderly s
    → s.socket.reads ≡ []
    → IsOrderly (start_read read_header (written p (emptied s)))
echoed-IsOrderly p s o e =
    start_read-IsOrderly (written p (emptied s)) (written-IsOrderly (emptied s) (ground arith) p)
      (written_reads p (emptied s) ∙ e) (written_buf p (emptied s))
