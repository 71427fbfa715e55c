-- ===== src/Session/Echo.antt =====
-- What a client gets back: the message that ProcessMsg queues.
use asio_tcp.Base.{
  ℕ, ◌<◌, ◌≤◌, ◌≡◌, ap, ◌∙◌, ◌⊎◌, inl, inr, some, List, [], ◌∷◌, length, Ensures, Ensures-mono,
}
use asio_tcp.Ring.{CircularBuffer}
use asio_tcp.Message.{Hdr, ConnMsg, construct, body, max_body_length}
use asio_tcp.World.{World, Session}
use asio_tcp.Session.{process_msg}
use asio_tcp.Ownership.{Inv}
use asio_tcp.Ownership.Queue.{written}
use asio_tcp.Ownership.Receive.{Received, process_msg-Received, emptied}

module _ ⦃cb : CircularBuffer⦄ where
  -- The header of the echo: the one that was read if the buffer is new, and the one that an earlier
  -- message left in the buffer if it comes from the pool; the length is that of the body.
  abbrev pub EchoHeader : World → Session → Hdr → Type 0
  EchoHeader w s h =
      (((cb.contents w.mgr.conn_msg_buffer ≡ []) ⊎ (max_body_length < s.header.len))
        × (h ≡ record (s.header) { len = length s.buf }))
      ⊎ ((q : ℕ) × (ps : List ℕ) × (old : ConnMsg) × (cb.contents w.mgr.conn_msg_buffer ≡ q ∷ ps)
          × (s.header.len ≤ max_body_length)
          × (w.heap.cell q ≡ some old)
          × (h ≡ record (old.header) { len = length s.buf }))

  abbrev pub Echoed : ℕ → World → World → Type 0
  Echoed i w w' =
      (p : ℕ) × (m : ConnMsg) × (w'.session i ≡ written p (emptied (w.session i)))
      × (w'.heap.cell p ≡ some m)
      × (body m ≡ some (w.session i).buf)
      × EchoHeader w (w.session i) m.header

  Received-EchoHeader :
      (i : ℕ) (w w' : World) (d : Received [] i w w') → EchoHeader w (w.session i) d.msg.header
  unfolding construct
  Received-EchoHeader i w w' d = by_source d.source
    where
      by_source :
          ((d.old ≡ construct (w.session i).header)
              × ((cb.contents w.mgr.conn_msg_buffer ≡ [])
                  ⊎ (max_body_length < (w.session i).header.len)))
            ⊎ ((ps : List ℕ) × (cb.contents w.mgr.conn_msg_buffer ≡ d.at ∷ ps)
                × ((w.session i).header.len ≤ max_body_length)
                × (w.heap.cell d.at ≡ some d.old))
          → EchoHeader w (w.session i) d.msg.header
      by_source (inl (e, why)) = inl (
        why,
        d.stored.renamed
            ∙ ap (λ (m : ConnMsg). record (m.header) { len = length (w.session i).buf }) e,
      )
      by_source (inr (ps, e, fits, alive)) = inr (d.at, ps, d.old, e, fits, alive, d.stored.renamed)

  -- In a state with sound ownership, ProcessMsg of a session returns; it queues one message, whose
  -- body is the body that was read, empties the stream buffer, and gives the message the header that
  -- was read if the pool is empty or the announced length is over 256, and otherwise the header that
  -- is left in the front of the pool, each with the length of the body.
  pub process_msg-Echoed :
      (i : ℕ) (w : World)
      → Inv [] w
      → i < w.created
      → Ensures (λ r. Echoed i w r.1) (process_msg i w)
  process_msg-Echoed i w inv lt =
      Ensures-mono (λ r. Received [] i w r.1) (λ r. Echoed i w r.1)
        (λ r d. (d.at, d.msg, d.became.here, d.alive, d.stored.kept, Received-EchoHeader i w r.1 d))
        (process_msg i w) (process_msg-Received i inv lt)
