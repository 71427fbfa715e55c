-- ===== src/System/Fifo/Relayed.antt =====
-- What a client of asio_client reads from its session of the server (asio_test): whole frames, and the
-- client that is sent enough of them succeeds.
use asio_tcp.Base.{
  ℕ, suc, ◌≤◌, ◌≡◌, refl, sym, ap, ap₂, subst, ◌∙◌, Option, none, some, List, [], ◌∷◌, ◌++◌,
  append_assoc, length, ltb, ◌+◌, Bool-cases, inl, inr, ◌⊎◌, arith, ltb→lt,
}
use asio_tcp.Ring.{CircularBuffer}
use asio_tcp.Message.{Hdr}
use asio_tcp.World.{World}
use asio_tcp.Server.{new_server, max_io_thread}
use asio_tcp.Client.{Layout, Conn, rounds}
use asio_tcp.Client.Round.{Package, stream, facing}
use asio_tcp.Client.Rounds.{Succeeds, Succeeds-mono, Served, rounds-Served}
use asio_tcp.System.Run.{Reach, new_server-Sane}
use asio_tcp.System.Fifo.{Phase, quiet, in_header, in_body}
use asio_tcp.System.Fifo.Delivery.{new_server-empty}
use asio_tcp.System.Fifo.Echo.{sent_by}
use asio_tcp.System.Fifo.Parts.{PartOf, head_bytes}
use asio_tcp.System.Fifo.Wire.{contents}
use asio_tcp.System.Fifo.Frames.{bytes_by, Frames, Reach-Frames, new_server-created}

module _ ⦃layout : Layout⦄ ⦃cb : CircularBuffer⦄ where
  -- What was written of the message in front of a queue: nothing, or its header.
  abbrev pub IsPart : ℕ → World → List ℕ → Type 0
  IsPart i w part =
      (part ≡ [])
      ⊎ ((p : ℕ) × (ps : List ℕ) × ((w.session i).msg_queue ≡ p ∷ ps) × (part ≡ head_bytes w p))

  PartOf-IsPart :
      (i : ℕ) (w : World) (part : List ℕ) (ph : Phase) (ps : List ℕ)
      → (w.session i).msg_queue ≡ ps
      → PartOf (head_bytes w) ph ps part
      → IsPart i w part
  PartOf-IsPart i w part quiet [] e h = inl h
  PartOf-IsPart i w part quiet (p ∷ ps) e (inl h) = inl h
  PartOf-IsPart i w part quiet (p ∷ ps) e (inr h) = inr (p, ps, e, h)
  PartOf-IsPart i w part in_header ps e h = inl h
  PartOf-IsPart i w part in_body [] e h = absurd h
  PartOf-IsPart i w part in_body (p ∷ ps) e h = inr (p, ps, e, h)

  module _ (max_conn threads : ℕ) (h : Hdr) {u v : World} (few : threads ≤ max_io_thread)
      (boots : new_server max_conn threads h ≡ some u) (r : Reach u v) (i : ℕ) where
    -- From the construction of the server with at most ten threads on, whatever happens, the bytes that a session has written
    -- without an error are whole frames, and then nothing or the header of the message in front of its
    -- queue. A frame is a header, in the layout of the client, with the length of its body and then
    -- the body; the bodies are those that the session has sent.
    pub Reach-framed :
        (packages : List Package) × (part : List ℕ) × (bytes_by i r ≡ stream packages ++ part)
        × (contents packages ≡ sent_by i r)
        × IsPart i v part
    Reach-framed = elim (Bool-cases (ltb i v.created)) [
      | inl old ↦
          let f = t.frames i (ltb→lt i v.created old) in
          (f.packages, f.part, f.whole, f.same, PartOf-IsPart i v f.part _ _ refl f.partial)
      | inr new ↦ let (b, s, q) = t.unborn i (ground (arith, new)) in ([], [], b, sym s, inl refl)
    ]
      where
        t : Frames r
        t =
            Reach-Frames (rw boots at (new_server-Sane max_conn threads h few))
              (rw boots at (new_server-created max_conn threads h few))
              (rw boots at (new_server-empty max_conn threads h few)) r

    length-contents : (ps : List Package) → length (contents ps) ≡ length ps
    length-contents [] = refl
    length-contents (p ∷ ps) = ap suc (length-contents ps)

    -- If a session of the server, constructed with at most ten threads, has sent `n + 1` bodies without an
    -- error, a client whose writes do not throw and that reads what the session has written serves each
    -- of them in its loop: it returns after `n + 1` packages, has sent back every byte up to the last
    -- whole frame, and is left with nothing or with a header.
    pub Reach-relayed :
        (sends : ℕ → Option ℕ) (no_throw : (k : ℕ) → sends k ≡ none) (n : ℕ) (c : Conn)
        → length (sent_by i r) ≡ suc n
        → Succeeds sends no_throw
            (λ c'.
              (c'.sent ++ c'.incoming ≡ c.sent ++ bytes_by i r)
              × (c'.pack_cnt ≡ c.pack_cnt + suc n)
              × IsPart i v c'.incoming)
            (rounds sends n (facing (bytes_by i r) c))
    Reach-relayed sends no_throw n c all =
        let (packages, part, whole, same, partial) = Reach-framed in
        rw whole (
          Succeeds-mono sends no_throw (Served sends no_throw c (suc n) packages part) _
            (λ c' (left, sent, packs, _, _, _). (
              ap₂ ◌++◌ sent left ∙ append_assoc c.sent (stream packages) part,
              packs,
              subst (IsPart i v) (sym left) partial,
            ))
            (rounds sends n (facing (stream packages ++ part) c))
            (rounds-Served sends no_throw n packages part c
              (omega (arith, all, ap length same, length-contents packages))))
