-- ===== src/System/Fifo/Parts.antt =====
-- The frame that a session (asio_test) has begun: nothing, or the header of the message in front.
use asio_tcp.Base.{
  ℕ, ◌<◌, ◌≡◌, ◌≢◌, refl, sym, ap, ◌∙◌, none, some, List, [], ◌∷◌, ◌++◌, append-nil, count, arith,
  ◌⊎◌, inl, inr,
}
use asio_tcp.Ring.{CircularBuffer}
use asio_tcp.World.{World, WriteOp, write_header, write_body}
use asio_tcp.Client.{Layout}
use asio_tcp.System.{Chain}
use asio_tcp.System.Fifo.{
  Phase, quiet, in_header, in_body, phase_of, first_part, Label, header_out, body_out, Fifo,
  FifoStep, stay, push, header_done, body_done, broken_header, broken_body,
}
use asio_tcp.System.Fifo.Texts.{text}

-- What was written of the message in front, where `header` gives the bytes of a header. After an
-- error its header may be out although nothing is being sent.
abbrev pub PartOf : (ℕ → List ℕ) → Phase → List ℕ → List ℕ → Type 0
PartOf header quiet [] part = part ≡ []
PartOf header quiet (p ∷ ps) part = (part ≡ []) ⊎ (part ≡ header p)
PartOf header in_header ps part = part ≡ []
PartOf header in_body [] part = ⊥
PartOf header in_body (p ∷ ps) part = part ≡ header p

module _ (header header' : ℕ → List ℕ) where
  PartOf-nil : (ph : Phase) (part : List ℕ) → PartOf header ph [] part → part ≡ []
  PartOf-nil quiet part h = h
  PartOf-nil in_header part h = h
  PartOf-nil in_body part h = absurd h

  PartOf-cons :
      (ph : Phase) (p : ℕ) (ps ps' part : List ℕ)
      → header' p ≡ header p
      → PartOf header ph (p ∷ ps) part
      → PartOf header' ph (p ∷ ps') part
  PartOf-cons quiet p ps ps' part e (inl h) = inl h
  PartOf-cons quiet p ps ps' part e (inr h) = inr (h ∙ sym e)
  PartOf-cons in_header p ps ps' part e h = h
  PartOf-cons in_body p ps ps' part e h = h ∙ sym e

  PartOf-same :
      (ph : Phase) (ps part : List ℕ)
      → ((q : ℕ) → 0 < count q ps → header' q ≡ header q)
      → PartOf header ph ps part
      → PartOf header' ph ps part
  PartOf-same quiet [] part same h = h
  PartOf-same in_header [] part same h = h
  PartOf-same in_body [] part same h = h
  PartOf-same ph (p ∷ ps) part same h = PartOf-cons ph p ps ps part (same p (ground arith)) h

pub PartOf-first : (header : ℕ → List ℕ) (ps : List ℕ) → PartOf header (first_part ps) ps []
PartOf-first header [] = refl
PartOf-first header (p ∷ ps) = refl

module _ ⦃layout : Layout⦄ ⦃cb : CircularBuffer⦄ where
  abbrev pub head_bytes : World → ℕ → List ℕ
  head_bytes w p = elim (w.heap.cell p) [ none ↦ [] | some m ↦ layout.to_bytes m.header ]

  abbrev pub body_bytes : World → ℕ → List ℕ
  body_bytes w p = elim (text w p) [ none ↦ [] | some bytes ↦ bytes ]

  -- The bytes of the write in front.
  abbrev pub in_front : World → List WriteOp → List ℕ
  in_front w [] = []
  in_front w (write_header p ∷ ws) = head_bytes w p
  in_front w (write_body p ∷ ws) = body_bytes w p

  abbrev pub bytes_of : Label → World → List WriteOp → List ℕ
  bytes_of header_out w ws = in_front w ws
  bytes_of body_out w ws = in_front w ws
  bytes_of _ w ws = []

  pub header_in_process :
      (w : World) (p : ℕ) (ps : List ℕ) (ws : List WriteOp)
      → Chain (p ∷ ps) ws
      → phase_of ws ≡ in_header
      → in_front w ws ≡ head_bytes w p
  header_in_process w p ps ws (inl e) h = absurd (cc (rw e at h))
  header_in_process w p ps ws (inr (inl e)) h = ap (in_front w) e
  header_in_process w p ps ws (inr (inr e)) h = absurd (cc (rw e at h))

  pub body_in_process :
      (p : ℕ) (ps : List ℕ) (ws : List WriteOp)
      → Chain (p ∷ ps) ws
      → phase_of ws ≡ in_body
      → ws ≡ write_body p ∷ []
  body_in_process p ps ws (inl e) h = absurd (cc (rw e at h))
  body_in_process p ps ws (inr (inl e)) h = absurd (cc (rw e at h))
  body_in_process p ps ws (inr (inr e)) h = e

  -- A step that does not end a frame.
  pub FifoStep-PartOf :
      (w w' : World) {l : Label} {f g : Fifo} (ws : List WriteOp) (part : List ℕ)
      → FifoStep l f g
      → l ≢ body_out
      → Chain f.queue ws
      → phase_of ws ≡ f.phase
      → ((q : ℕ) → 0 < count q f.queue → head_bytes w' q ≡ head_bytes w q)
      → PartOf (head_bytes w) f.phase f.queue part
      → PartOf (head_bytes w') g.phase g.queue (part ++ bytes_of l w ws)
  FifoStep-PartOf w w' ws part stay ne chain ph same h =
      rw (append-nil part) (PartOf-same (head_bytes w) (head_bytes w') _ _ part same h)
  FifoStep-PartOf w w' ws part (push [] ph' p) ne chain ph same h =
      append-nil part ∙ PartOf-nil (head_bytes w) (head_bytes w') ph' part h
  FifoStep-PartOf w w' ws part (push (q ∷ qs) ph' p) ne chain ph same h = rw (append-nil part) (
      PartOf-cons (head_bytes w) (head_bytes w') ph' q qs (qs ++ p ∷ []) part
        (same q (ground arith)) h)
  FifoStep-PartOf w w' ws part (header_done p ps) ne chain ph same h =
      rw h (header_in_process w p ps ws chain ph ∙ sym (same p (ground arith)))
  FifoStep-PartOf w w' ws part (body_done p ps) ne chain ph same h = absurd (ne refl)
  FifoStep-PartOf w w' ws part (broken_header p ps) ne chain ph same h = inl (append-nil part ∙ h)
  FifoStep-PartOf w w' ws part (broken_body p ps) ne chain ph same h =
      inr (append-nil part ∙ h ∙ sym (same p (ground arith)))
