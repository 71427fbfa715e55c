-- ===== src/System/Fifo/Texts.antt =====
-- The bodies in the queues of the sessions (asio_test), byte for byte, and what one event does to them.
use asio_tcp.Base.{
  ℕ, ◌<◌, ◌≡◌, refl, sym, ap, ap₂, ◌∙◌, false, Option, none, some, List, [], ◌∷◌, ◌++◌, map,
  append-nil, count, arith, Ensures, Ensures-mono, Ensures-and, inl, inr, Bool-cases, if◌then◌else◌,
  ◌==◌, weight-le-total,
}
use asio_tcp.Ring.{CircularBuffer}
use asio_tcp.Message.{ConnMsg, body}
use asio_tcp.World.{World, WriteOp, write_body}
use asio_tcp.Ownership.{queued, Inv, live-some}
use asio_tcp.System.{Event, body_arrived, body_sent, handle, Enabled, Sane}
use asio_tcp.System.Fifo.{
  Label, queued_one, body_out, Fifo, FifoStep, stay, push, header_done, body_done, broken_header,
  broken_body, label, label_at,
}
use asio_tcp.System.Fifo.Moves.{Steps}
use asio_tcp.System.Fifo.Run.{handle-Steps}

abbrev pub Text : Type 0
Text = Option (List ℕ)

module _ ⦃cb : CircularBuffer⦄ where
  -- The body of the message at `p`, and those of several messages.
  abbrev pub text : World → ℕ → Text
  text w p = elim (w.heap.cell p) [ none ↦ none | some m ↦ body m ]

  abbrev pub texts : World → List ℕ → List Text
  texts w ps = map (text w) ps

  -- The body that an event reads for session `i`, if it does.
  abbrev pub read_at : Event → ℕ → List Text
  read_at (body_arrived k false bytes) i = if k == i then some bytes ∷ [] else []
  read_at _ i = []

  -- The body that is sent where the write in front is of one.
  abbrev pub on_wire : World → List WriteOp → List Text
  on_wire w (write_body p ∷ ws) = text w p ∷ []
  on_wire w _ = []

  -- The body that session `i` has sent with an event, if it has.
  abbrev pub sent_at : Event → World → ℕ → List Text
  sent_at (body_sent k false) w i = if k == i then on_wire w (w.session i).socket.writes else []
  sent_at _ w i = []

  -- What was waiting and what is read is what is sent and what is waiting then.
  abbrev pub Carried : Event → World → World → ℕ → Type 0
  Carried e w w' i =
      texts w (w.session i).msg_queue ++ read_at e i
      ≡ sent_at e w i ++ texts w' (w'.session i).msg_queue

  -- The buffers in the queue of session `i` are not touched.
  abbrev pub Untouched : ℕ → World → World → Type 0
  Untouched i w w' = (q : ℕ) → 0 < queued q (w.session i) → w'.heap.cell q ≡ w.heap.cell q

  pub texts-same :
      (w w' : World) (ps : List ℕ)
      → ((q : ℕ) → 0 < count q ps → w'.heap.cell q ≡ w.heap.cell q)
      → texts w' ps ≡ texts w ps
  texts-same w w' [] h = refl
  texts-same w w' (p ∷ ps) h =
      ap₂ ◌∷◌ (ap (λ o. elim o [ none ↦ none | some m ↦ body m ]) (h p (ground arith)))
        (texts-same w w' ps (λ q pos. h q (ground (arith, pos))))

  pub queued-live :
      (w : World)
      → Inv [] w
      → (i q : ℕ) → i < w.created
      → 0 < queued q (w.session i)
      → (m : ConnMsg) × (w.heap.cell q ≡ some m)
  queued-live w inv i q lt pos =
      live-some (w.heap.cell q)
        (omega (arith, inv.owned q, pos, weight-le-total (queued q) w.session i w.created lt))

  -- Labels that leave the queue as it is.
  abbrev pub IsQuiet : Label → Type 0
  IsQuiet queued_one = ⊥
  IsQuiet body_out = ⊥
  IsQuiet _ = Unit {0}

  pub IsQuiet-label_at : (k : ℕ) (l : Label) (i : ℕ) → IsQuiet l → IsQuiet (label_at k l i)
  IsQuiet-label_at k l i h = elim (Bool-cases (k == i)) [ inl e ↦ rw e h | inr e ↦ rw e tt ]

  FifoStep-queue : {l : Label} {f g : Fifo} → IsQuiet l → FifoStep l f g → g.queue ≡ f.queue
  FifoStep-queue h stay = refl
  FifoStep-queue h (push ps ph p) = absurd h
  FifoStep-queue h (header_done p ps) = refl
  FifoStep-queue h (body_done p ps) = absurd h
  FifoStep-queue h (broken_header p ps) = refl
  FifoStep-queue h (broken_body p ps) = refl

  -- An event that neither reads nor sends a body for session `i`.
  pub quiet-Carried :
      (e : Event) (w : World) (i : ℕ)
      → Sane w
      → Enabled e w
      → i < w.created
      → IsQuiet (label e i)
      → read_at e i ≡ []
      → sent_at e w i ≡ []
      → Ensures (λ r. Untouched i w r.1) (handle e w)
      → Ensures (λ r. Carried e w r.1 i) (handle e w)
  quiet-Carried e w i sane en lt quiet no_read no_sent calm =
      Ensures-mono (λ r. Steps (label e) w r.1 × Untouched i w r.1) _
        (λ r (t, same).
          let q : (r.1.session i).msg_queue ≡ (w.session i).msg_queue =
            FifoStep-queue quiet (t.steps i lt) in
          rw (no_read, no_sent)
            (append-nil _ ∙ sym (ap (texts r.1) q ∙ texts-same w r.1 (w.session i).msg_queue same)))
        (handle e w) (Ensures-and _ _ (handle e w) (handle-Steps e w sane en) calm)
