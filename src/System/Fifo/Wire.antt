-- ===== src/System/Fifo/Wire.antt =====
-- The bytes that a session (asio_test) writes along a run of the server, as the client reads them.
use asio_tcp.Base.{
  ℕ, ◌<◌, ◌≡◌, ◌≢◌, refl, sym, ap, ap₂, ◌∙◌, none, some, List, [], ◌∷◌, ◌++◌, map, map-append,
  append_assoc, append-nil, inl, inr, ◌⊎◌, arith,
}
use asio_tcp.Ring.{CircularBuffer}
use asio_tcp.Message.{body}
use asio_tcp.World.{World, WriteOp, write_body}
use asio_tcp.Client.{Layout}
use asio_tcp.Client.Round.{Package, stream}
use asio_tcp.Ownership.Queue.{queue-live}
use asio_tcp.Ownership.Send.{IsValid-body}
use asio_tcp.Ownership.Broadcast.{length-body}
use asio_tcp.System.{Sane}
use asio_tcp.System.Fifo.{
  in_body, first_part, Label, nothing, queued_one, header_out, body_out, cut_off, fifo, Fifo,
  FifoStep, stay, push, header_done, body_done, broken_header, broken_body,
}
use asio_tcp.System.Fifo.Texts.{Text, text, on_wire, Untouched}
use asio_tcp.System.Fifo.Parts.{
  PartOf, PartOf-first, head_bytes, body_bytes, in_front, bytes_of, body_in_process,
  FifoStep-PartOf,
}

-- The front is the only one that a finished frame takes.
pub FifoStep-body_out :
    {l : Label} {f g : Fifo}
    → FifoStep l f g
    → l ≡ body_out
    → (p : ℕ) × (f.queue ≡ p ∷ g.queue) × (f.phase ≡ in_body) × (g.phase ≡ first_part g.queue)
FifoStep-body_out stay e = absurd (cc e)
FifoStep-body_out (push ps ph p) e = absurd (cc e)
FifoStep-body_out (header_done p ps) e = absurd (cc e)
FifoStep-body_out (body_done p ps) e = (p, refl, refl, refl)
FifoStep-body_out (broken_header p ps) e = absurd (cc e)
FifoStep-body_out (broken_body p ps) e = absurd (cc e)

is_body_out : (l : Label) → (l ≡ body_out) ⊎ (l ≢ body_out)
is_body_out nothing = inr (λ e. absurd (cc e))
is_body_out queued_one = inr (λ e. absurd (cc e))
is_body_out header_out = inr (λ e. absurd (cc e))
is_body_out body_out = inl refl
is_body_out cut_off = inr (λ e. absurd (cc e))

module _ ⦃layout : Layout⦄ where
  stream-snoc :
      (ps : List Package) (p : Package)
      → stream (ps ++ p ∷ []) ≡ stream ps ++ (layout.to_bytes p.head ++ p.content)
  stream-snoc [] p = ap (layout.to_bytes p.head ++◌) (append-nil p.content)
  stream-snoc (q ∷ ps) p =
      ap (λ xs. layout.to_bytes q.head ++ (q.content ++ xs)) (stream-snoc ps p)
      ∙ sym (
          append_assoc (layout.to_bytes q.head) (q.content ++ stream ps) _
          ∙ ap (layout.to_bytes q.head ++◌) (append_assoc q.content (stream ps) _))

  abbrev pub contents : List Package → List Text
  contents ps = map (λ (p : Package). some p.content) ps

  module _ ⦃cb : CircularBuffer⦄ where
    -- The bytes are whole frames, each a header with the length of its body and then the body, and
    -- then what was written of the message in front.
    pub record Framed (i : ℕ) (w : World) (bytes : List ℕ) (sent : List Text) : Type 0 where
      pub packages : List Package
      pub part : List ℕ
      pub whole : bytes ≡ stream packages ++ part
      pub same : contents packages ≡ sent
      pub partial : PartOf (head_bytes w) (fifo (w.session i)).phase (fifo (w.session i)).queue part

    abbrev pub texts_of : Label → World → List WriteOp → List Text
    texts_of body_out w ws = on_wire w ws
    texts_of _ w ws = []

    no_text : (l : Label) (w : World) (ws : List WriteOp) → l ≢ body_out → texts_of l w ws ≡ []
    no_text nothing w ws ne = refl
    no_text queued_one w ws ne = refl
    no_text header_out w ws ne = refl
    no_text body_out w ws ne = absurd (ne refl)
    no_text cut_off w ws ne = refl

    module _ (i : ℕ) (w w' : World) (sane : Sane w) (lt : i < w.created) (bytes : List ℕ)
        (sent : List Text) (before : Framed i w bytes sent) where
      abbrev writes : List WriteOp
      writes = (w.session i).socket.writes

      open before use {packages, part, whole, same, partial}

      unfinished :
          (l : Label)
          → FifoStep l (fifo (w.session i)) (fifo (w'.session i))
          → l ≢ body_out
          → Untouched i w w'
          → Framed i w' (bytes ++ bytes_of l w writes) (sent ++ texts_of l w writes)
      unfinished l step ne kept = record {
        packages = packages;
        part = part ++ bytes_of l w writes;
        whole = ap (◌++ bytes_of l w writes) whole ∙ append_assoc (stream packages) part _;
        same = rw (no_text l w writes ne) (same ∙ sym (append-nil sent));
        partial =
            FifoStep-PartOf w w' writes part step ne (sane.orderly i lt).writing refl
              (λ q pos.
                ap (λ o. elim o [ none ↦ [] | some m ↦ layout.to_bytes m.header ]) (kept q pos))
              partial;
      }

      finished :
          FifoStep body_out (fifo (w.session i)) (fifo (w'.session i))
          → Framed i w' (bytes ++ bytes_of body_out w writes) (sent ++ texts_of body_out w writes)
      finished step =
          let (p, front, ph, after) = FifoStep-body_out step refl in
          let (m, alive) = queue-live i sane.inv lt p (w'.session i).msg_queue front in
          let (bs, there) =
            IsValid-body m (sane.inv.valid p m alive)
              (sane.inv.filled i p m lt (ground (arith, front)) alive) in
          let op : writes ≡ write_body p ∷ [] =
            body_in_process p (w'.session i).msg_queue writes
              (rw front at (sane.orderly i lt).writing) ph in
          let begun : part ≡ head_bytes w p = rw (ph, front) at partial in
          let frame : Package = record {
            head = m.header;
            content = bs;
            sized = length-body m bs there;
          } in
          let head_there : head_bytes w p ≡ layout.to_bytes m.header =
            ap (λ o. elim o [ none ↦ [] | some m ↦ layout.to_bytes m.header ]) alive in
          let text_there : text w p ≡ some bs =
            ap (λ o. elim o [ none ↦ none | some m ↦ body m ]) alive ∙ there in
          let body_there : body_bytes w p ≡ bs =
            ap (λ o. elim o [ none ↦ [] | some bytes ↦ bytes ]) text_there in
          record {
            packages = packages ++ frame ∷ [];
            part = [];
            whole =
                ap₂ ◌++◌ whole (ap (in_front w) op ∙ body_there)
                ∙ append_assoc (stream packages) part bs
                ∙ ap (λ xs. stream packages ++ (xs ++ bs)) (begun ∙ head_there)
                ∙ sym (stream-snoc packages frame)
                ∙ sym (append-nil _);
            same =
                map-append (λ (p : Package). some p.content) packages (frame ∷ [])
                ∙ ap₂ ◌++◌ same (sym (ap (on_wire w) op ∙ ap (◌∷ []) text_there));
            partial = rw after (PartOf-first (head_bytes w') (w'.session i).msg_queue);
          }

      pub step-Framed :
          (l : Label)
          → FifoStep l (fifo (w.session i)) (fifo (w'.session i))
          → (l ≢ body_out → Untouched i w w')
          → Framed i w' (bytes ++ bytes_of l w writes) (sent ++ texts_of l w writes)
      step-Framed l step kept = elim (is_body_out l) [
        | inl e ↦ rw e (finished (rw e at step))
        | inr ne ↦ unfinished l step ne (kept ne)
      ]
