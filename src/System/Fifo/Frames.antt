-- ===== src/System/Fifo/Frames.antt =====
-- The bytes that each session (asio_test) writes along a run of the server.
use asio_tcp.Base.{
  ℕ, ◌≤◌, ◌<◌, ◌≡◌, refl, sym, ap, ap₂, ◌∙◌, Bool, true, false, some, List, [], ◌++◌, ltb, le→leb,
  Bool-cases, inl, inr, arith, ltb→lt, Ensures, if◌then◌else◌, ◌==◌,
}
use asio_tcp.Ring.{CircularBuffer}
use asio_tcp.Message.{Hdr}
use asio_tcp.World.{World, WriteOp}
use asio_tcp.Server.{new_server, max_io_thread}
use asio_tcp.Client.{Layout}
use asio_tcp.System.{
  Event, header_arrived, body_arrived, header_sent, body_sent, accepted, started, stopped, handle,
  Enabled, Sane,
}
use asio_tcp.System.Run.{Reach, here, next, Reach-Sane}
use asio_tcp.System.Fifo.{label, Label, nothing, queued_one, header_out, body_out, cut_off}
use asio_tcp.System.Fifo.Moves.{Steps}
use asio_tcp.System.Fifo.Run.{handle-Steps}
use asio_tcp.System.Fifo.Delivery.{label_unborn}
use asio_tcp.System.Fifo.Texts.{on_wire, sent_at}
use asio_tcp.System.Fifo.Frame.{handle-Untouched}
use asio_tcp.System.Fifo.Echo.{sent_by}
use asio_tcp.System.Fifo.Parts.{in_front, bytes_of}
use asio_tcp.System.Fifo.Wire.{Framed, texts_of, step-Framed}

module _ ⦃layout : Layout⦄ ⦃cb : CircularBuffer⦄ where
  -- The bytes that session `i` has written with an event: those of the write in front, if it ended
  -- without an error.
  abbrev pub bytes_at : Event → World → ℕ → List ℕ
  bytes_at (header_sent k false) w i = if k == i then in_front w (w.session i).socket.writes else []
  bytes_at (body_sent k false) w i = if k == i then in_front w (w.session i).socket.writes else []
  bytes_at _ w i = []

  -- All that session `i` has written.
  abbrev pub bytes_by : ℕ → {u v : World} → Reach u v → List ℕ
  bytes_by i here = []
  bytes_by i (next {v} e r en eq) = bytes_by i r ++ bytes_at e v i

  no_write :
      (b : Bool) (l : Label) (w : World) (ws : List WriteOp)
      → bytes_of l w ws ≡ []
      → texts_of l w ws ≡ []
      → ([] ≡ bytes_of (if b then l else nothing) w ws)
        × ([] ≡ texts_of (if b then l else nothing) w ws)
  no_write true l w ws e f = (sym e, sym f)
  no_write false l w ws e f = (refl, refl)

  header_write :
      (b : Bool) (w : World) (ws : List WriteOp)
      → ((if b then in_front w ws else []) ≡ bytes_of (if b then header_out else nothing) w ws)
        × ([] ≡ texts_of (if b then header_out else nothing) w ws)
  header_write true w ws = (refl, refl)
  header_write false w ws = (refl, refl)

  body_write :
      (b : Bool) (w : World) (ws : List WriteOp)
      → ((if b then in_front w ws else []) ≡ bytes_of (if b then body_out else nothing) w ws)
        × ((if b then on_wire w ws else []) ≡ texts_of (if b then body_out else nothing) w ws)
  body_write true w ws = (refl, refl)
  body_write false w ws = (refl, refl)

  by_label :
      (e : Event) (w : World) (i : ℕ)
      → (bytes_at e w i ≡ bytes_of (label e i) w (w.session i).socket.writes)
        × (sent_at e w i ≡ texts_of (label e i) w (w.session i).socket.writes)
  unfolding label
  by_label (header_arrived k error h) w i = no_write (k == i) nothing w _ refl refl
  by_label (body_arrived k true bytes) w i = no_write (k == i) nothing w _ refl refl
  by_label (body_arrived k false bytes) w i = no_write (k == i) queued_one w _ refl refl
  by_label (header_sent k true) w i = no_write (k == i) cut_off w _ refl refl
  by_label (header_sent k false) w i = header_write (k == i) w _
  by_label (body_sent k true) w i = no_write (k == i) cut_off w _ refl refl
  by_label (body_sent k false) w i = body_write (k == i) w _
  by_label (accepted k error found h) w i = (refl, refl)
  by_label (started binds h) w i = (refl, refl)
  by_label (stopped refuses) w i = (refl, refl)

  fresh-Framed :
      (i : ℕ) (w : World) → Sane w → i < w.created → (w.session i).msg_queue ≡ [] → Framed i w [] []
  fresh-Framed i w sane lt empty =
      let idle : (w.session i).socket.writes ≡ [] = rw empty at (sane.orderly i lt).writing in
      record {
        packages = [];
        part = [];
        whole = refl;
        same = refl;
        partial = rw (empty, idle) refl;
      }

  -- Along a run: a session that was made writes frames, and one that was not has written nothing.
  pub record Frames {u v : World} (r : Reach u v) : Type 0 where
    pub frames : (i : ℕ) → i < v.created → Framed i v (bytes_by i r) (sent_by i r)
    pub unborn :
        (i : ℕ)
        → v.created ≤ i
        → (bytes_by i r ≡ []) × (sent_by i r ≡ []) × ((v.session i).msg_queue ≡ [])

  next-Frames :
      {u v w : World} (e : Event) (r : Reach u v) (en : Enabled e v)
      (eq : handle e v ≡ some (tt, w))
      → Sane v
      → Sane w
      → Frames r
      → Frames (next e r en eq)
  next-Frames {v = v} {w = w} e r en eq sane sane' t = record {
    frames = λ i lt. elim (Bool-cases (ltb i v.created)) [
      | inl old ↦ rw ((by_label e v i).0, (by_label e v i).1) (more i (ltb→lt i v.created old))
      | inr new ↦
          let (b, s, q) = still i (ground (arith, new)) in rw (b, s) (fresh-Framed i w sane' lt q)
    ];
    unborn = λ i ge. still i (omega (arith, ge, steps.grown));
  }
    where
      steps : Steps (label e) v w
      steps = let d = handle-Steps e v sane en in rw eq at d

      more :
          (i : ℕ)
          → i < v.created
          → Framed i w
              (bytes_by i r ++ bytes_of (label e i) v (v.session i).socket.writes)
              (sent_by i r ++ texts_of (label e i) v (v.session i).socket.writes)
      more i lt =
          step-Framed i v w sane lt (bytes_by i r) (sent_by i r) (t.frames i lt) (label e i)
            (steps.steps i lt) (λ ne. let d = handle-Untouched e v i sane en lt ne in rw eq at d)

      still :
          (i : ℕ)
          → v.created ≤ i
          → (bytes_by i r ++ bytes_at e v i ≡ [])
            × (sent_by i r ++ sent_at e v i ≡ [])
            × ((w.session i).msg_queue ≡ [])
      still i ge =
          let (b, s, q) = t.unborn i ge in
          let (bs, ts) = by_label e v i in
          let idle : label e i ≡ nothing = label_unborn e v i en ge in
          (
            ap₂ ◌++◌ b (bs ∙ ap (λ l. bytes_of l v (v.session i).socket.writes) idle),
            ap₂ ◌++◌ s (ts ∙ ap (λ l. texts_of l v (v.session i).socket.writes) idle),
            elim (steps.unborn i ge) [ inl same ↦ same ∙ q | inr none_left ↦ none_left ],
          )

  pub Reach-Frames :
      {u v : World}
      → Sane u
      → u.created ≡ 0
      → ((i : ℕ) → (u.session i).msg_queue ≡ [])
      → (r : Reach u v) → Frames r
  Reach-Frames sane none_made empty here = record {
    frames = λ i lt. absurd (omega (arith, lt, none_made));
    unborn = λ i ge. (refl, refl, empty i);
  }
  Reach-Frames sane none_made empty (next e r en eq) =
      next-Frames e r en eq (Reach-Sane sane r) (Reach-Sane sane (next e r en eq))
        (Reach-Frames sane none_made empty r)

  pub new_server-created :
      (max_conn threads : ℕ) (h : Hdr)
      → threads ≤ max_io_thread
      → Ensures (λ w. w.created ≡ 0) (new_server max_conn threads h)
  unfolding new_server
  new_server-created max_conn threads h few = rw (le→leb threads max_io_thread few, Ensures) refl
