-- ===== src/System/Fifo/Bodies.antt =====
-- A session (asio_test) that has read a body: which bodies wait then.
use asio_tcp.Base.{
  ℕ, ◌<◌, ◌≡◌, refl, sym, ap, ap₂, subst, ◌∙◌, false, none, some, List, [], ◌∷◌, ◌++◌, map-append,
  count, Ensures, Ensures-mono, inl, inr, ℕ_discrete, ==_iff,
}
use asio_tcp.Ring.{CircularBuffer}
use asio_tcp.Message.{ConnMsg, body}
use asio_tcp.World.{Session, World, ReadOp, read_header, read_body, set_session}
use asio_tcp.World.Steps.{bind-Ensures}
use asio_tcp.Session.{start_read, do_read, process_msg, handler_read_body}
use asio_tcp.Ownership.{queued}
use asio_tcp.Ownership.Queue.{Became, Moved, change-Inv, queue-written}
use asio_tcp.Ownership.Receive.{Received, process_msg-Received}
use asio_tcp.System.{body_arrived, handle, Enabled, body_in, Reading, Sane}
use asio_tcp.System.Fifo.{label}
use asio_tcp.System.Fifo.Moves.{differ}
use asio_tcp.System.Fifo.Texts.{
  text, texts, Carried, Untouched, texts-same, queued-live, quiet-Carried,
}

-- Nothing is in the stream buffer while a body is read.
no_bytes :
    (s : Session) (n : ℕ) (rest : List ReadOp)
    → Reading s
    → s.socket.reads ≡ read_body n ∷ rest
    → s.buf ≡ []
no_bytes s n rest (inl none_reads) e = absurd (cc (none_reads, e))
no_bytes s n rest (inr (inl (one, empty))) e = empty
no_bytes s n rest (inr (inr (one, empty))) e = empty

module _ ⦃cb : CircularBuffer⦄ where
  -- A body was read: session `k` has a message with it at the end of its queue.
  record Pushed (k : ℕ) (bytes : List ℕ) (w w' : World) : Type 0 where
    at : ℕ
    msg : ConnMsg
    alive : w'.heap.cell at ≡ some msg
    holds : body msg ≡ some bytes
    queue : (w'.session k).msg_queue ≡ (w.session k).msg_queue ++ at ∷ []
    untouched : (i : ℕ) → i < w.created → Untouched i w w'

  module _ (k : ℕ) (w : World) (sane : Sane w) (lt : k < w.created) where
    queue_kept :
        (x : World) (s : Session) (i q : ℕ)
        → Became k s w x
        → s.msg_queue ≡ (w.session k).msg_queue
        → queued q (x.session i) ≡ queued q (w.session i)
    queue_kept x s i q b same = elim (ℕ_discrete k i) [
      | yes e ↦
          subst (λ j. queued q (x.session j) ≡ queued q (w.session j)) e
            (ap (queued q) b.here ∙ ap (count q) same)
      | no ne ↦ ap (queued q) (b.others i ne)
    ]

    arrived-Pushed :
        (bytes : List ℕ)
        → Enabled (body_arrived k false bytes) w
        → Ensures (λ r. Pushed k bytes w r.1) (handle (body_arrived k false bytes) w)
    unfolding handle handler_read_body do_read
    arrived-Pushed bytes (n, rest, e, _, _) =
        bind-Ensures (λ r. Received [] k x r.1) (λ r. Pushed k bytes w r.1) (process_msg k)
          (λ _. do_read k) x (process_msg-Received k first.0 lt)
          λ _ y d.
            let again = change-Inv k d.inv (rw d.became.created lt) (start_read read_header) refl in
            record {
              at = d.at;
              msg = d.msg;
              alive = d.alive;
              holds =
                  d.stored.kept
                  ∙ ap some (
                      ap (λ (s : Session). s.buf) first.1.here
                      ∙ ap (◌++ bytes)
                          (no_bytes (w.session k) n rest (sane.orderly k lt).reading e));
              queue =
                  ap (λ (s : Session). s.msg_queue)
                    (again.1.here ∙ ap (start_read read_header) d.became.here)
                  ∙ queue-written d.at _
                  ∙ ap (λ (s : Session). s.msg_queue ++ d.at ∷ []) first.1.here;
              untouched = λ i below q pos.
                  let (m, there) = queued-live w sane.inv i q below pos in
                  d.steady q m (inr (i, below, rw (queue_kept x _ i q first.1 refl) pos)) there
                  ∙ sym there;
            }
      where
        x : World
        x = set_session k (body_in bytes (w.session k)) w

        first : Moved [] k (body_in bytes (w.session k)) w x
        first = change-Inv k sane.inv lt (body_in bytes) refl

    pub body_arrived-Untouched :
        (bytes : List ℕ)
        → (en : Enabled (body_arrived k false bytes) w) → (i : ℕ) → i < w.created
        → Ensures (λ r. Untouched i w r.1) (handle (body_arrived k false bytes) w)
    body_arrived-Untouched bytes en i below =
        Ensures-mono (λ r. Pushed k bytes w r.1) (λ r. Untouched i w r.1)
          (λ r d. d.untouched i below) (handle (body_arrived k false bytes) w)
          (arrived-Pushed bytes en)

    Pushed-Carried :
        (bytes : List ℕ) (w' : World)
        → Pushed k bytes w w'
        → Carried (body_arrived k false bytes) w w' k
    Pushed-Carried bytes w' d = rw ((==_iff k k).1 refl) (
        sym (
          ap (texts w') d.queue
          ∙ map-append (text w') (w.session k).msg_queue (d.at ∷ [])
          ∙ ap₂ ◌++◌ (texts-same w w' (w.session k).msg_queue (d.untouched k lt))
              (ap (◌∷ []) (ap (λ o. elim o [ none ↦ none | some m ↦ body m ]) d.alive ∙ d.holds))))

    pub body_arrived-Carried :
        (bytes : List ℕ)
        → (en : Enabled (body_arrived k false bytes) w) → (i : ℕ) → i < w.created
        → Ensures
            (λ r. Carried (body_arrived k false bytes) w r.1 i)
            (handle (body_arrived k false bytes) w)
    unfolding label
    body_arrived-Carried bytes en i below = elim (ℕ_discrete k i) [
      | yes same ↦
          subst
            (λ j.
              Ensures (λ r. Carried (body_arrived k false bytes) w r.1 j)
                (handle (body_arrived k false bytes) w))
            same
            (Ensures-mono (λ r. Pushed k bytes w r.1) _ (λ r d. Pushed-Carried bytes r.1 d)
              (handle (body_arrived k false bytes) w) (arrived-Pushed bytes en))
      | no ne ↦
          quiet-Carried (body_arrived k false bytes) w i sane en below (rw (differ k i ne) tt)
            (rw (differ k i ne) refl) refl (body_arrived-Untouched bytes en i below)
    ]
