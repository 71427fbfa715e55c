-- ===== src/Ownership/Broadcast/Every.antt =====
-- write_to_all (asio_test/connection.cpp): each connected session gets a copy of the message.
use asio_tcp.Base.{
  ℕ, suc, ◌<◌, ◌≡◌, refl, sym, ap, ◌∙◌, subst, some, List, [], ◌∷◌, ◌++◌, inl, inr, count,
  count-append, length, arith, Ensures, Ensures-mono, ℕ_discrete,
}
use asio_tcp.Ring.{CircularBuffer}
use asio_tcp.Message.{Hdr, ConnMsg, body, max_body_length}
use asio_tcp.World.{World, Session}
use asio_tcp.World.Steps.{bind-Ensures}
use asio_tcp.Memory.{deref}
use asio_tcp.Manager.Connections.{Ascends, count-below}
use asio_tcp.Session.{copy_one, copy_to, write_to_all}
use asio_tcp.Ownership.{queued, Inv}
use asio_tcp.Ownership.Queue.{queue-written}
use asio_tcp.Ownership.Steady.{Elsewhere, Steady}
use asio_tcp.Ownership.Broadcast.{Copied, copy_one-Copied}

module _ ⦃cb : CircularBuffer⦄ where
  -- Session `i` has one message more, at the end of its queue, with the body `bytes`, and over 256
  -- bytes with the header `h`.
  abbrev pub Delivered : Hdr → List ℕ → ℕ → World → World → Type 0
  Delivered h bytes i w v =
      (p : ℕ) × (copy : ConnMsg) × ((v.session i).msg_queue ≡ (w.session i).msg_queue ++ p ∷ [])
      × (v.heap.cell p ≡ some copy)
      × (body copy ≡ some bytes)
      × (max_body_length < h.len → copy.header ≡ record h { len = length bytes })

  pub record Broadcast (msg : ℕ) (held : List ℕ) (h : Hdr) (bytes : List ℕ) (is : List ℕ)
      (w v : World) : Type 0 where
    pub inv : Inv (msg ∷ held) v
    pub connection_list : v.mgr.connection_list ≡ w.mgr.connection_list
    pub created : v.created ≡ w.created
    pub server : v.server ≡ w.server
    pub steady : Steady (msg ∷ held) w v
    pub sent : (i : ℕ) → 0 < count i is → Delivered h bytes i w v
    pub others : (i : ℕ) → count i is ≡ 0 → v.session i ≡ w.session i

  module _ (msg : ℕ) {held : List ℕ} (h : Hdr) (bytes : List ℕ) (i : ℕ) (is : List ℕ)
      (w v u : World) (lt : i < w.created) (once : count i is ≡ 0)
      (one : Copied msg held h bytes i w v) (rest : Broadcast msg held h bytes is v u) where
    queue : (v.session i).msg_queue ≡ (w.session i).msg_queue ++ one.at ∷ []
    queue = ap (λ (s : Session). s.msg_queue) one.became.here ∙ queue-written one.at (w.session i)

    Elsewhere-after : (q : ℕ) → Elsewhere (msg ∷ held) q w → Elsewhere (msg ∷ held) q v
    Elsewhere-after q (inl pos) = inl pos
    Elsewhere-after q (inr (j, below, pos)) = inr (
      j,
      rw one.became.created below,
      elim (ℕ_discrete i j) [
        | yes same ↦
            subst (λ k. 0 < queued q (v.session k)) same
              (omega (
                arith,
                ap (count q) queue,
                count-append q (w.session i).msg_queue (one.at ∷ []),
                subst (λ k. 0 < queued q (w.session k)) (sym same) pos,
              ))
        | no ne ↦ rw (one.became.others j ne) pos
      ],
    )

    sent_after : (j : ℕ) → 0 < count j (i ∷ is) → Delivered h bytes j w u
    sent_after j pos = elim (ℕ_discrete i j) [
      | yes same ↦
          subst (λ k. Delivered h bytes k w u) same
            (
              one.at,
              one.copy,
              ap (λ (s : Session). s.msg_queue) (rest.others i once) ∙ queue,
              rest.steady one.at one.copy (inr (i, rw one.became.created lt, put)) one.alive,
              one.kept,
              one.named,
            )
      | no ne ↦
          let (p, copy, at_end, alive, kept, named) = rest.sent j (ground arith) in
          (
            p,
            copy,
            at_end ∙ ap (λ (s : Session). s.msg_queue ++ p ∷ []) (one.became.others j ne),
            alive,
            kept,
            named,
          )
    ]
      where
        put : 0 < queued one.at (v.session i)
        put = ground (
          arith,
          ap (count one.at) queue,
          count-append one.at (w.session i).msg_queue (one.at ∷ []),
        )

    Broadcast-cons : Broadcast msg held h bytes (i ∷ is) w u
    Broadcast-cons = record {
      inv = rest.inv;
      connection_list = rest.connection_list ∙ one.became.connection_list;
      created = rest.created ∙ one.became.created;
      server = rest.server ∙ one.became.server;
      steady = λ q m e alive. rest.steady q m (Elsewhere-after q e) (one.steady q m e alive);
      sent = sent_after;
      others = λ j none_of. rest.others j (ground arith) ∙ one.became.others j (ground arith);
    }

  module _ (msg : ℕ) {held : List ℕ} (m : ConnMsg) (bytes : List ℕ) (full : body m ≡ some bytes)
      (h : Hdr) where
    copy_to-Broadcast :
        (n : ℕ) (is : List ℕ) (w : World)
        → Inv (msg ∷ held) w
        → w.heap.cell msg ≡ some m
        → Ascends n is
        → ((i : ℕ) → 0 < count i is → i < w.created)
        → Ensures (λ r. Broadcast msg held h bytes is w r.1) (copy_to msg h is w)
    unfolding copy_to
    copy_to-Broadcast n [] w inv alive up known = record {
      inv = inv;
      connection_list = refl;
      created = refl;
      server = refl;
      steady = λ q c e there. there;
      sent = λ i pos. absurd (omega arith);
      others = λ i none_of. refl;
    }
    copy_to-Broadcast n (i ∷ is) w inv alive up known =
        bind-Ensures (λ r. Copied msg held h bytes i w r.1)
          (λ r. Broadcast msg held h bytes (i ∷ is) w r.1) (copy_one msg h i)
          (λ _. copy_to msg h is) w (copy_one-Copied msg m bytes full h i w inv alive lt)
          λ _ v one.
            Ensures-mono (λ r. Broadcast msg held h bytes is v r.1)
              (λ r. Broadcast msg held h bytes (i ∷ is) w r.1)
              (λ r rest.
                Broadcast-cons msg h bytes i is w v r.1 lt
                  (count-below i (suc i) is up.1 (omega arith)) one rest)
              _
              (copy_to-Broadcast (suc i) is v one.inv (one.steady msg m (inl (ground arith)) alive)
                up.1 (λ j pos. rw one.became.created (known j (ground arith))))
      where
        lt : i < w.created
        lt = known i (ground arith)

  -- With the message in the caller's hands and its body in place, `write_to_all` does not fault: each
  -- connected session has one message more at the end of its queue, with the same body, and with the
  -- same header if the body is over 256 bytes (else the buffer may be one of the pool, which keeps the
  -- header of an earlier message), no other session changes, the message and every message in a queue stay as they are, and each buffer has one owner.
  pub write_to_all-Broadcast :
      (msg : ℕ) {held : List ℕ} (m : ConnMsg) (bytes : List ℕ) (w : World)
      → body m ≡ some bytes
      → Inv (msg ∷ held) w
      → w.heap.cell msg ≡ some m
      → Ascends 0 w.mgr.connection_list
      → ((i : ℕ) → 0 < count i w.mgr.connection_list → i < w.created)
      → Ensures
          (λ r. Broadcast msg held m.header bytes w.mgr.connection_list w r.1)
          (write_to_all msg w)
  unfolding write_to_all deref
  write_to_all-Broadcast msg m bytes w full inv alive up known =
      rw (alive, Ensures)
        (copy_to-Broadcast msg m bytes full m.header 0 w.mgr.connection_list w inv alive up known)
