-- ===== src/Ownership/Pool.antt =====
-- Ownership across allocate_msg_buffer and dellocate_msg_buffer.
use asio_tcp.Base.{
  ℕ, ◌≤◌, ◌<◌, ◌≡◌, refl, sym, ap, ◌∙◌, true, false, some, List, [], ◌∷◌, ◌++◌, ◌⊎◌, inl, inr,
  count-append, length, Ensures, Ensures-mono, arith, leb, ◌==◌, leb→le, Bool-cases,
}
use asio_tcp.Ring.{CircularBuffer, is_empty-nil}
use asio_tcp.Message.{
  Hdr, Buff, null, fixed, dynamic, ConnMsg, construct, capacity, max_body_length,
}
use asio_tcp.Message.Body.{IsValid}
use asio_tcp.World.{World, Manager}
use asio_tcp.Memory.{new_msg, deref, delete}
use asio_tcp.Manager.{
  take_front, put_back, allocate_locked, allocate_msg_buffer, dellocate_locked,
  dellocate_msg_buffer,
}
use asio_tcp.Ownership.{Inv}
use asio_tcp.Ownership.Memory.{OnlyHeap, new_msg-Inv, delete-Inv, held-live}

-- A valid message of the standard capacity holds no array.
pub capacity-bare :
    (m : ConnMsg) → IsValid m → (capacity m == max_body_length) ≡ true → m.size_allocated ≡ 0
capacity-bare m v = by_buff m.buff refl
  where
    by_buff :
        (b : Buff) → m.buff ≡ b → (capacity m == max_body_length) ≡ true → m.size_allocated ≡ 0
    by_buff null e h = ground arith
    by_buff fixed e h = ground arith
    by_buff (dynamic bytes) e h = ground arith

module _ ⦃cb : CircularBuffer⦄ where
  -- The sessions, the acceptor and the set of connections stay as they were.
  pub record Kept (w w' : World) : Type 0 where
    pub connection_list : w'.mgr.connection_list ≡ w.mgr.connection_list
    pub max_conn : w'.mgr.max_conn ≡ w.mgr.max_conn
    pub session : w'.session ≡ w.session
    pub created : w'.created ≡ w.created
    pub server : w'.server ≡ w.server

  pub OnlyHeap-Kept : (w w' : World) → OnlyHeap w w' → Kept w w'
  OnlyHeap-Kept w w' o = record {
    connection_list = ap (λ (m : Manager). m.connection_list) o.mgr;
    max_conn = ap (λ (m : Manager). m.max_conn) o.mgr;
    session = o.session;
    created = o.created;
    server = o.server;
  }

  -- What an allocation hands out: a new message if the pool is empty or the body is long, or else
  -- the front of the pool as it was left there.
  abbrev pub Source : Hdr → World → ℕ → World → Type 0
  Source h w p w' =
      ((w'.heap.cell p ≡ some (construct h))
        × ((cb.contents w.mgr.conn_msg_buffer ≡ []) ⊎ (max_body_length < h.len)))
      ⊎ ((ps : List ℕ) × (cb.contents w.mgr.conn_msg_buffer ≡ p ∷ ps)
          × (h.len ≤ max_body_length)
          × (w'.heap ≡ w.heap))

  abbrev pub Allocated : List ℕ → Hdr → World → ℕ × World → Type 0
  Allocated held h w r = Inv (r.0 ∷ held) r.1 × Source h w r.0 r.1 × Kept w r.1

  module _ {held : List ℕ} {w : World} (inv : Inv held w) where
    open inv use {started, null_dead, fresh, owned, valid, small, filled, limit}

    new_msg-Allocated :
        (h : Hdr)
        → (cb.contents w.mgr.conn_msg_buffer ≡ []) ⊎ (max_body_length < h.len)
        → Ensures (Allocated held h w) (new_msg h w)
    new_msg-Allocated h why =
        Ensures-mono _ (Allocated held h w) (λ r a. (a.0, inl (a.1, why), OnlyHeap-Kept w r.1 a.2))
          _ (new_msg-Inv inv h)

    pub take_front-Inv :
        (p : ℕ) (ps : List ℕ)
        → cb.contents w.mgr.conn_msg_buffer ≡ p ∷ ps
        → Ensures
            (λ r. (r.0 ≡ p) × Inv (r.0 ∷ held) r.1 × Kept w r.1 × (r.1.heap ≡ w.heap))
            (take_front w)
    unfolding take_front
    take_front-Inv p ps e =
        let front : cb.front w.mgr.conn_msg_buffer ≡ p = cb.front_lem _ p ps e in
        let rest : cb.contents (cb.pop_front w.mgr.conn_msg_buffer) ≡ ps =
          cb.contents-pop_front _ p ps e in
        (
          front,
          record {
            started = started;
            null_dead = null_dead;
            fresh = fresh;
            owned = λ q. ground (arith, owned q, front, rest, e);
            valid = valid;
            small = λ q m pos. ground (arith, small q m, rest, e);
            filled = filled;
            limit = cb.limit-pop_front _ ∙ limit;
          },
          record {
            connection_list = refl;
            max_conn = refl;
            session = refl;
            created = refl;
            server = refl;
          },
          refl,
        )

    take_front-Allocated :
        (h : Hdr) (p : ℕ) (ps : List ℕ)
        → cb.contents w.mgr.conn_msg_buffer ≡ p ∷ ps
        → h.len ≤ max_body_length
        → Ensures (Allocated held h w) (take_front w)
    take_front-Allocated h p ps e fits =
        Ensures-mono (λ r. (r.0 ≡ p) × Inv (r.0 ∷ held) r.1 × Kept w r.1 × (r.1.heap ≡ w.heap))
          (Allocated held h w)
          (λ r (front, inv', kept, same).
            (inv', inr (ps, ground (arith, front, e), fits, same), kept))
          (take_front w) (take_front-Inv p ps e)

    allocate_locked-Allocated :
        (h : Hdr) → h.len ≤ max_body_length → Ensures (Allocated held h w) (allocate_locked h w)
    unfolding allocate_locked
    allocate_locked-Allocated h fits = by_contents (cb.contents w.mgr.conn_msg_buffer) refl
      where
        by_contents :
            (ps : List ℕ)
            → cb.contents w.mgr.conn_msg_buffer ≡ ps
            → Ensures (Allocated held h w) (allocate_locked h w)
        by_contents [] e =
            rw (cb.empty_lem w.mgr.conn_msg_buffer, e, Ensures) (new_msg-Allocated h (inl e))
        by_contents (p ∷ ps) e =
            rw (cb.empty_lem w.mgr.conn_msg_buffer, e, Ensures) (take_front-Allocated h p ps e fits)

    -- In a state with sound ownership an allocation does not fault, and the buffer that it hands out is
    -- owned by the caller alone: a new one, or the front of the pool.
    pub allocate-Allocated : (h : Hdr) → Ensures (Allocated held h w) (allocate_msg_buffer h w)
    unfolding allocate_msg_buffer
    allocate-Allocated h = elim (Bool-cases (leb h.len max_body_length)) [
      | inl fits ↦ elim (Bool-cases (cb.empty w.mgr.conn_msg_buffer)) [
        | inl e ↦
            rw (fits, e) (new_msg-Allocated h (inl (is_empty-nil _ (sym (cb.empty_lem _) ∙ e))))
        | inr e ↦ rw (fits, e) (allocate_locked-Allocated h (leb→le _ _ fits))
      ]
      | inr big ↦ rw big (new_msg-Allocated h (inr (ground arith)))
    ]

  -- A buffer in hand goes to the end of a pool that has room for it.
  module _ {held : List ℕ} {w : World} (p : ℕ) (inv : Inv (p ∷ held) w) where
    open inv use {started, null_dead, fresh, owned, valid, small, filled, limit}

    pub put_back-Inv :
        (m : ConnMsg)
        → w.heap.cell p ≡ some m
        → m.size_allocated ≡ 0
        → cb.full w.mgr.conn_msg_buffer ≡ false
        → Ensures (λ r. Inv held r.1 × Kept w r.1) (put_back p w)
    unfolding put_back
    put_back-Inv m alive bare room =
        let there : length (cb.contents w.mgr.conn_msg_buffer) < cb.limit w.mgr.conn_msg_buffer =
          ground (arith, cb.full_lem w.mgr.conn_msg_buffer) in
        let added : cb.contents (cb.push_back w.mgr.conn_msg_buffer p)
            ≡ cb.contents w.mgr.conn_msg_buffer ++ p ∷ [] =
          cb.contents-push_back _ p there in
        (
          record {
            started = started;
            null_dead = null_dead;
            fresh = fresh;
            owned = λ q. ground (
              arith,
              owned q,
              added,
              count-append q (cb.contents w.mgr.conn_msg_buffer) (p ∷ []),
            );
            valid = valid;
            small = λ q m' pos. ground (
              arith,
              small q m',
              added,
              count-append q (cb.contents w.mgr.conn_msg_buffer) (p ∷ []),
            );
            filled = filled;
            limit = cb.limit-push_back _ p ∙ limit;
          },
          record {
            connection_list = refl;
            max_conn = refl;
            session = refl;
            created = refl;
            server = refl;
          },
        )

    delete-Kept : Ensures (λ r. Inv held r.1 × Kept w r.1) (delete p w)
    delete-Kept =
        Ensures-mono _ (λ r. Inv held r.1 × Kept w r.1) (λ r d. (d.0, OnlyHeap-Kept w r.1 d.1)) _
          (delete-Inv p inv)

    dellocate_locked-Inv :
        (m : ConnMsg)
        → w.heap.cell p ≡ some m
        → m.size_allocated ≡ 0
        → Ensures (λ r. Inv held r.1 × Kept w r.1) (dellocate_locked p w)
    unfolding dellocate_locked
    dellocate_locked-Inv m alive bare = elim (Bool-cases (cb.full w.mgr.conn_msg_buffer)) [
      | inl full ↦ rw full delete-Kept
      | inr room ↦ rw room (put_back-Inv m alive bare room)
    ]

    -- A buffer given back does not fault; it goes to the pool or is freed, and is the caller's no more.
    pub dellocate-Inv : Ensures (λ r. Inv held r.1 × Kept w r.1) (dellocate_msg_buffer p w)
    unfolding dellocate_msg_buffer deref
    dellocate-Inv =
        let (m, alive) = held-live p inv in
        rw (alive, Ensures)
          (elim (Bool-cases (capacity m == max_body_length)) [
            | inl pooled_size ↦ elim (Bool-cases (cb.full w.mgr.conn_msg_buffer)) [
              | inl full ↦ rw (pooled_size, full) delete-Kept
              | inr room ↦
                  rw (pooled_size, room)
                    (dellocate_locked-Inv m alive (capacity-bare m (valid p m alive) pooled_size))
            ]
            | inr other_size ↦ rw other_size delete-Kept
          ])
