-- ===== src/Ownership/Broadcast.antt =====
-- One round of the loop of write_to_all (asio_test/connection.cpp): a session gets a copy of the
-- message in a buffer of its own.
pub mod Every
use asio_tcp.Base.{
  ℕ, suc, ◌+◌, ◌<◌, ◌≤◌, ◌≡◌, ◌≢◌, refl, sym, ap, ◌∙◌, subst, true, false, Option, none, some, List,
  [], ◌∷◌, ◌++◌, ◌⊎◌, inl, inr, count, count-append, length, take, take-length, length-take, arith,
  Ensures, Ensures-mono, Ensures-value, Ensures-and, Ensures-eq, leb, Bool-cases, weight-le-total,
  ℕ_discrete,
}
use asio_tcp.Ring.{CircularBuffer}
use asio_tcp.Message.{
  Hdr, Buff, null, fixed, dynamic, ConnMsg, body, set_body_from, max_body_length, construct,
}
use asio_tcp.Message.Body.{IsValid, Stored, set_body_from-Stored}
use asio_tcp.World.{World, Session, Heap, ◌>>◌, ◌>>=◌, pure, get, of_option}
use asio_tcp.World.Steps.{bind-Ensures}
use asio_tcp.Memory.{deref, assign, new_msg}
use asio_tcp.Manager.{allocate_msg_buffer, allocate_locked, buffer_empty, take_front}
use asio_tcp.Manager.Connections.{Ascends, count-below}
use asio_tcp.Session.{fill, write, copy_one, copy_to, write_to_all}
use asio_tcp.Ownership.{queued, pooled, Inv}
use asio_tcp.Ownership.Memory.{held-live}
use asio_tcp.Ownership.Pool.{Kept, Allocated, allocate-Allocated}
use asio_tcp.Ownership.Queue.{Became, Moved, Moved-eq, Leaves, written, write-Inv, sending}
use asio_tcp.Ownership.Steady.{Steady, allocate-Steady}
use asio_tcp.Ownership.Receive.{Filled, fill-Filled, body-not_null, Became-after}

module _ ⦃cb : CircularBuffer⦄ where
  -- What `write_to_all` does for one session.
  pub record Copied (msg : ℕ) (held : List ℕ) (h : Hdr) (bytes : List ℕ) (i : ℕ) (w v : World)
      : Type 0 where
    pub inv : Inv (msg ∷ held) v
    pub at : ℕ
    pub copy : ConnMsg
    pub alive : v.heap.cell at ≡ some copy
    pub kept : body copy ≡ some bytes
    pub named : max_body_length < h.len → copy.header ≡ record h { len = length bytes }
    pub became : Became i (written at (w.session i)) w v
    pub steady : Steady (msg ∷ held) w v

  pub length-body :
      (m : ConnMsg) (bytes : List ℕ) → body m ≡ some bytes → length bytes ≡ m.header.len
  unfolding body
  length-body m bytes e = by_buff m.buff refl
    where
      by_buff : (b : Buff) → m.buff ≡ b → length bytes ≡ m.header.len
      by_buff null h = ground arith
      by_buff fixed h = ground (arith, length-take m.header.len m.buff_fix)
      by_buff (dynamic there) h = ground (arith, length-take m.header.len there)

  module _ (msg : ℕ) {held : List ℕ} (m : ConnMsg) (bytes : List ℕ) (full : body m ≡ some bytes)
      (h : Hdr) (i : ℕ) (w : World) (inv : Inv (msg ∷ held) w) (alive : w.heap.cell msg ≡ some m)
      (lt : i < w.created) where
    copied_body :
        (old : ConnMsg)
        → IsValid old
        → Ensures (Stored bytes old) (set_body_from bytes m.header.len old)
    copied_body old v =
        subst (λ src. Ensures (Stored src old) (set_body_from bytes m.header.len old)) whole
          (set_body_from-Stored bytes m.header.len old v (omega (arith, length-body m bytes full)))
      where
        whole : take m.header.len bytes ≡ bytes
        whole = ap (λ n. take n bytes) (sym (length-body m bytes full)) ∙ take-length bytes

    -- Over 256 bytes the buffer is not from the pool.
    new_if_large :
        (p : ℕ) (u : World) (f : Filled (msg ∷ held) h bytes w p u)
        → max_body_length < h.len
        → f.old ≡ construct h
    new_if_large p u f large = elim f.source [
      | inl (new, _) ↦ new
      | inr (_, _, fits, _) ↦ absurd (omega (arith, fits, large))
    ]

    -- The copy is in the buffer `p`, and is written to the session.
    copy_written :
        (p : ℕ) (u : World)
        → Filled (msg ∷ held) h bytes w p u
        → Ensures (λ r. Copied msg held h bytes i w r.1) (write i p u)
    unfolding construct
    copy_written p u f =
        Ensures-mono (Leaves (msg ∷ held) i (written p (u.session i)) u)
          (λ r. Copied msg held h bytes i w r.1) left (write i p u)
          (write-Inv i p f.inv (rw f.kept.created lt) f.msg f.alive
            (body-not_null f.msg bytes f.stored.kept))
      where
        left :
            (r : (Unit {0}) × World)
            → Leaves (msg ∷ held) i (written p (u.session i)) u r
            → Copied msg held h bytes i w r.1
        left r moved = record {
          inv = moved.0;
          at = p;
          copy = f.msg;
          alive = ap (λ (k : Heap). k.cell p) moved.2 ∙ f.alive;
          kept = f.stored.kept;
          named = λ large.
              f.stored.renamed
              ∙ ap (λ (c : ConnMsg). record (c.header) { len = length bytes })
                  (new_if_large p u f large);
          became =
              Became-after i _ w u r.1 f.kept
                (Moved-eq (ap (λ (g : ℕ → Session). written p (g i)) f.kept.session) moved).1;
          steady = λ q n e there. ap (λ (k : Heap). k.cell q) moved.2 ∙ f.steady q n e there;
        }

    pub copy_one-Copied : Ensures (λ r. Copied msg held h bytes i w r.1) (copy_one msg h i w)
    unfolding copy_one deref
    copy_one-Copied =
        bind-Ensures (λ r. Allocated (msg ∷ held) h w r × Steady (msg ∷ held) w r.1)
          (λ r. Copied msg held h bytes i w r.1) (allocate_msg_buffer h) _ w
          (Ensures-and _ _ _ (allocate-Allocated inv h) (allocate-Steady w inv h))
          λ p v got.
            rw (got.1 msg m (inl (ground arith)) alive, full, Ensures)
              (bind-Ensures (λ r. Filled (msg ∷ held) h bytes w p r.1)
                (λ r. Copied msg held h bytes i w r.1) (fill p (set_body_from bytes m.header.len))
                (λ _. write i p) v (fill-Filled h bytes _ copied_body p v got)
                λ _ u f. copy_written p u f)
