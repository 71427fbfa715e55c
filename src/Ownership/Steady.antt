-- ===== src/Ownership/Steady.antt =====
-- Buffers that stay as they are while another one is handed out, filled or given back.
use asio_tcp.Base.{
  ℕ, ◌<◌, ◌≡◌, ◌≢◌, some, List, ◌∷◌, ◌⊎◌, inl, inr, count, arith, Ensures, leb, Bool-cases,
  weight-le-total, update_ne,
}
use asio_tcp.Ring.{CircularBuffer}
use asio_tcp.Message.{Hdr, ConnMsg, max_body_length}
use asio_tcp.World.{World}
use asio_tcp.Memory.{new_msg, assign}
use asio_tcp.Manager.{allocate_msg_buffer, allocate_locked}
use asio_tcp.Ownership.{queued, Inv}
use asio_tcp.Ownership.Pool.{Kept}

module _ ⦃cb : CircularBuffer⦄ where
  -- A buffer that the caller or a session owns.
  abbrev pub Elsewhere : List ℕ → ℕ → World → Type 0
  Elsewhere held q w =
      (0 < count q held) ⊎ ((j : ℕ) × (j < w.created) × (0 < queued q (w.session j)))

  abbrev pub Steady : List ℕ → World → World → Type 0
  Steady held w v =
      (q : ℕ) (m : ConnMsg) → Elsewhere held q w → w.heap.cell q ≡ some m → v.heap.cell q ≡ some m

  module _ {held : List ℕ} (w : World) (inv : Inv held w) where
    pub new_msg-Steady : (h : Hdr) → Ensures (λ r. Steady held w r.1) (new_msg h w)
    unfolding new_msg
    new_msg-Steady h = λ q m e alive. ground (arith, inv.fresh w.heap.next, alive)

    pub allocate-Steady : (h : Hdr) → Ensures (λ r. Steady held w r.1) (allocate_msg_buffer h w)
    unfolding allocate_msg_buffer allocate_locked
    allocate-Steady h = elim (Bool-cases (leb h.len max_body_length)) [
      | inl fits ↦ elim (Bool-cases (cb.empty w.mgr.conn_msg_buffer)) [
        | inl t ↦ rw (fits, t) (new_msg-Steady h)
        | inr t ↦ rw (fits, t) (rw t (λ q m e alive. alive))
      ]
      | inr big ↦ rw big (new_msg-Steady h)
    ]

  -- A buffer that was just handed out is nobody else's.
  pub not_handed_out :
      (p q : ℕ) {held : List ℕ} (w : World) → Inv (p ∷ held) w → Elsewhere held q w → p ≢ q
  not_handed_out p q w inv (inl pos) e = ground (arith, inv.owned q)
  not_handed_out p q w inv (inr (j, lt, pos)) e =
      ground (arith, inv.owned q, weight-le-total (queued q) w.session j w.created)

  pub Kept-Elsewhere :
      (held : List ℕ) (q : ℕ) (w v : World) → Kept w v → Elsewhere held q w → Elsewhere held q v
  Kept-Elsewhere held q w v k (inl pos) = inl pos
  Kept-Elsewhere held q w v k (inr (j, below, pos)) = inr (j, rw k.created below, rw k.session pos)

  pub assign-others :
      (p : ℕ) (m : ConnMsg) (w : World)
      → Ensures (λ r. (q : ℕ) → p ≢ q → r.1.heap.cell q ≡ w.heap.cell q) (assign p m w)
  unfolding assign
  assign-others p m w = λ q ne. update_ne w.heap.cell p q (some m) ne
