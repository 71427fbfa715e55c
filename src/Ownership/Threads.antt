-- ===== src/Ownership/Threads.antt =====
-- Ownership while threads are in allocate_msg_buffer and dellocate_msg_buffer at once (connection_mgr,
-- asio_test/connection.cpp): what each thread owns.
pub mod Moves
pub mod Pass
pub mod Safety
pub mod Run
use asio_tcp.Base.{
  ℕ, zero, suc, ◌+◌, ◌<◌, ◌≤◌, ◌≡◌, ◌≢◌, refl, sym, ap, ◌∙◌, some, List, [], ◌∷◌, ◌++◌, inl, inr,
  count, count-append, update, update_self, update_ne, total, total-update, total-zero, total-suc,
  weight-le-total, subst, ℕ_discrete, arith, Ensures, Ensures-mono,
}
use asio_tcp.Ring.{CircularBuffer}
use asio_tcp.Message.{ConnMsg}
use asio_tcp.World.{World}
use asio_tcp.Manager.Threads.{
  Doing, idle, wants, found, must_new, returns, room_for, must_delete, Thread, resting, busy,
  Program,
}
use asio_tcp.Ownership.{Inv, live, live-some}

-- The buffers of a thread: that which it gives back, and those in its hand.
abbrev pub in_process : Doing → List ℕ
in_process (returns p) = p ∷ []
in_process (room_for p) = p ∷ []
in_process (must_delete p) = p ∷ []
in_process _ = []

abbrev pub grip : Thread → List ℕ
grip t = in_process t.doing ++ t.hand

abbrev pub gripped : ℕ → Thread → ℕ
gripped q t = count q (grip t)

-- Those of the first `n` threads.
abbrev pub held : ℕ → (ℕ → Thread) → List ℕ
held zero table = []
held (suc n) table = grip (table n) ++ held n table

pub count-held : (q n : ℕ) (table : ℕ → Thread) → count q (held n table) ≡ total (gripped q) n table
count-held q zero table = sym (total-zero (gripped q) table)
count-held q (suc n) table =
    count-append q (grip (table n)) (held n table)
    ∙ ap (gripped q (table n) +◌) (count-held q n table)
    ∙ sym (total-suc (gripped q) table n)

-- One thread changes.
pub count-held-update :
    (q k n : ℕ) (table : ℕ → Thread) (t : Thread)
    → k < n
    → count q (held n table) + gripped q t
      ≡ gripped q (table k) + count q (held n (update table k t))
count-held-update q k n table t lt = omega (
  arith,
  count-held q n table,
  count-held q n (update table k t),
  total-update (gripped q) table k t n lt,
)

module _ ⦃cb : CircularBuffer⦄ where
  -- Who of those that hold a buffer counts, not the order.
  pub Inv-count :
      {xs ys : List ℕ} {w : World} → ((q : ℕ) → count q xs ≡ count q ys) → Inv xs w → Inv ys w
  Inv-count same inv = record {
    started = inv.started;
    null_dead = inv.null_dead;
    fresh = inv.fresh;
    owned = λ p. omega (arith, inv.owned p, same p);
    valid = inv.valid;
    small = inv.small;
    filled = inv.filled;
    limit = inv.limit;
  }

  -- A buffer that goes to the pool, if there is room, has no array.
  abbrev pub IsBare : World → Doing → Type 0
  IsBare w (returns p) = (m : ConnMsg) → w.heap.cell p ≡ some m → m.size_allocated ≡ 0
  IsBare w (room_for p) = (m : ConnMsg) → w.heap.cell p ≡ some m → m.size_allocated ≡ 0
  IsBare w _ = Unit {0}

  pub IsBare-same :
      (w w' : World) (t : Thread)
      → ((q : ℕ) → 0 < gripped q t → w'.heap.cell q ≡ w.heap.cell q)
      → IsBare w t.doing
      → IsBare w' t.doing
  IsBare-same w w' t same = by_doing t.doing refl
    where
      by_doing : (d : Doing) → t.doing ≡ d → IsBare w d → IsBare w' d
      by_doing idle e h = tt
      by_doing (wants x) e h = tt
      by_doing (found x) e h = tt
      by_doing (must_new x) e h = tt
      by_doing (returns p) e h = λ m there. h m (sym (same p (rw e (ground arith))) ∙ there)
      by_doing (room_for p) e h = λ m there. h m (sym (same p (rw e (ground arith))) ∙ there)
      by_doing (must_delete p) e h = tt

  pub record IsSafe (n : ℕ) (s : Program) : Type 0 where
    pub inv : Inv (held n s.thread) s.world
    pub bare : (k : ℕ) → k < n → IsBare s.world (s.thread k).doing

  -- What thread `k` does leaves alone the buffers of the others.
  abbrev pub Others : ℕ → ℕ → (ℕ → Thread) → World → World → Type 0
  Others n k table w w' =
      (j q : ℕ) → j < n → k ≢ j → 0 < gripped q (table j) → w'.heap.cell q ≡ w.heap.cell q

  module _ (n k : ℕ) (table : ℕ → Thread) (w : World) (lt : k < n) where
    -- Nobody else has a buffer of thread `k`.
    pub no_two :
        (j q : ℕ)
        → Inv (held n table) w
        → j < n
        → k ≢ j
        → 0 < gripped q (table k)
        → 0 < gripped q (table j)
        → ⊥
    no_two j q inv below ne mine theirs =
        let left = update table k (resting []) in
        let at_j : left j ≡ table j = update_ne table k j (resting []) ne in
        let seen : gripped q (left j) ≤ count q (held n left) =
          omega (arith, count-held q n left, weight-le-total (gripped q) left j n below) in
        ground (
          arith,
          inv.owned q,
          count-held-update q k n table (resting []) lt,
          seen,
          ap (gripped q) at_j,
          mine,
          theirs,
        )

    -- Thread `k` becomes `t`, in a new world.
    pub changed :
        (t : Thread) (w' : World)
        → Inv (held n (update table k t)) w'
        → IsBare w' t.doing
        → Others n k table w w'
        → ((j : ℕ) → j < n → IsBare w (table j).doing)
        → IsSafe n (record { world = w'; thread = update table k t })
    changed t w' inv here others before = record {
      inv = inv;
      bare = λ j below. elim (ℕ_discrete k j) [
        | yes e ↦
            subst (λ i. IsBare w' (update table k t i).doing) e
              (subst (λ (s : Thread). IsBare w' s.doing) (sym (update_self table k t)) here)
        | no ne ↦
            subst (λ (s : Thread). IsBare w' s.doing) (sym (update_ne table k j t ne))
              (IsBare-same w w' (table j) (λ q pos. others j q below ne pos) (before j below))
      ];
    }
