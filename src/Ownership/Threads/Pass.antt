-- ===== src/Ownership/Threads/Pass.antt =====
-- A thread hands one of its buffers to another, as by the queue of a session (asio_test).
use asio_tcp.Base.{
  ℕ, ◌<◌, ◌≡◌, ◌≢◌, sym, ap, subst, ◌∙◌, List, ◌∷◌, ◌++◌, count, count-append, update, update_self,
  update_ne, arith, ℕ_discrete,
}
use asio_tcp.Ring.{CircularBuffer}
use asio_tcp.World.{World}
use asio_tcp.Manager.Threads.{Thread, busy, Program}
use asio_tcp.Ownership.Threads.{in_process, gripped, count-held-update, Inv-count, IsBare, IsSafe}

pub count-middle : (q p : ℕ) (xs ys : List ℕ) → count q (xs ++ p ∷ ys) ≡ count q (p ∷ (xs ++ ys))
count-middle q p xs ys = omega (arith, count-append q xs (p ∷ ys), count-append q xs ys)

module _ ⦃cb : CircularBuffer⦄ (n : ℕ) (s : Program) (safe : IsSafe n s) where
  abbrev w : World
  w = s.world

  abbrev table : ℕ → Thread
  table = s.thread

  pub pass-IsSafe :
      (k j p : ℕ) (xs ys : List ℕ)
      → k < n
      → j < n
      → k ≢ j
      → (table k).hand ≡ xs ++ p ∷ ys
      → IsSafe n (record {
        world = w;
        thread =
            update
              (update table k (busy (table k).doing (xs ++ ys)))
              j
              (busy (table j).doing (p ∷ (table j).hand));
      })
  pass-IsSafe k j p xs ys lt lt' ne e = record {
    inv =
        Inv-count
          (λ q. omega (
            arith,
            count-held-update q k n table (busy (table k).doing (xs ++ ys)) lt,
            count-held-update q j n first (busy (table j).doing (p ∷ (table j).hand)) lt',
            ap (gripped q) (update_ne table k j (busy (table k).doing (xs ++ ys)) ne),
            count-append q (in_process (table k).doing) (table k).hand,
            count-append q (in_process (table k).doing) (xs ++ ys),
            count-append q (in_process (table j).doing) (p ∷ (table j).hand),
            count-append q (in_process (table j).doing) (table j).hand,
            ap (count q) e,
            count-middle q p xs ys,
          ))
          safe.inv;
    bare = λ i below. subst (IsBare w) (sym (doing_kept i)) (safe.bare i below);
  }
    where
      first : ℕ → Thread
      first = update table k (busy (table k).doing (xs ++ ys))

      doing_at :
          (f : ℕ → Thread) (a i : ℕ) (ps : List ℕ)
          → (update f a (busy (f a).doing ps) i).doing ≡ (f i).doing
      doing_at f a i ps = elim (ℕ_discrete a i) [
        | yes same ↦
            subst (λ b. (update f a (busy (f a).doing ps) b).doing ≡ (f b).doing) same
              (ap (λ (t : Thread). t.doing) (update_self f a (busy (f a).doing ps)))
        | no other ↦ ap (λ (t : Thread). t.doing) (update_ne f a i (busy (f a).doing ps) other)
      ]

      at_j : first j ≡ table j
      at_j = update_ne table k j (busy (table k).doing (xs ++ ys)) ne

      doing_kept :
          (i : ℕ)
          → (update first j (busy (table j).doing (p ∷ (table j).hand)) i).doing ≡ (table i).doing
      doing_kept i =
          subst
            (λ (t : Thread).
              (update first j (busy t.doing (p ∷ (table j).hand)) i).doing ≡ (first i).doing)
            at_j (doing_at first j i (p ∷ (table j).hand))
          ∙ doing_at table k i (xs ++ ys)
