-- ===== src/Ownership/Threads/Run.antt =====
-- Any number of threads that allocate, fill, hand over and give back message buffers (asio_test), from
-- the time when none of them has one.
use asio_tcp.Base.{
  ℕ, zero, suc, ◌+◌, ◌<◌, ◌≤◌, ◌≡◌, refl, sym, ap, some, List, [], ◌∷◌, ◌++◌, count, length, total,
  arith, Ensures-value,
}
use asio_tcp.Ring.{CircularBuffer}
use asio_tcp.World.{World}
use asio_tcp.Manager.{pool_capacity}
use asio_tcp.Manager.Threads.{
  Doing, idle, busy, enter_dellocate, Thread, resting, advance, Program, Reach,
}
use asio_tcp.Ownership.{Inv, queued, pooled, live}
use asio_tcp.Ownership.Threads.{gripped, held, count-held, Inv-count, IsSafe}
use asio_tcp.Ownership.Threads.Moves.{After, advance-After}
use asio_tcp.Ownership.Threads.Safety.{give-After, idle-busy, Reach-IsSafe}

held-resting : (n : ℕ) → held n (λ _. resting []) ≡ []
held-resting zero = refl
held-resting (suc n) = held-resting n

module _ ⦃cb : CircularBuffer⦄ where
  -- No thread has called one of the methods yet.
  abbrev pub quiet : World → Program
  quiet w = record { world = w; thread = λ _. resting [] }

  quiet-IsSafe : (n : ℕ) (w : World) → Inv [] w → IsSafe n (quiet w)
  quiet-IsSafe n w inv = record {
    inv = Inv-count (λ q. ap (count q) (sym (held-resting n))) inv;
    bare = λ k lt. tt;
  }

  -- From a state with sound ownership in which no thread has a buffer, in whatever order `n` threads go
  -- on: none of them faults in allocate_msg_buffer or dellocate_msg_buffer, nor does an idle one on
  -- entering dellocate_msg_buffer with a buffer of its own; every allocated message has one owner, the
  -- pool, the queue of one session or one thread; and the pool holds at most fifty.
  pub Reach-owned :
      {n : ℕ} {w : World} {s : Program}
      → Inv [] w
      → Reach n (quiet w) s
      → ((k : ℕ)
          → k < n
          → (t : Thread) × (v : World) × (advance (s.thread k).doing (s.thread k).hand s.world
              ≡ some (t, v)))
        × ((k p : ℕ) (xs ys : List ℕ)
            → k < n
            → (s.thread k).doing ≡ idle
            → (s.thread k).hand ≡ xs ++ p ∷ ys
            → (d : Doing) × (v : World) × (enter_dellocate p s.world ≡ some (d, v)))
        × ((q : ℕ)
            → pooled q s.world
                + total (queued q) s.world.created s.world.session
                + total (gripped q) n s.thread
              ≡ live (s.world.heap.cell q))
        × (length (cb.contents s.world.mgr.conn_msg_buffer) ≤ pool_capacity)
  Reach-owned {n} {w} {s} start r = (
    λ k lt.
        let ((t, v), eq, _) =
          Ensures-value (After n k s.thread s.world lt safe.inv)
            (advance (s.thread k).doing (s.thread k).hand s.world)
            (advance-After n k s.thread s.world lt safe.inv (s.thread k).doing (s.thread k).hand
              refl (safe.bare k lt)) in
        (t, v, eq),
    λ k p xs ys lt i e.
        let ((d, v), eq, _) =
          Ensures-value (λ r. After n k s.thread s.world lt safe.inv (busy r.0 (xs ++ ys), r.1))
            (enter_dellocate p s.world)
            (give-After n s safe k p xs ys lt (idle-busy n s safe k (xs ++ p ∷ ys) i e)) in
        (d, v, eq),
    λ q. omega (arith, safe.inv.owned q, count-held q n s.thread),
    omega (arith, cb.bounded s.world.mgr.conn_msg_buffer, safe.inv.limit),
  )
    where
      safe : IsSafe n s
      safe = Reach-IsSafe (quiet-IsSafe n w start) r
