-- ===== src/Example/Threads.antt =====
-- Two threads that see the one buffer of the pool, and of which one gets it (asio_test).
use asio_tcp.Base.{
  ℕ, ◌+◌, ◌<◌, ◌≤◌, ◌≡◌, refl, subst, Option, none, some, List, [], ◌∷◌, ◌++◌, update, length,
  total, arith,
}
use mathlib.Core.Option.{some_inj}
use asio_tcp.World.{World}
use asio_tcp.Manager.{pool_capacity}
use asio_tcp.Manager.Threads.{
  Doing, Thread, idle, busy, advance, enter_allocate, enter_dellocate, Program, ask, go, Reach,
  here, next,
}
use asio_tcp.Ownership.{queued, pooled, live}
use asio_tcp.Ownership.Threads.{gripped}
use asio_tcp.Ownership.Threads.Run.{quiet, Reach-owned}
use asio_tcp.Example.Ring.{list_buffer}
use asio_tcp.Example.Trace.{hdr, answered, Run-Sane, step}

-- The threads go on in the order of the list.
unfoldable run : List ℕ → Program → Option Program
run [] s = some s
run (k ∷ ks) s = elim (advance (s.thread k).doing (s.thread k).hand s.world) [
  | none ↦ none
  | some (t, w) ↦ run ks (record { world = w; thread = update s.thread k t })
]

abbrev Below : ℕ → List ℕ → Type 0
Below n [] = Unit {0}
Below n (k ∷ ks) = (k < n) × Below n ks

run-Reach :
    {n : ℕ} {s t u : Program} (ks : List ℕ)
    → Below n ks
    → Reach n s t
    → run ks t ≡ some u
    → Reach n s u
unfolding run
run-Reach {n} {s} [] few r e = subst (Reach n s) (some_inj.0 e) r
run-Reach {n} {s} {t} {u} (k ∷ ks) few r e =
    by_step (λ t' r' e'. run-Reach {t = t'} ks few.1 r' e')
      (advance (t.thread k).doing (t.thread k).hand t.world) refl
  where
    by_step :
        ((t' : Program) → Reach n s t' → run ks t' ≡ some u → Reach n s u)
        → (o : Option (Thread × World)) → advance (t.thread k).doing (t.thread k).hand t.world ≡ o
        → Reach n s u
    by_step on none eq = absurd (cc (rw (eq, run) at e))
    by_step on (some (th, w)) eq = on _ (next r (go k few.0 eq)) (rw (eq, run) at e)

-- The pool has one buffer. Both threads call allocate_msg_buffer with a short body, and find the pool
-- not empty; the second gets the buffer, and the first looks again and makes a new one.
abbrev asking : Program
asking =
    let s = quiet answered.last in
    let a = record s { thread = update s.thread 0 (busy (enter_allocate hdr) (s.thread 0).hand) } in
    record a { thread = update a.thread 1 (busy (enter_allocate hdr) (a.thread 1).hand) }

abbrev last_of : Option Program → Program → Program
last_of none s = s
last_of (some t) s = t

unfoldable served : Program
unfolding run enter_allocate advance step answered
served = last_of (run (0 ∷ 1 ∷ 1 ∷ 0 ∷ 0 ∷ []) asking) asking

hands : ((served.thread 0).hand ≡ 2 ∷ []) × ((served.thread 1).hand ≡ 1 ∷ [])
unfolding served run enter_allocate advance step answered
hands = (refl, refl)

served-Reach : Reach 2 (quiet answered.last) served
unfolding served run enter_allocate advance step answered
served-Reach =
    run-Reach (0 ∷ 1 ∷ 1 ∷ 0 ∷ 0 ∷ [])
      (omega arith, (omega arith, (omega arith, (omega arith, (omega arith, tt)))))
      (next (next here (ask 0 hdr (omega arith) refl)) (ask 1 hdr (omega arith) refl)) refl

Reach-owned_example :
    ((k : ℕ)
      → k < 2
      → (t : Thread) × (v : World) × (advance
            (served.thread k).doing
            (served.thread k).hand
            served.world
          ≡ some (t, v)))
    × ((k p : ℕ) (xs ys : List ℕ)
        → k < 2
        → (served.thread k).doing ≡ idle
        → (served.thread k).hand ≡ xs ++ p ∷ ys
        → (d : Doing) × (v : World) × (enter_dellocate p served.world ≡ some (d, v)))
    × ((q : ℕ)
        → pooled q served.world
            + total (queued q) served.world.created served.world.session
            + total (gripped q) 2 served.thread
          ≡ live (served.world.heap.cell q))
    × (length served.world.mgr.conn_msg_buffer.items ≤ pool_capacity)
Reach-owned_example = Reach-owned (Run-Sane answered).inv served-Reach
