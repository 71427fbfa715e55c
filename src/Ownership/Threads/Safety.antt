-- ===== src/Ownership/Threads/Safety.antt =====
-- Threads that allocate and give back message buffers at once (asio_test/connection.cpp): no buffer has
-- two owners, in whatever order they go on.
use asio_tcp.Base.{
  ℕ, ◌<◌, ◌≡◌, ◌≢◌, refl, sym, ap, subst, some, List, [], ◌∷◌, ◌++◌, count, update, arith, Ensures,
  Ensures-mono, Ensures-and, Ensures-value, Bool-cases, inl, inr, ◌==◌, leb, ℕ_discrete,
}
use asio_tcp.Ring.{CircularBuffer}
use asio_tcp.Message.{Hdr, capacity, max_body_length, set_body}
use asio_tcp.Message.Body.{Stored, set_body-Stored}
use asio_tcp.World.{World}
use asio_tcp.Memory.{deref, assign}
use asio_tcp.Session.{fill}
use asio_tcp.Manager.Threads.{
  idle, returns, must_delete, Thread, resting, busy, enter_allocate, enter_dellocate, Program, Step,
  ask, give, go, write_body, pass, Reach, here, next,
}
use asio_tcp.Ownership.{Inv, live-some}
use asio_tcp.Ownership.Memory.{assign-Inv, held-live}
use asio_tcp.Ownership.Pool.{capacity-bare}
use asio_tcp.Ownership.Steady.{assign-others}
use asio_tcp.Ownership.Threads.{
  in_process, gripped, held, count-held-update, Inv-count, IsBare, IsBare-same, IsSafe, changed,
  no_two,
}
use asio_tcp.Ownership.Threads.Moves.{After, same_grip-After, advance-After}
use asio_tcp.Ownership.Threads.Pass.{count-middle, pass-IsSafe}

entered : (h : Hdr) → in_process (enter_allocate h) ≡ []
unfolding enter_allocate
entered h = elim (Bool-cases (leb h.len max_body_length)) [ inl e ↦ rw e refl | inr e ↦ rw e refl ]

module _ ⦃cb : CircularBuffer⦄ where
  entered-IsBare : (h : Hdr) (w : World) → IsBare w (enter_allocate h)
  unfolding enter_allocate
  entered-IsBare h w = elim (Bool-cases (leb h.len max_body_length)) [
    | inl e ↦ rw e tt
    | inr e ↦ rw e tt
  ]

  -- A body is written into a buffer in hand.
  fill_held :
      (p : ℕ) (src xs : List ℕ) (w : World)
      → Inv (p ∷ xs) w
      → Ensures
          (λ r. Inv (p ∷ xs) r.1 × ((q : ℕ) → p ≢ q → r.1.heap.cell q ≡ w.heap.cell q))
          (fill p (set_body src) w)
  unfolding fill deref
  fill_held p src xs w inv =
      let (old, alive) = held-live p inv in
      let (m, done, stored) =
        Ensures-value (Stored src old) (set_body src old)
          (set_body-Stored src old (inv.valid p old alive)) in
      rw (alive, done, Ensures)
        (Ensures-mono _
          (λ r. Inv (p ∷ xs) r.1 × ((q : ℕ) → p ≢ q → r.1.heap.cell q ≡ w.heap.cell q))
          (λ r a. (a.0.0, a.1)) (assign p m w)
          (Ensures-and _ _ (assign p m w) (assign-Inv p inv m stored.valid) (assign-others p m w)))

  module _ (n : ℕ) (s : Program) (safe : IsSafe n s) where
    abbrev pub w : World
    w = s.world

    abbrev pub table : ℕ → Thread
    table = s.thread

    pub give-After :
        (k p : ℕ) (xs ys : List ℕ) (lt : k < n)
        → table k ≡ resting (xs ++ p ∷ ys)
        → Ensures
            (λ r. After n k table w lt safe.inv (busy r.0 (xs ++ ys), r.1))
            (enter_dellocate p w)
    unfolding enter_dellocate deref
    give-After k p xs ys lt at =
        let there : 0 < gripped p (table k) =
          rw at (omega (arith, count-middle p p xs ys, here_once)) in
        let (m, alive) =
          live-some (w.heap.cell p) (
            omega
              (arith, safe.inv.owned p, there, count-held-update p k n table (resting []) lt)) in
        elim (Bool-cases (capacity m == max_body_length)) [
          | inl std ↦
              rw (alive, std, Ensures)
                (same_grip-After n k table w lt safe.inv idle (xs ++ p ∷ ys) at
                  (busy (returns p) (xs ++ ys)) (λ q. sym (count-middle q p xs ys))
                  (λ m' e.
                    capacity-bare m' (safe.inv.valid p m' e) (ground (arith, e, alive, std))))
          | inr custom ↦
              rw (alive, custom, Ensures)
                (same_grip-After n k table w lt safe.inv idle (xs ++ p ∷ ys) at
                  (busy (must_delete p) (xs ++ ys)) (λ q. sym (count-middle q p xs ys)) tt)
        ]
      where
        here_once : 0 < count p (p ∷ (xs ++ ys))
        here_once = ground arith

    After-IsSafe :
        (k : ℕ) (lt : k < n) (t : Thread) (w' : World)
        → After n k table w lt safe.inv (t, w')
        → IsSafe n (record { world = w'; thread = update table k t })
    After-IsSafe k lt t w' (inv, bare, others) =
        changed n k table w lt t w' inv bare others safe.bare

    pub idle-busy :
        (k : ℕ) (hand : List ℕ)
        → (table k).doing ≡ idle
        → (table k).hand ≡ hand
        → table k ≡ resting hand
    idle-busy k hand d e = rw (← d, ← e) refl

    write-IsSafe :
        (k p : ℕ) (xs ys src : List ℕ) (w' : World) (lt : k < n)
        → table k ≡ resting (xs ++ p ∷ ys)
        → fill p (set_body src) w ≡ some (tt, w')
        → IsSafe n (record { world = w'; thread = table })
    write-IsSafe k p xs ys src w' lt at e = record {
      inv = Inv-count (λ q. sym (regroup q)) filled.0;
      bare = λ j below. elim (ℕ_discrete k j) [
        | yes same ↦
            subst (λ i. IsBare w' (table i).doing) same
              (subst (λ (t : Thread). IsBare w' t.doing) (sym at) tt)
        | no ne ↦
            IsBare-same w w' (table j)
              (λ q pos. filled.1 q (λ e.
                no_two n k table w lt j q safe.inv below ne
                  (subst (λ q. 0 < gripped q (table k)) e mine) pos))
              (safe.bare j below)
      ];
    }
      where
        rest : List ℕ
        rest = held n (update table k (resting (xs ++ ys)))

        regroup : (q : ℕ) → count q (held n table) ≡ count q (p ∷ rest)
        regroup q = omega (
          arith,
          count-held-update q k n table (resting (xs ++ ys)) lt,
          ap (gripped q) at,
          count-middle q p xs ys,
        )

        filled : Inv (p ∷ rest) w' × ((q : ℕ) → p ≢ q → w'.heap.cell q ≡ w.heap.cell q)
        filled = let f = fill_held p src rest w (Inv-count regroup safe.inv) in rw e at f

        once : 0 < count p (p ∷ (xs ++ ys))
        once = ground arith

        mine : 0 < gripped p (table k)
        mine = rw at (omega (arith, count-middle p p xs ys, once))

    ask-IsSafe :
        (k : ℕ) (h : Hdr)
        → k < n
        → (table k).doing ≡ idle
        → IsSafe n
            (record { world = w; thread = update table k (busy (enter_allocate h) (table k).hand) })
    ask-IsSafe k h lt d = After-IsSafe k lt (busy (enter_allocate h) (table k).hand) w (
        same_grip-After n k table w lt safe.inv idle (table k).hand
          (idle-busy k (table k).hand d refl) (busy (enter_allocate h) (table k).hand)
          (λ q. ap (λ ps. count q (ps ++ (table k).hand)) (entered h)) (entered-IsBare h w))

  pub Step-IsSafe : {n : ℕ} {s t : Program} → Step n s t → IsSafe n s → IsSafe n t
  Step-IsSafe {n} {s} (ask k h lt d) safe = ask-IsSafe n s safe k h lt d
  Step-IsSafe {n} {s} (give k p xs ys {d} {w} lt i e eq) safe =
      let at = idle-busy n s safe k (xs ++ p ∷ ys) i e in
      let a = give-After n s safe k p xs ys lt at in
      After-IsSafe n s safe k lt (busy d (xs ++ ys)) w (rw eq at a)
  Step-IsSafe {n} {s} (go k {t} {w} lt eq) safe =
      let a =
        advance-After n k s.thread s.world lt safe.inv (s.thread k).doing (s.thread k).hand refl
          (safe.bare k lt) in
      After-IsSafe n s safe k lt t w (rw eq at a)
  Step-IsSafe {n} {s} (write_body k p xs ys src {w} lt i e eq) safe =
      write-IsSafe n s safe k p xs ys src w lt (idle-busy n s safe k (xs ++ p ∷ ys) i e) eq
  Step-IsSafe {n} {s} (pass k j p xs ys lt lt' ne e) safe =
      pass-IsSafe n s safe k j p xs ys lt lt' ne e

  pub Reach-IsSafe : {n : ℕ} {s t : Program} → IsSafe n s → Reach n s t → IsSafe n t
  Reach-IsSafe safe here = safe
  Reach-IsSafe safe (next r st) = Step-IsSafe st (Reach-IsSafe safe r)
