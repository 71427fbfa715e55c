-- ===== src/Ownership/Threads/Moves.antt =====
-- One step of a thread in allocate_msg_buffer or dellocate_msg_buffer (asio_test/connection.cpp), and
-- what the thread and the others own then.
use asio_tcp.Base.{
  ℕ, ◌<◌, ◌≡◌, ◌≢◌, refl, sym, ap, ◌∙◌, some, List, [], ◌∷◌, ◌++◌, inl, inr, count, update,
  weight-le-total, arith, Ensures, Ensures-and, Bool-cases,
}
use asio_tcp.Ring.{CircularBuffer}
use asio_tcp.Message.{Hdr, construct}
use asio_tcp.World.{World, pure}
use asio_tcp.World.Steps.{bind-Ensures}
use asio_tcp.Memory.{new_msg, delete}
use asio_tcp.Manager.{buffer_empty, buffer_full, take_front, put_back}
use asio_tcp.Manager.Threads.{
  Doing, idle, wants, found, must_new, returns, room_for, must_delete, Thread, resting, busy,
  advance,
}
use asio_tcp.Ownership.{Inv, live-some}
use asio_tcp.Ownership.Memory.{OnlyHeap, new_msg-Inv, delete-Inv, held-live}
use asio_tcp.Ownership.Pool.{Kept, take_front-Inv, put_back-Inv}
use asio_tcp.Ownership.Clear.{delete-others}
use asio_tcp.Ownership.Steady.{Steady, new_msg-Steady}
use asio_tcp.Ownership.Threads.{
  in_process, gripped, held, count-held, count-held-update, Inv-count, IsBare, Others, no_two,
}

module _ ⦃cb : CircularBuffer⦄ (n k : ℕ) (table : ℕ → Thread) (w : World) (lt : k < n)
    (inv : Inv (held n table) w) where
  -- Thread `k` has become `r.0`, and the world `r.1`.
  abbrev pub After : Thread × World → Type 0
  After r = Inv (held n (update table k r.0)) r.1 × IsBare r.1 r.0.doing × Others n k table w r.1

  same_heap-Others : (w' : World) → w'.heap ≡ w.heap → Others n k table w w'
  same_heap-Others w' e j q below ne pos = ap (λ h. h.cell q) e

  Steady-Others : (w' : World) → Steady (held n table) w w' → Others n k table w w'
  Steady-Others w' st j q below ne pos =
      let mine : 0 < count q (held n table) =
        omega (arith, count-held q n table, weight-le-total (gripped q) table j n below, pos) in
      let (m, there) = live-some (w.heap.cell q) (omega (arith, inv.owned q, mine)) in
      st q m (inl mine) there ∙ sym there

  -- A buffer of thread `k` that is freed or written is nobody else's.
  alone-Others :
      (p : ℕ) (w' : World)
      → 0 < gripped p (table k)
      → ((q : ℕ) → p ≢ q → w'.heap.cell q ≡ w.heap.cell q)
      → Others n k table w w'
  alone-Others p w' mine same j q below ne pos =
      same q (λ e. no_two n k table w lt j q inv below ne (rw e at mine) pos)

  module _ (d : Doing) (hand : List ℕ) (at : table k ≡ busy d hand) where
    pub same_grip-After :
        (t : Thread)
        → ((q : ℕ) → gripped q t ≡ gripped q (busy d hand))
        → IsBare w t.doing
        → After (t, w)
    same_grip-After t same bare = (
      Inv-count (λ q. omega (arith, count-held-update q k n table t lt, ap (gripped q) at, same q))
          inv,
      bare,
      same_heap-Others w refl,
    )

    gain-After :
        (p : ℕ) (w' : World)
        → in_process d ≡ []
        → Inv (p ∷ held n table) w'
        → Others n k table w w'
        → After (resting (p ∷ hand), w')
    gain-After p w' none inv' others = (
      Inv-count
          (λ q. omega (
            arith,
            count-held-update q k n table (resting (p ∷ hand)) lt,
            ap (gripped q) at,
            ap (λ ps. count q (ps ++ hand)) none,
          ))
          inv',
      tt,
      others,
    )

    given_up : (p : ℕ) → in_process d ≡ p ∷ [] → Inv (p ∷ held n (update table k (resting hand))) w
    given_up p one =
        Inv-count
          (λ q. omega (
            arith,
            count-held-update q k n table (resting hand) lt,
            ap (gripped q) at,
            ap (λ ps. count q (ps ++ hand)) one,
          ))
          inv

    lost-After :
        (p : ℕ) (w' : World)
        → in_process d ≡ p ∷ []
        → Inv (held n (update table k (resting hand))) w'
        → ((q : ℕ) → p ≢ q → w'.heap.cell q ≡ w.heap.cell q)
        → After (resting hand, w')
    lost-After p w' one inv' same = (
      inv',
      tt,
      alone-Others p w' (rw at (omega (arith, ap (λ ps. count p (ps ++ hand)) one, self p))) same,
    )
      where
        self : (p : ℕ) → 0 < count p (p ∷ hand)
        self p = ground arith

  advance-found :
      (h : Hdr) (hand : List ℕ)
      → table k ≡ busy (found h) hand
      → Ensures After (advance (found h) hand w)
  unfolding advance buffer_empty
  advance-found h hand at = by_contents (cb.contents w.mgr.conn_msg_buffer) refl
    where
      by_contents :
          (ps : List ℕ)
          → cb.contents w.mgr.conn_msg_buffer ≡ ps
          → Ensures After (advance (found h) hand w)
      by_contents [] e =
          rw (cb.empty_lem w.mgr.conn_msg_buffer, e, Ensures)
            (same_grip-After (found h) hand at (busy (must_new h) hand) (λ q. refl) tt)
      by_contents (p ∷ ps) e =
          rw (cb.empty_lem w.mgr.conn_msg_buffer, e)
            (bind-Ensures
              (λ r. (r.0 ≡ p) × Inv (r.0 ∷ held n table) r.1 × Kept w r.1 × (r.1.heap ≡ w.heap))
              After take_front (λ q. pure (resting (q ∷ hand))) w (take_front-Inv inv p ps e)
              λ q v (_, inv', _, same).
                gain-After (found h) hand at q v refl inv' (same_heap-Others v same))

  advance-must_new :
      (h : Hdr) (hand : List ℕ)
      → table k ≡ busy (must_new h) hand
      → Ensures After (advance (must_new h) hand w)
  unfolding advance
  advance-must_new h hand at =
      bind-Ensures
        (λ r.
          (Inv (r.0 ∷ held n table) r.1 × (r.1.heap.cell r.0 ≡ some (construct h)) × OnlyHeap w r.1)
          × Steady (held n table) w r.1)
        After (new_msg h) (λ q. pure (resting (q ∷ hand))) w
        (Ensures-and _ _ (new_msg h w) (new_msg-Inv inv h) (new_msg-Steady w inv h))
        λ q v (a, st). gain-After (must_new h) hand at q v refl a.0 (Steady-Others v st)

  advance-returns :
      (p : ℕ) (hand : List ℕ)
      → table k ≡ busy (returns p) hand
      → IsBare w (returns p)
      → Ensures After (advance (returns p) hand w)
  unfolding advance buffer_full
  advance-returns p hand at bare = elim (Bool-cases (cb.full w.mgr.conn_msg_buffer)) [
    | inl full ↦
        rw (full, Ensures)
          (same_grip-After (returns p) hand at (busy (must_delete p) hand) (λ q. refl) tt)
    | inr room ↦
        rw (room, Ensures)
          (same_grip-After (returns p) hand at (busy (room_for p) hand) (λ q. refl) bare)
  ]

  advance-room_for :
      (p : ℕ) (hand : List ℕ)
      → table k ≡ busy (room_for p) hand
      → IsBare w (room_for p)
      → Ensures After (advance (room_for p) hand w)
  unfolding advance buffer_full put_back
  advance-room_for p hand at bare = elim (Bool-cases (cb.full w.mgr.conn_msg_buffer)) [
    | inl full ↦
        rw (full, Ensures)
          (same_grip-After (room_for p) hand at (busy (must_delete p) hand) (λ q. refl) tt)
    | inr room ↦
        let out = given_up (room_for p) hand at p refl in
        let (m, alive) = held-live p out in
        let put = put_back-Inv p out m alive (bare m alive) room in
        rw (room, Ensures) (lost-After (room_for p) hand at p _ refl put.0 (λ q ne. refl))
  ]

  advance-must_delete :
      (p : ℕ) (hand : List ℕ)
      → table k ≡ busy (must_delete p) hand
      → Ensures After (advance (must_delete p) hand w)
  unfolding advance
  advance-must_delete p hand at =
      let out = given_up (must_delete p) hand at p refl in
      let left = held n (update table k (resting hand)) in
      bind-Ensures
        (λ r. (Inv left r.1 × OnlyHeap w r.1) × ((q : ℕ) → p ≢ q → r.1.heap.cell q ≡ w.heap.cell q))
        After (delete p) (λ _. pure (resting hand)) w
        (Ensures-and _ _ (delete p w) (delete-Inv p out) (delete-others p left w out))
        λ _ v (a, same). lost-After (must_delete p) hand at p v refl a.0 same

  -- A thread in one of the methods goes on without a fault.
  pub advance-After :
      (d : Doing) (hand : List ℕ)
      → table k ≡ busy d hand
      → IsBare w d
      → Ensures After (advance d hand w)
  unfolding advance buffer_empty
  advance-After idle hand at bare = same_grip-After idle hand at (resting hand) (λ q. refl) tt
  advance-After (wants h) hand at bare = elim (Bool-cases (cb.empty w.mgr.conn_msg_buffer)) [
    | inl gone ↦
        rw (gone, Ensures)
          (same_grip-After (wants h) hand at (busy (must_new h) hand) (λ q. refl) tt)
    | inr some_left ↦
        rw (some_left, Ensures)
          (same_grip-After (wants h) hand at (busy (found h) hand) (λ q. refl) tt)
  ]
  advance-After (found h) hand at bare = advance-found h hand at
  advance-After (must_new h) hand at bare = advance-must_new h hand at
  advance-After (returns p) hand at bare = advance-returns p hand at bare
  advance-After (room_for p) hand at bare = advance-room_for p hand at bare
  advance-After (must_delete p) hand at bare = advance-must_delete p hand at
