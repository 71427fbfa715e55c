-- ===== src/Manager/Connections.antt =====
-- The set of connections: how many may join, and which one `find` finds.
use asio_tcp.Base.{
  ℕ, suc, ◌+◌, ◌<◌, ◌≤◌, ◌≡◌, ◌≢◌, refl, ◌⊎◌, inl, inr, true, false, Option, none, some, List, [],
  ◌∷◌, length, count, ◌==◌, if◌then◌else◌, ltb, Bool-cases, Ensures, arith,
}
use asio_tcp.Ring.{CircularBuffer}
use asio_tcp.World.{World, Session}
use asio_tcp.Manager.{set_insert, set_erase, can_join, join, leave, find, find_in}

-- The keys of a std::set: in ascending order, the first at least `n`.
abbrev pub Ascends : ℕ → List ℕ → Type 0
Ascends n [] = Unit {0}
Ascends n (j ∷ js) = (n ≤ j) × Ascends (suc j) js

pub count-below : (i n : ℕ) (js : List ℕ) → Ascends n js → i < n → count i js ≡ 0
count-below i n [] a lt = refl
count-below i n (j ∷ js) a lt = ground (arith, count-below i (suc j) js a.1)

Ascends-mono : (m n : ℕ) (js : List ℕ) → m ≤ n → Ascends n js → Ascends m js
Ascends-mono m n [] le a = tt
Ascends-mono m n (j ∷ js) le a = (omega arith, a.1)

set_insert-Ascends : (i n : ℕ) (js : List ℕ) → Ascends n js → n ≤ i → Ascends n (set_insert i js)
unfolding set_insert
set_insert-Ascends i n [] a le = (le, tt)
set_insert-Ascends i n (j ∷ js) a le = ground (arith, set_insert-Ascends i (suc j) js a.1)

count-set_insert :
    (i k n : ℕ) (js : List ℕ)
    → Ascends n js
    → count k (set_insert i js) ≡ (if i == k then 1 else count k js)
unfolding set_insert
count-set_insert i k n [] a = ground arith
count-set_insert i k n (j ∷ js) a = ground (
  arith,
  count-set_insert i k (suc j) js a.1,
  count-below i (suc j) js a.1,
  count-below k (suc j) js a.1,
)

set_erase-Ascends : (i n : ℕ) (js : List ℕ) → Ascends n js → Ascends n (set_erase i js)
unfolding set_erase
set_erase-Ascends i n [] a = tt
set_erase-Ascends i n (j ∷ js) a =
    ground (arith, set_erase-Ascends i (suc j) js a.1, Ascends-mono n (suc j) js)

count-set_erase :
    (i k n : ℕ) (js : List ℕ)
    → Ascends n js
    → count k (set_erase i js) ≡ (if i == k then 0 else count k js)
unfolding set_erase
count-set_erase i k n [] a = ground arith
count-set_erase i k n (j ∷ js) a =
    ground (arith, count-set_erase i k (suc j) js a.1, count-below k (suc j) js a.1)

length-set_insert_new :
    (i n : ℕ) (js : List ℕ)
    → Ascends n js
    → count i js ≡ 0
    → length (set_insert i js) ≡ suc (length js)
unfolding set_insert
length-set_insert_new i n [] a z = refl
length-set_insert_new i n (j ∷ js) a z = ground (arith, length-set_insert_new i (suc j) js a.1)

module _ ⦃cb : CircularBuffer⦄ where
  pub find_in-some :
      (id : ℕ) (session : ℕ → Session) (is : List ℕ) (i : ℕ)
      → find_in id session is ≡ some i
      → (0 < count i is) × ((session i).client_id ≡ id)
  unfolding find_in
  find_in-some id session [] i e = absurd (cc e)
  find_in-some id session (j ∷ is) i e = ground (arith, find_in-some id session is i)

  pub find_in-none :
      (id : ℕ) (session : ℕ → Session) (is : List ℕ) (i : ℕ)
      → find_in id session is ≡ none
      → 0 < count i is
      → (session i).client_id ≢ id
  unfolding find_in
  find_in-none id session [] i e pos = absurd (omega arith)
  find_in-none id session (j ∷ is) i e pos = ground (arith, find_in-none id session is i)

  abbrev pub Found : ℕ → World → Option ℕ → Type 0
  Found id w r =
      ((i : ℕ) × (r ≡ some i)
        × (0 < count i w.mgr.connection_list)
        × ((w.session i).client_id ≡ id)
        × (id ≢ 0))
      ⊎ ((r ≡ none)
          × ((id ≡ 0)
              ⊎ ((i : ℕ) → 0 < count i w.mgr.connection_list → (w.session i).client_id ≢ id)))

  find_in-Found :
      (id : ℕ) (w : World) → id ≢ 0 → Found id w (find_in id w.session w.mgr.connection_list)
  find_in-Found id w ne = by_result (find_in id w.session w.mgr.connection_list) refl
    where
      by_result : (r : Option ℕ) → find_in id w.session w.mgr.connection_list ≡ r → Found id w r
      by_result none e =
          inr (refl, inr (λ i pos. find_in-none id w.session w.mgr.connection_list i e pos))
      by_result (some i) e =
          let f = find_in-some id w.session w.mgr.connection_list i e in inl (i, refl, f.0, f.1, ne)

  -- `find` returns and changes nothing. Either it finds a connected session with the client id,
  -- which is not 0, or it finds nothing, and the id is 0 or no connected session has it.
  pub find_lem : (id : ℕ) (w : World) → Ensures (λ r. (r.1 ≡ w) × Found id w r.0) (find id w)
  unfolding find
  find_lem id w = elim (Bool-cases (id == 0)) [
    | inl zero_id ↦ rw (zero_id, Ensures) (refl, inr (refl, inl (ground arith)))
    | inr other ↦ rw (other, Ensures) (refl, find_in-Found id w (ground arith))
  ]

  -- `join`, on a set whose keys ascend, returns. If at most `max_conn` sessions are connected it says
  -- yes, and the set, still ascending, has the session beside those it had; otherwise it says no, and
  -- nothing changes.
  pub join_lem :
      (incomer : ℕ) (w : World)
      → Ascends 0 w.mgr.connection_list
      → Ensures
          (λ r.
            ((r.0 ≡ true)
              × (length w.mgr.connection_list ≤ w.mgr.max_conn)
              × Ascends 0 r.1.mgr.connection_list
              × ((k : ℕ)
                  → count k r.1.mgr.connection_list
                    ≡ (if incomer == k then 1 else count k w.mgr.connection_list)))
            ⊎ ((r.0 ≡ false) × (w.mgr.max_conn < length w.mgr.connection_list) × (r.1 ≡ w)))
          (join incomer w)
  unfolding join
  join_lem incomer w a = elim (Bool-cases (ltb w.mgr.max_conn (length w.mgr.connection_list))) [
    | inl full ↦ rw (full, Ensures) (inr (refl, ground arith, refl))
    | inr room ↦
        rw (room, Ensures)
          (inl (
            refl,
            ground arith,
            set_insert-Ascends incomer 0 w.mgr.connection_list a (omega arith),
            λ k. count-set_insert incomer k 0 w.mgr.connection_list a,
          ))
  ]

  -- `leave`, on a set whose keys ascend, returns; the session is out of the set, which still ascends
  -- and has the others as before.
  pub leave_lem :
      (outcomer : ℕ) (w : World)
      → Ascends 0 w.mgr.connection_list
      → Ensures
          (λ r.
            Ascends 0 r.1.mgr.connection_list
            × ((k : ℕ)
                → count k r.1.mgr.connection_list
                  ≡ (if outcomer == k then 0 else count k w.mgr.connection_list)))
          (leave outcomer w)
  unfolding leave
  leave_lem outcomer w a = (
    set_erase-Ascends outcomer 0 w.mgr.connection_list a,
    λ k. count-set_erase outcomer k 0 w.mgr.connection_list a,
  )

  -- Where exactly `max_conn` sessions are connected, in ascending order, `can_join` says yes, a session
  -- that is not among them joins, and `max_conn + 1` are connected.
  pub join-past_limit :
      (incomer : ℕ) (w : World)
      → Ascends 0 w.mgr.connection_list
      → count incomer w.mgr.connection_list ≡ 0
      → length w.mgr.connection_list ≡ w.mgr.max_conn
      → (can_join w ≡ some (true, w))
        × Ensures
            (λ r. (r.0 ≡ true) × (length r.1.mgr.connection_list ≡ w.mgr.max_conn + 1))
            (join incomer w)
  unfolding can_join join
  join-past_limit incomer w a new at_limit =
      let room : ltb w.mgr.max_conn (length w.mgr.connection_list) ≡ false = ground arith in
      let grown = length-set_insert_new incomer 0 w.mgr.connection_list a new in
      (rw room, rw (room, Ensures) (refl, omega (arith, grown)))
