-- ===== src/Server/Race.antt =====
-- Two threads of the io_service in server_tcp::handler_accept (asio_test/server.h) at once, as they can
-- be when two accepts are pending: nothing is locked between `can_join` and the `join` in `start`.
use asio_tcp.Base.{
  ℕ, suc, ◌+◌, ◌≡◌, ◌≢◌, ◌↔◌, refl, ap, sym, subst, ◌∙◌, inl, inr, Bool, true, false, none, some,
  [], ◌∷◌, count, length, ltb, if◌then◌else◌, Bool-cases, Ensures, Ensures-mono, Ensures-value,
  arith, List, ℕ_discrete,
}
use asio_tcp.Ring.{CircularBuffer}
use asio_tcp.Message.{Hdr}
use asio_tcp.World.{World, M, ◌>>=◌, ◌>>◌, pure}
use asio_tcp.World.Steps.{bind-Ensures, bind-eq_of_some, bind-eq_of_none}
use asio_tcp.Manager.{set_insert, can_join, join}
use asio_tcp.Session.{start, do_read}
use asio_tcp.Server.{u32, set_server, start_accept, next_client_id, admit, handler_accept}

length-set_insert_absent :
    (i : ℕ) (js : List ℕ) → count i js ≡ 0 → length (set_insert i js) ≡ suc (length js)
unfolding set_insert
length-set_insert_absent i [] new = refl
length-set_insert_absent i (j ∷ js) new = ground (arith, length-set_insert_absent i js)

module _ ⦃cb : CircularBuffer⦄ where
  -- What handler_accept does after `can_join`.
  unfoldable pub after_can_join : ℕ → Bool → Bool → Hdr → M (Unit {0})
  after_can_join new room found header =
      (if room then (next_client_id >>= λ id. start new id found) else pure tt)
      >> start_accept header

  -- handler_accept for session `a`; after its `can_join` the whole handler_accept of another thread,
  -- for session `b`, comes before it goes on. Both sockets have their addresses.
  unfoldable pub overtaken_accept : ℕ → ℕ → Hdr → M (Unit {0})
  overtaken_accept a b header =
      can_join >>= λ room. handler_accept b false true header >> after_can_join a room true header

  abbrev pub connected : World → ℕ
  connected w = length w.mgr.connection_list

  abbrev pub is_full : World → Bool
  is_full w = ltb w.mgr.max_conn (connected w)

  -- In `v` there are `n` connected sessions, and the limit is that of `w`.
  abbrev Connected : ℕ → World → World → Type 0
  Connected n w v = (v.mgr.max_conn ≡ w.mgr.max_conn) × (connected v ≡ n)

  pub start-joins :
      (k id : ℕ) (w : World)
      → is_full w ≡ false
      → Ensures
          (λ r.
            (r.1.mgr.connection_list ≡ set_insert k w.mgr.connection_list)
            × (r.1.mgr.max_conn ≡ w.mgr.max_conn))
          (start k id true w)
  unfolding start join do_read
  start-joins k id w room = rw (room, Ensures) (refl, refl)

  start-Connected :
      (k id : ℕ) (w : World)
      → is_full w ≡ false
      → Ensures
          (λ r. Connected (length (set_insert k w.mgr.connection_list)) w r.1)
          (start k id true w)
  start-Connected k id w room =
      Ensures-mono _ (λ r. Connected (length (set_insert k w.mgr.connection_list)) w r.1)
        (λ r d. (d.1, ap length d.0)) (start k id true w) (start-joins k id w room)

  join-full : (k : ℕ) (w : World) → is_full w ≡ true → join k w ≡ some (false, w)
  unfolding join
  join-full k w full = rw full

  start-full : (k id : ℕ) (w : World) → is_full w ≡ true → start k id true w ≡ none
  unfolding start
  start-full k id w full = bind-eq_of_some (join k) _ (join-full k _ full)

  can_join_lem :
      {full : Bool} (w : World)
      → is_full w ≡ full
      → can_join w ≡ some (if full then false else true, w)
  unfolding can_join
  can_join_lem w e = rw e

  -- The state after `curr_client_id_++`.
  abbrev pub counted : World → World
  counted w =
      set_server (record (w.server) { curr_client_id = u32 (w.server.curr_client_id + 1) }) w

  -- One accept alone, without room and with room.
  handler_accept-full :
      (k : ℕ) (header : Hdr) (w : World)
      → is_full w ≡ true
      → Ensures (λ r. Connected (connected w) w r.1) (handler_accept k false true header w)
  unfolding handler_accept admit can_join start_accept
  handler_accept-full k header w full = rw (full, Ensures) (refl, refl)

  admit-room :
      (k : ℕ) (w : World)
      → count k w.mgr.connection_list ≡ 0
      → is_full w ≡ false
      → Ensures (λ r. Connected (suc (connected w)) w r.1) (admit k false true w)
  unfolding admit can_join next_client_id
  admit-room k w new room =
      rw (room, Ensures)
        (subst
          (λ n. Ensures (λ r. Connected n w r.1) (start k w.server.curr_client_id true (counted w)))
          (length-set_insert_absent k w.mgr.connection_list new)
          (start-Connected k w.server.curr_client_id (counted w) room))

  handler_accept-room :
      (k : ℕ) (header : Hdr) (w : World)
      → count k w.mgr.connection_list ≡ 0
      → is_full w ≡ false
      → Ensures (λ r. Connected (suc (connected w)) w r.1) (handler_accept k false true header w)
  unfolding handler_accept start_accept
  handler_accept-room k header w new room =
      bind-Ensures (λ r. Connected (suc (connected w)) w r.1)
        (λ r. Connected (suc (connected w)) w r.1) (admit k false true) (λ _. start_accept header) w
        (admit-room k w new room) λ _ v d. d

  goes_on :
      (a b : ℕ) (header : Hdr) (w v : World) {full : Bool}
      → is_full w ≡ full
      → handler_accept b false true header w ≡ some (tt, v)
      → overtaken_accept a b header w
        ≡ after_can_join a (if full then false else true) true header v
  unfolding overtaken_accept
  goes_on a b header w v e eq =
      bind-eq_of_some can_join _ (can_join_lem _ e)
      ∙ bind-eq_of_some (handler_accept b false true header) _ eq

  after_can_join-full :
      (k : ℕ) (header : Hdr) (v : World)
      → is_full v ≡ true
      → after_can_join k true true header v ≡ none
  unfolding after_can_join next_client_id
  after_can_join-full k header v full =
      bind-eq_of_none (next_client_id >>= λ id. start k id true) (λ _. start_accept header)
        (start-full k v.server.curr_client_id _ full)

  after_can_join-room :
      (k : ℕ) (header : Hdr) (v : World)
      → is_full v ≡ false
      → after_can_join k true true header v ≢ none
  unfolding after_can_join next_client_id start_accept
  after_can_join-room k header v room faulted =
      let ((_, u), eq, d) =
        Ensures-value (λ r. Connected (length (set_insert k v.mgr.connection_list)) v r.1)
          (start k v.server.curr_client_id true (counted v))
          (start-Connected k v.server.curr_client_id (counted v) room) in
      cc (
        bind-eq_of_some (next_client_id >>= λ id. start k id true) (λ _. start_accept header)
            {w = v} {v = u} eq,
        faulted,
      )

  refused : (k : ℕ) (header : Hdr) (v : World) → after_can_join k false true header v ≢ none
  unfolding after_can_join start_accept
  refused k header v e = cc e

  overtaken_at_limit :
      (a b : ℕ) (header : Hdr) (w : World)
      → count b w.mgr.connection_list ≡ 0
      → connected w ≡ w.mgr.max_conn
      → overtaken_accept a b header w ≡ none
  overtaken_at_limit a b header w new at_limit =
      let room : is_full w ≡ false = ground arith in
      let ((_, v), eq, d) =
        Ensures-value (λ r. Connected (suc (connected w)) w r.1)
          (handler_accept b false true header w) (handler_accept-room b header w new room) in
      goes_on a b header w v room eq ∙ after_can_join-full a header v (past w v at_limit d)
    where
      past :
          (w v : World)
          → connected w ≡ w.mgr.max_conn
          → Connected (suc (connected w)) w v
          → is_full v ≡ true
      past w v e d = ground arith

  overtaken_off_limit :
      (a b : ℕ) (header : Hdr) (w : World)
      → count b w.mgr.connection_list ≡ 0
      → connected w ≢ w.mgr.max_conn
      → overtaken_accept a b header w ≢ none
  overtaken_off_limit a b header w new off_limit faulted = elim (Bool-cases (is_full w)) [
    | inl full ↦
        let ((_, v), eq, d) =
          Ensures-value (λ r. Connected (connected w) w r.1) (handler_accept b false true header w)
            (handler_accept-full b header w full) in
        refused a header v (sym (goes_on a b header w v full eq) ∙ faulted)
    | inr room ↦
        let ((_, v), eq, d) =
          Ensures-value (λ r. Connected (suc (connected w)) w r.1)
            (handler_accept b false true header w) (handler_accept-room b header w new room) in
        after_can_join-room a header v (still w v off_limit room d)
          (sym (goes_on a b header w v room eq) ∙ faulted)
  ]
    where
      still :
          (w v : World)
          → connected w ≢ w.mgr.max_conn
          → is_full w ≡ false
          → Connected (suc (connected w)) w v
          → is_full v ≡ false
      still w v off room d = ground arith

  -- If `b` is not connected, and both sockets have their addresses: handler_accept for `b` adds one
  -- session to the set unless more than `max_conn` are connected; and handler_accept for `a`, which is
  -- overtaken by it after `can_join`, faults exactly if `max_conn` sessions are connected.
  pub overtaken_accept-none_iff :
      (a b : ℕ) (header : Hdr) (w : World)
      → count b w.mgr.connection_list ≡ 0
      → Ensures
          (λ r. length r.1.mgr.connection_list ≡ (
            if ltb w.mgr.max_conn (length w.mgr.connection_list)
            then length w.mgr.connection_list
            else suc (length w.mgr.connection_list)))
          (handler_accept b false true header w)
        × ((overtaken_accept a b header w ≡ none) ↔ (length w.mgr.connection_list ≡ w.mgr.max_conn))
  overtaken_accept-none_iff a b header w new = (
    elim (Bool-cases (is_full w)) [
      | inl full ↦ rw full (
          Ensures-mono (λ r. Connected (connected w) w r.1) (λ r. connected r.1 ≡ connected w)
            (λ r d. d.1) (handler_accept b false true header w)
            (handler_accept-full b header w full))
      | inr room ↦ rw room (
          Ensures-mono (λ r. Connected (suc (connected w)) w r.1)
            (λ r. connected r.1 ≡ suc (connected w)) (λ r d. d.1)
            (handler_accept b false true header w) (handler_accept-room b header w new room))
    ],
    (
      λ faulted. elim (ℕ_discrete (connected w) w.mgr.max_conn) [
        | yes e ↦ e
        | no ne ↦ absurd (overtaken_off_limit a b header w new ne faulted)
      ],
      overtaken_at_limit a b header w new,
    ),
  )
