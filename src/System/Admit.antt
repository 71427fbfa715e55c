-- ===== src/System/Admit.antt =====
-- One thread in server_tcp::handler_accept (asio_test/server.h), while others run the handlers of reads
-- and writes between its `can_join` and its `start`.
use asio_tcp.Base.{
  ℕ, suc, ◌≤◌, ◌<◌, ◌≡◌, refl, ◌∙◌, true, false, some, List, [], ◌∷◌, count, length, Ensures,
  Ensures-mono, arith, subst, sym,
}
use asio_tcp.Ring.{CircularBuffer}
use asio_tcp.Message.{Hdr}
use asio_tcp.World.{World}
use asio_tcp.World.Steps.{bind-Ensures}
use asio_tcp.Manager.{set_insert, can_join}
use asio_tcp.Session.{start}
use asio_tcp.Server.{start_accept, next_client_id}
use asio_tcp.Server.Race.{after_can_join, start-joins, counted, is_full}
use asio_tcp.System.{
  Event, header_arrived, body_arrived, header_sent, body_sent, accepted, started, stopped, handle,
  Enabled, Sane,
}
use asio_tcp.System.Run.{handle-Sane}
use asio_tcp.System.Accept.{length-set_insert}
use asio_tcp.System.Numbers.{
  Named, header_arrived-Named, body_arrived-Named, header_sent-Named, body_sent-Named,
}

-- The reads and writes of sessions.
abbrev pub OfSessions : Event → Type 0
OfSessions (accepted i error found h) = ⊥
OfSessions (started binds h) = ⊥
OfSessions (stopped refuses) = ⊥
OfSessions _ = Unit {0}

set_insert-mem : (k : ℕ) (js : List ℕ) → 0 < count k (set_insert k js)
unfolding set_insert
set_insert-mem k [] = ground arith
set_insert-mem k (j ∷ js) = ground (arith, set_insert-mem k js)

module _ ⦃cb : CircularBuffer⦄ where
  -- From `w`, handlers of reads and writes were run.
  pub data Meanwhile (w : World) : World → Type 0 where
    at_once : Meanwhile w w
    then_handled :
        {u v : World} (e : Event)
        → Meanwhile w u
        → OfSessions e
        → Enabled e u
        → handle e u ≡ some (tt, v)
        → Meanwhile w v

  -- No more sessions are connected, and the limit is the same.
  record NoMore (w v : World) : Type 0 where
    fewer : length v.mgr.connection_list ≤ length w.mgr.connection_list
    limit : v.mgr.max_conn ≡ w.mgr.max_conn

  Named-NoMore : (k : ℕ) (w v : World) → Named k w v → NoMore w v
  Named-NoMore k w v n = record { fewer = n.3; limit = n.4 }

  event-NoMore :
      (e : Event) (w : World)
      → Sane w
      → OfSessions e
      → Enabled e w
      → Ensures (λ r. NoMore w r.1) (handle e w)
  event-NoMore (header_arrived k error h) w sane of en =
      Ensures-mono (λ r. Named k w r.1) (λ r. NoMore w r.1) (λ r n. Named-NoMore k w r.1 n) _
        (header_arrived-Named k w sane en.2 error h)
  event-NoMore (body_arrived k error bytes) w sane of en =
      Ensures-mono (λ r. Named k w r.1) (λ r. NoMore w r.1) (λ r n. Named-NoMore k w r.1 n) _
        (body_arrived-Named k w sane en.3 error bytes)
  event-NoMore (header_sent k error) w sane of en =
      Ensures-mono (λ r. Named k w r.1) (λ r. NoMore w r.1) (λ r n. Named-NoMore k w r.1 n) _
        (header_sent-Named k w sane en.3 error en)
  event-NoMore (body_sent k error) w sane of en =
      Ensures-mono (λ r. Named k w r.1) (λ r. NoMore w r.1) (λ r n. Named-NoMore k w r.1 n) _
        (body_sent-Named k w sane en.3 error en)
  event-NoMore (accepted i error found h) w sane of en = absurd of
  event-NoMore (started binds h) w sane of en = absurd of
  event-NoMore (stopped refuses) w sane of en = absurd of

  Meanwhile-NoMore : {w v : World} → Sane w → Meanwhile w v → Sane v × NoMore w v
  Meanwhile-NoMore sane at_once = (sane, record { fewer = omega arith; limit = refl })
  Meanwhile-NoMore {w} sane (then_handled {u = u} e m of en eq) =
      let (s, n) = Meanwhile-NoMore sane m in
      let s' = handle-Sane e u s en in
      let n' = event-NoMore e u s of en in (rw eq at s', later n (rw eq at n'))
    where
      later : {v : World} → NoMore w u → NoMore u v → NoMore w v
      later a b = record { fewer = omega (arith, a.fewer, b.fewer); limit = b.limit ∙ a.limit }

  can_join-room : (w : World) → can_join w ≡ some (true, w) → is_full w ≡ false
  unfolding can_join
  can_join-room w e = ground arith

  -- From a sane state in which `can_join` says yes, if the accepted socket has its addresses, whatever
  -- reads and writes are handled before handler_accept goes on: it returns, its session is connected, and
  -- at most `max_conn + 1` are.
  pub after_can_join-Meanwhile :
      (k : ℕ) (header : Hdr) {w v : World}
      → Sane w
      → can_join w ≡ some (true, w)
      → Meanwhile w v
      → Ensures
          (λ r.
            (0 < count k r.1.mgr.connection_list)
            × (length r.1.mgr.connection_list ≤ suc r.1.mgr.max_conn))
          (after_can_join k true true header v)
  unfolding after_can_join next_client_id start_accept
  after_can_join-Meanwhile k header {w} {v} sane joinable m =
      bind-Ensures
        (λ r.
          (r.1.mgr.connection_list ≡ set_insert k v.mgr.connection_list)
          × (r.1.mgr.max_conn ≡ v.mgr.max_conn))
        _ (start k v.server.curr_client_id true) (λ _. start_accept header) (counted v)
        (start-joins k v.server.curr_client_id (counted v) (still v n))
        λ _ u d. (
          subst (λ (l : List ℕ). 0 < count k l) (sym d.0) (set_insert-mem k v.mgr.connection_list),
          ground (arith, d.1, length-set_insert k v.mgr.connection_list, sym d.0, still v n),
        )
    where
      n : NoMore w v
      n = (Meanwhile-NoMore sane m).1

      still : (v : World) → NoMore w v → is_full v ≡ false
      still v n = ground (arith, can_join-room w joinable, n.fewer, n.limit)
