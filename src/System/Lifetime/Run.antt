-- ===== src/System/Lifetime/Run.antt =====
-- Sessions that nothing holds any more, along a run of the server (asio_test).
use asio_tcp.Base.{
  ℕ, ◌≤◌, ◌<◌, ◌≡◌, ◌≢◌, refl, ap, Bool, true, false, List, [], ◌∷◌, count, count-append, length,
  drop, update_ne, arith, Ensures, Ensures-mono, Ensures-and, Bool-cases, inl, inr, ltb,
}
use asio_tcp.Ring.{CircularBuffer}
use asio_tcp.Message.{Hdr}
use asio_tcp.World.{Session, Server, Manager, World, ◌>>◌, set_list, modify}
use asio_tcp.World.Steps.{bind-Ensures}
use asio_tcp.Manager
use asio_tcp.Manager.{close_socket, set_insert, leave, join, can_join, disconnect, clear_buffer}
use asio_tcp.Session.{do_read, start}
use asio_tcp.Server.{
  set_server, start_accept, serve, shut_down, handler_accept, admit, next_client_id,
}
use asio_tcp.Ownership.{Inv}
use asio_tcp.Ownership.Memory.{OnlyHeap}
use asio_tcp.Ownership.Clear.{drop_pool, clear_buffer-Inv}
use asio_tcp.System.{
  Event, header_arrived, body_arrived, header_sent, body_sent, accepted, started, stopped, handle,
  Enabled, Sane, handle-started, handle-stopped,
}
use asio_tcp.System.Stop.{disconnected}
use asio_tcp.System.Accept.{renumber-Sane}
use asio_tcp.System.Lifetime.{
  use_count, Keeps, Keeps-refl, Keeps-trans, then-Keeps, set_session-Keeps, leave-Keeps,
  count-set_insert, count-drop, header_arrived-Keeps, body_arrived-Keeps, header_sent-Keeps,
  body_sent-Keeps,
}

module _ ⦃cb : CircularBuffer⦄ (i : ℕ) where
  abbrev set_server-Keeps :
      (s : Server) (w : World)
      → count i s.accepting ≤ count i w.server.accepting
      → Keeps i w (set_server s w)
  set_server-Keeps s w le = record {
    same = refl;
    listed = omega arith;
    awaited = le;
    grown = omega arith;
  }

  -- A session is made, and it is another one.
  start_accept-Keeps :
      (h : Hdr) (w : World) → i < w.created → Ensures (λ r. Keeps i w r.1) (start_accept h w)
  unfolding start_accept
  start_accept-Keeps h w lt = record {
    same = update_ne w.session w.created i _ (λ e. absurd (omega (arith, e, lt)));
    listed = omega arith;
    awaited = ground (arith, lt, count-append i w.server.accepting (w.created ∷ []));
    grown = omega arith;
  }

  pub start-Keeps :
      (k id : ℕ) (w : World)
      → k ≢ i
      → ltb w.mgr.max_conn (length w.mgr.connection_list) ≡ false
      → Ensures (λ r. Keeps i w r.1) (start k id true w)
  unfolding start join do_read
  start-Keeps k id w ne room =
      rw (room, Ensures)
        (Keeps-trans (set_session-Keeps i k ne _ w) (
          Keeps-trans
            (record {
              same = refl;
              listed = omega (arith, count-set_insert i k w.mgr.connection_list ne);
              awaited = omega arith;
              grown = omega arith;
            })
            (set_session-Keeps i k ne _ _)))

  pub admit-Keeps :
      (k : ℕ) (error : Bool) (w : World)
      → k ≢ i
      → Ensures (λ r. Keeps i w r.1) (admit k error true w)
  unfolding admit can_join next_client_id
  admit-Keeps k true w ne = leave-Keeps i k ne w
  admit-Keeps k false w ne = elim (Bool-cases (ltb w.mgr.max_conn (length w.mgr.connection_list))) [
    | inl full ↦ rw (full, Ensures) (Keeps-refl i w)
    | inr room ↦
        rw (room, Ensures)
          (then-Keeps (start k w.server.curr_client_id true) (set_server-Keeps _ w (omega arith))
            (start-Keeps k w.server.curr_client_id _ ne room))
  ]

  accepted-Keeps :
      (k : ℕ) (error : Bool) (h : Hdr) (w : World)
      → i < w.created
      → k ≢ i
      → Ensures (λ r. Keeps i w r.1) (handle (accepted k error true h) w)
  unfolding handle handler_accept
  accepted-Keeps k error h w lt ne =
      let taken =
        set_server-Keeps (record (w.server) { accepting = drop 1 w.server.accepting }) w
          (count-drop i 1 w.server.accepting) in
      then-Keeps (admit k error true >> start_accept h) taken (
        bind-Ensures (λ r. Keeps i x r.1) (λ r. Keeps i x r.1) (admit k error true)
          (λ _. start_accept h) x (admit-Keeps k error x ne)
          λ _ v a.
            then-Keeps (start_accept h) a (start_accept-Keeps h v (omega (arith, lt, a.grown))))
    where
      x : World
      x = set_server (record (w.server) { accepting = drop 1 w.server.accepting }) w

  started-Keeps : (h : Hdr) (w : World) → i < w.created → Ensures (λ r. Keeps i w r.1) (serve h w)
  unfolding handle serve
  started-Keeps h w lt =
      bind-Ensures (λ r. Keeps i w r.1) (λ r. Keeps i w r.1) (start_accept h) _ u
        (then-Keeps (start_accept h) (set_server-Keeps u.server w (omega arith))
          (start_accept-Keeps h u lt))
        λ _ v a. Keeps-trans a (set_server-Keeps _ v (omega arith))
    where
      u : World
      u =
          set_server
            (record (w.server) { ios_stopped = false; listening = true; curr_client_id = 1 }) w

  -- Only the sockets of the sessions in the set are closed.
  disconnect-Keeps :
      (refuses : ℕ → Bool) (willing : (j : ℕ) → refuses j ≡ false) (is : List ℕ) (w : World)
      → count i is ≡ 0
      → Ensures (λ r. Keeps i w r.1) (disconnect refuses is w)
  unfolding disconnect
  disconnect-Keeps refuses willing [] w none = Keeps-refl i w
  disconnect-Keeps refuses willing (k ∷ is) w none = elim (Bool-cases (refuses k)) [
    | inl e ↦ absurd (cc (e, willing k))
    | inr e ↦
        rw (e, Ensures)
          (then-Keeps (disconnect refuses is)
            (set_session-Keeps i k (λ e. ground (arith, e, none)) _ w)
            (disconnect-Keeps refuses willing is _ (omega (arith, none))))
  ]

  stopped-Keeps :
      (refuses : ℕ → Bool) (willing : (j : ℕ) → refuses j ≡ false) (w : World)
      → Sane w
      → count i w.mgr.connection_list ≡ 0
      → Ensures (λ r. Keeps i w r.1) (shut_down refuses w)
  unfolding handle shut_down Manager.stop
  stopped-Keeps refuses willing w sane none =
      bind-Ensures
        (λ r.
          (Sane r.1
            × (r.1.mgr.connection_list ≡ [])
            × (r.1.server ≡ u.server)
            × (r.1.created ≡ u.created))
          × Keeps i w r.1)
        (λ r. Keeps i w r.1) (Manager.stop refuses) _ u
        (Ensures-and _ _ (Manager.stop refuses u)
          (disconnected refuses willing u (renumber-Sane u.server w sane refl))
          (bind-Ensures (λ r. Keeps i w r.1) (λ r. Keeps i w r.1)
            (disconnect refuses w.mgr.connection_list) (λ _. modify (set_list [])) u
            (then-Keeps (disconnect refuses w.mgr.connection_list)
              (set_server-Keeps u.server w (omega arith))
              (disconnect-Keeps refuses willing w.mgr.connection_list u none))
            λ _ v a. record {
              same = a.same;
              listed = omega arith;
              awaited = a.awaited;
              grown = a.grown;
            }))
        λ _ v (d, a).
          let s = record (v.server) { ios_stopped = true; io_threads = [] } in
          let x = set_server s v in
          Ensures-mono (λ r. Inv [] r.1 × OnlyHeap (drop_pool x) r.1) (λ r. Keeps i w r.1)
            (λ r m. Keeps-trans a (record {
              same = ap (λ (f : ℕ → Session). f i) m.1.session;
              listed = omega (arith, ap (λ (m : Manager). count i m.connection_list) m.1.mgr);
              awaited = omega (arith, ap (λ (s : Server). count i s.accepting) m.1.server);
              grown = omega (arith, m.1.created);
            }))
            (clear_buffer x) (clear_buffer-Inv x (renumber-Sane s v d.0 refl).inv)
    where
      u : World
      u = set_server (record (w.server) { listening = false }) w

  not_held : (k : ℕ) (w : World) → use_count i w ≡ 0 → 0 < use_count k w → k ≢ i
  not_held k w gone pos e = omega (arith, gone, pos, ap (λ j. use_count j w) e)

  -- An event is one of a session that is held.
  pub handle-Keeps :
      (e : Event) (w : World)
      → Sane w
      → Enabled e w
      → i < w.created
      → use_count i w ≡ 0
      → Ensures (λ r. Keeps i w r.1) (handle e w)
  unfolding use_count
  handle-Keeps (header_arrived k error h) w sane en lt gone =
      header_arrived-Keeps i k (not_held k w gone (omega (arith, ap length en.1))) w sane en.2 error
        h
  handle-Keeps (body_arrived k error bytes) w sane en lt gone =
      body_arrived-Keeps i k (not_held k w gone (omega (arith, ap length en.2))) w sane en.3 error
        bytes
  handle-Keeps (header_sent k error) w sane en lt gone =
      header_sent-Keeps i k (not_held k w gone (omega (arith, ap length en.2))) w sane en.3 error en
  handle-Keeps (body_sent k error) w sane en lt gone =
      body_sent-Keeps i k (not_held k w gone (omega (arith, ap length en.2))) w sane en.3 error en
  handle-Keeps (accepted k error false h) w sane en lt gone = absurd (cc en.2)
  handle-Keeps (accepted k error true h) w sane (rest, e, _) lt gone =
      accepted-Keeps k error h w lt (not_held k w gone (omega (arith, ap (count k) e, first)))
    where
      first : 0 < count k (k ∷ rest)
      first = ground arith
  handle-Keeps (started binds h) w sane en lt gone =
      rw (handle-started binds h w en) (started-Keeps h w lt)
  handle-Keeps (stopped refuses) w sane en lt gone =
      rw (handle-stopped refuses w en) (stopped-Keeps refuses en.1 w sane (omega (arith, gone)))
