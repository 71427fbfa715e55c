-- ===== src/System/Fifo/Run.antt =====
-- The sessions of a server (asio_test) as queues, along any sequence of events.
use asio_tcp.Base.{
  suc, ℕ, ◌<◌, ◌≡◌, refl, sym, ap, subst, ◌∙◌, Bool, true, false, List, [], ◌∷◌, length, ltb,
  update, update_ne, update_self, arith, Ensures, Ensures-mono, Ensures-and, ℕ_discrete, Bool-cases,
  inl, inr,
}
use asio_tcp.Ring.{CircularBuffer}
use asio_tcp.Message.{Hdr}
use asio_tcp.World.{Session, World, set_session}
use asio_tcp.World.Steps.{bind-Ensures}
use asio_tcp.Manager
use asio_tcp.Manager.{disconnect, clear_buffer, leave, join, can_join}
use asio_tcp.Session.{new_session, start, do_read}
use asio_tcp.Server.{
  set_server, start_accept, serve, shut_down, handler_accept, admit, next_client_id,
}
use asio_tcp.Ownership.{Inv}
use asio_tcp.Ownership.Memory.{OnlyHeap}
use asio_tcp.Ownership.Clear.{drop_pool, clear_buffer-Inv}
use asio_tcp.System.{
  Event, header_arrived, body_arrived, header_sent, body_sent, accepted, started, stopped, handle,
  Enabled, Sane, handle-started, handle-stopped,
}
use asio_tcp.System.Stop.{disconnected}
use asio_tcp.System.Accept.{renumber-Sane}
use asio_tcp.System.Fifo.{Fifo, nothing, label, FifoStep, stay_at, fifo}
use asio_tcp.System.Fifo.Moves.{
  Steps, header_arrived-Steps, body_arrived-Steps, header_sent-Steps, body_sent-Steps,
}

update-fifo :
    (f : ℕ → Session) (k : ℕ) (s : Session) (i : ℕ)
    → fifo s ≡ fifo (f k)
    → fifo (update f k s i) ≡ fifo (f i)
update-fifo f k s i e = elim (ℕ_discrete k i) [
  | yes same ↦
      subst (λ j. fifo (update f k s j) ≡ fifo (f j)) same (ap fifo (update_self f k s) ∙ e)
  | no other ↦ ap fifo (update_ne f k i s other)
]

module _ ⦃cb : CircularBuffer⦄ where
  -- The queues of the sessions that there were stay as they are.
  abbrev pub Calm : World → World → Type 0
  Calm w w' =
      (w'.created ≡ w.created)
      × ((i : ℕ) → fifo (w'.session i) ≡ fifo (w.session i))
      × (w'.heap ≡ w.heap)

  abbrev closed : ℕ → World → World
  closed k w =
      set_session k (record (w.session k) { socket = Manager.close_socket (w.session k).socket }) w

  disconnect-Calm :
      (refuses : ℕ → Bool) (willing : (j : ℕ) → refuses j ≡ false) (is : List ℕ) (w : World)
      → Ensures (λ r. Calm w r.1) (disconnect refuses is w)
  unfolding disconnect
  disconnect-Calm refuses willing [] w = (refl, λ i. refl, refl)
  disconnect-Calm refuses willing (k ∷ is) w = elim (Bool-cases (refuses k)) [
    | inl e ↦ absurd (cc (e, willing k))
    | inr e ↦ rw e (
        Ensures-mono (λ r. Calm (closed k w) r.1) (λ r. Calm w r.1)
          (λ r c. (c.0, λ i. c.1 i ∙ update-fifo w.session k _ i refl, c.2))
          (disconnect refuses is (closed k w)) (disconnect-Calm refuses willing is (closed k w)))
  ]

  pub stop-Calm :
      (refuses : ℕ → Bool) (willing : (j : ℕ) → refuses j ≡ false) (w : World)
      → Ensures (λ r. Calm w r.1) (Manager.stop refuses w)
  unfolding Manager.stop
  stop-Calm refuses willing w =
      bind-Ensures (λ r. Calm w r.1) (λ r. Calm w r.1) (disconnect refuses w.mgr.connection_list) _
        w (disconnect-Calm refuses willing w.mgr.connection_list w) λ _ v c. c

  -- A session that is made is none of the old ones, and has an empty queue.
  new_one :
      (h : Hdr) (u v w : World)
      → Calm u v
      → w.created ≡ suc v.created
      → w.session ≡ update v.session v.created (new_session h)
      → Steps (λ i. nothing) u w
  unfolding new_session
  new_one h u v w c more table = record {
    grown = omega (arith, more, c.0);
    steps = λ i lt. stay_at (
        sym (
          ap (λ (f : ℕ → Session). fifo (f i)) table
          ∙ ap fifo (update_ne v.session v.created i _ (λ e. absurd (omega (arith, e, lt, c.0))))
          ∙ c.1 i));
    unborn = λ i ge. elim (ℕ_discrete v.created i) [
      | yes e ↦ inr (
          ap (λ (f : ℕ → Session). (f i).msg_queue) table
          ∙ subst (λ j. (update v.session v.created (new_session h) j).msg_queue ≡ []) e
              (ap (λ (s : Session). s.msg_queue) (update_self v.session v.created (new_session h))))
      | no ne ↦ inl (
          ap (λ (f : ℕ → Session). (f i).msg_queue) table
          ∙ ap (λ (s : Session). s.msg_queue) (update_ne v.session v.created i _ ne)
          ∙ ap (λ (f : Fifo). f.queue) (c.1 i))
    ];
  }

  started-Steps : (h : Hdr) (w : World) → Ensures (λ r. Steps (λ i. nothing) w r.1) (serve h w)
  unfolding handle serve start_accept
  started-Steps h w = new_one h w w _ (refl, λ i. refl, refl) refl refl

  stopped-Steps :
      (refuses : ℕ → Bool) (willing : (j : ℕ) → refuses j ≡ false) (w : World)
      → Sane w
      → Ensures (λ r. Steps (λ i. nothing) w r.1) (shut_down refuses w)
  unfolding handle shut_down
  stopped-Steps refuses willing w sane =
      bind-Ensures
        (λ r.
          (Sane r.1
            × (r.1.mgr.connection_list ≡ [])
            × (r.1.server ≡ u.server)
            × (r.1.created ≡ u.created))
          × Calm u r.1)
        (λ r. Steps (λ i. nothing) w r.1) (Manager.stop refuses) _ u
        (Ensures-and _ _ (Manager.stop refuses u)
          (disconnected refuses willing u (renumber-Sane u.server w sane refl))
          (stop-Calm refuses willing u))
        λ _ v (d, c).
          let s = record (v.server) { ios_stopped = true; io_threads = [] } in
          let x = set_server s v in
          Ensures-mono (λ r. Inv [] r.1 × OnlyHeap (drop_pool x) r.1)
            (λ r. Steps (λ i. nothing) w r.1)
            (λ r m.
              let calm : (i : ℕ) → fifo (r.1.session i) ≡ fifo (w.session i) =
                λ i. ap (λ (f : ℕ → Session). fifo (f i)) m.1.session ∙ c.1 i in
              record {
                grown = omega (arith, m.1.created, c.0);
                steps = λ i lt. stay_at (sym (calm i));
                unborn = λ i ge. inl (ap (λ (f : Fifo). f.queue) (calm i));
              })
            (clear_buffer x) (clear_buffer-Inv x (renumber-Sane s v d.0 refl).inv)
    where
      u : World
      u = set_server (record (w.server) { listening = false }) w

  -- A session that starts, while there is room.
  start-Calm :
      (k id : ℕ) (w : World)
      → ltb w.mgr.max_conn (length w.mgr.connection_list) ≡ false
      → Ensures (λ r. Calm w r.1) (start k id true w)
  unfolding start join do_read
  start-Calm k id w room =
      rw (room, Ensures)
        (
          refl,
          λ i. update-fifo (update w.session k _) k _ i refl ∙ update-fifo w.session k _ i refl,
          refl,
        )

  pub admit-Calm :
      (k : ℕ) (error : Bool) (w : World) → Ensures (λ r. Calm w r.1) (admit k error true w)
  unfolding admit can_join next_client_id leave
  admit-Calm k true w = (refl, λ i. refl, refl)
  admit-Calm k false w = elim (Bool-cases (ltb w.mgr.max_conn (length w.mgr.connection_list))) [
    | inl full ↦ rw (full, Ensures) (refl, λ i. refl, refl)
    | inr room ↦ rw (room, Ensures) (start-Calm k w.server.curr_client_id _ room)
  ]

  start_accept-Steps :
      (h : Hdr) (u w : World)
      → Calm u w
      → Ensures (λ r. Steps (λ i. nothing) u r.1) (start_accept h w)
  unfolding start_accept
  start_accept-Steps h u w c = new_one h u w _ c refl refl

  accepted-Steps :
      (k : ℕ) (error : Bool) (h : Hdr) (w : World)
      → Ensures (λ r. Steps (λ i. nothing) w r.1) (handle (accepted k error true h) w)
  unfolding handle handler_accept
  accepted-Steps k error h w =
      bind-Ensures (λ r. Calm w r.1) (λ r. Steps (λ i. nothing) w r.1) (admit k error true)
        (λ _. start_accept h) _ (admit-Calm k error _) λ _ v c. start_accept-Steps h w v c

  pub handle-Steps :
      (e : Event) (w : World)
      → Sane w
      → Enabled e w
      → Ensures (λ r. Steps (label e) w r.1) (handle e w)
  unfolding label
  handle-Steps (header_arrived k error h) w sane en = header_arrived-Steps k w sane en.2 error h
  handle-Steps (body_arrived k error bytes) w sane en = body_arrived-Steps k w sane en.3 error bytes
  handle-Steps (header_sent k error) w sane en = header_sent-Steps k w sane en.3 error en
  handle-Steps (body_sent k error) w sane en = body_sent-Steps k w sane en.3 error en
  handle-Steps (accepted k error false h) w sane en = absurd (cc en.2)
  handle-Steps (accepted k error true h) w sane en = accepted-Steps k error h w
  handle-Steps (started binds h) w sane en = rw (handle-started binds h w en) (started-Steps h w)
  handle-Steps (stopped refuses) w sane en =
      rw (handle-stopped refuses w en) (stopped-Steps refuses en.1 w sane)

  -- In a sane state, an event that may come returns, and is for each session that there is the step of
  -- its queue that its label says: a body that was read puts one message at the end, which is sent at
  -- once if it is alone; after the header of the front comes its body, and after its body the front is
  -- gone and the next header is sent; after an error nothing is sent; all else changes no queue.
  pub handle-FifoStep :
      (e : Event) (w : World)
      → Sane w
      → Enabled e w
      → Ensures
          (λ r.
            (i : ℕ)
            → i < w.created
            → FifoStep (label e i) (fifo (w.session i)) (fifo (r.1.session i)))
          (handle e w)
  handle-FifoStep e w sane en =
      Ensures-mono (λ r. Steps (label e) w r.1) _ (λ r t. t.steps) (handle e w)
        (handle-Steps e w sane en)
