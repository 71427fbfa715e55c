-- ===== src/System/Main.antt =====
-- _tmain (asio_test/asio_test.cpp): the server is made and started, serves for a while, is stopped and
-- started again, and serves for ever. What happens while the main thread sleeps is any sequence of
-- events of asio.
use asio_tcp.Base.{
  ℕ, suc, ◌+◌, ◌≤◌, ◌≡◌, refl, ap, Bool, true, false, Option, some, length, drop, ltb, Bool-cases,
  inl, inr, arith, Ensures, Ensures-mono, Ensures-and, Ensures-value, ◌>>=◌, Ensures-bind,
}
use asio_tcp.Ring.{CircularBuffer}
use asio_tcp.Message.{Hdr}
use asio_tcp.World.{World, Server}
use asio_tcp.World.Steps.{bind-Ensures}
use asio_tcp.Manager.{leave, can_join}
use asio_tcp.Session.{start}
use asio_tcp.Server.{
  new_server, start_server, stop_server, serve, can_stop, admit, handler_accept, next_client_id,
  start_accept, set_server, u32, start_server-serve,
}
use asio_tcp.System.{
  Event, header_arrived, body_arrived, header_sent, body_sent, accepted, started, stopped, handle,
  Enabled, Sane,
}
use asio_tcp.System.Safety.{SaneAfter}
use asio_tcp.System.Stop.{Halted, stop_server-Halted, serve-Sane, serve-able}
use asio_tcp.System.Run.{handle-Sane, new_server-Sane}
use asio_tcp.System.Restart.{restart}
use asio_tcp.System.Numbers.{
  Named, header_arrived-Named, body_arrived-Named, header_sent-Named, body_sent-Named,
}
use asio_tcp.System.Numbers.Given.{start-Named}

-- Starting and stopping is left to the main thread.
abbrev pub OfAsio : Event → Type 0
OfAsio (started binds h) = ⊥
OfAsio (stopped refuses) = ⊥
OfAsio _ = Unit {0}

pub data Stage : Type 0 where
  first_start : Stage
  second_start : Stage

module _ ⦃cb : CircularBuffer⦄ where
  -- server_tcp s(18, 4); s.start(4567); `binds` says that `start` does not throw. What _tmain does with
  -- an exception is to print it, and then the program ends.
  unfoldable pub boot : Bool → Hdr → Option World
  boot binds h = new_server 18 4 h >>= λ w. start_server binds h w >>= λ r. some r.1

  -- The states of the program while the main thread sleeps, as long as nothing throws.
  pub data Main : Stage → World → Type 0 where
    booted : (h : Hdr) {w : World} → boot true h ≡ some w → Main first_start w
    slept :
        {s : Stage} {v w : World} (e : Event)
        → Main s v
        → OfAsio e
        → Enabled e v
        → handle e v ≡ some (tt, w)
        → Main s w
    restarted :
        (refuses : ℕ → Bool) (h : Hdr) {v w : World}
        → Main first_start v
        → ((j : ℕ) → refuses j ≡ false)
        → restart refuses true h v ≡ some (tt, w)
        → Main second_start w

  -- The server is in order, and can be stopped.
  pub record Serving (w : World) : Type 0 where
    pub sane : Sane w
    pub able : can_stop w ≡ true

  -- The acceptor and the threads are as they were.
  abbrev Same : World → World → Type 0
  Same w v =
      (v.server.listening ≡ w.server.listening)
      × (v.server.io_threads ≡ w.server.io_threads)
      × (v.server.io_thread_num ≡ w.server.io_thread_num)

  server-Same : (w v : World) → v.server ≡ w.server → Same w v
  server-Same w v e = (
    ap (λ (s : Server). s.listening) e,
    ap (λ (s : Server). s.io_threads) e,
    ap (λ (s : Server). s.io_thread_num) e,
  )

  admit-Same : (k : ℕ) (error : Bool) (w : World) → Ensures (λ r. Same w r.1) (admit k error true w)
  unfolding admit can_join next_client_id leave
  admit-Same k true w = (refl, refl, refl)
  admit-Same k false w = elim (Bool-cases (ltb w.mgr.max_conn (length w.mgr.connection_list))) [
    | inl full ↦ rw (full, Ensures) (refl, refl, refl)
    | inr room ↦
        rw (room, Ensures)
          (Ensures-mono _ (λ r. Same w r.1) (λ r d. server-Same u r.1 d.1)
            (start k w.server.curr_client_id true u) (start-Named k w.server.curr_client_id u room))
  ]
    where
      u : World
      u = set_server (record (w.server) { curr_client_id = u32 (w.server.curr_client_id + 1) }) w

  accepted-Same :
      (k : ℕ) (error : Bool) (h : Hdr) (w : World)
      → Ensures (λ r. Same w r.1) (handle (accepted k error true h) w)
  unfolding handle handler_accept start_accept
  accepted-Same k error h w =
      bind-Ensures (λ r. Same w r.1) (λ r. Same w r.1) (admit k error true) (λ _. start_accept h)
        (set_server (record (w.server) { accepting = drop 1 w.server.accepting }) w)
        (admit-Same k error _) λ _ v d. d

  named :
      (k : ℕ) (e : Event) (w : World)
      → Ensures (λ r. Named k w r.1) (handle e w)
      → Ensures (λ r. Same w r.1) (handle e w)
  named k e w n =
      Ensures-mono (λ r. Named k w r.1) (λ r. Same w r.1) (λ r m. server-Same w r.1 m.2)
        (handle e w) n

  handle-Same :
      (e : Event) (w : World)
      → Sane w
      → OfAsio e
      → Enabled e w
      → Ensures (λ r. Same w r.1) (handle e w)
  handle-Same (header_arrived k error h) w sane of en =
      named k (header_arrived k error h) w (header_arrived-Named k w sane en.2 error h)
  handle-Same (body_arrived k error bytes) w sane of en =
      named k (body_arrived k error bytes) w (body_arrived-Named k w sane en.3 error bytes)
  handle-Same (header_sent k error) w sane of en =
      named k (header_sent k error) w (header_sent-Named k w sane en.3 error en)
  handle-Same (body_sent k error) w sane of en =
      named k (body_sent k error) w (body_sent-Named k w sane en.3 error en)
  handle-Same (accepted k error true h) w sane of en = accepted-Same k error h w
  handle-Same (accepted k error false h) w sane of en = absurd (cc en.2)
  handle-Same (started binds h) w sane of en = absurd of
  handle-Same (stopped refuses) w sane of en = absurd of

  handle-Serving :
      (e : Event) (w : World)
      → Serving w
      → OfAsio e
      → Enabled e w
      → Ensures (λ r. Serving r.1) (handle e w)
  unfolding can_stop
  handle-Serving e w s of en =
      Ensures-mono (λ r. SaneAfter r × Same w r.1) (λ r. Serving r.1)
        (λ r d. record { sane = d.0; able = rw (d.1.0, d.1.1, d.1.2) s.able }) (handle e w)
        (Ensures-and SaneAfter (λ r. Same w r.1) (handle e w) (handle-Sane e w s.sane en)
          (handle-Same e w s.sane of en))

  served-Serving :
      (h : Hdr) (w : World)
      → Sane w
      → w.server.listening ≡ false
      → Ensures (λ r. Serving r.1) (start_server true h w)
  served-Serving h w sane deaf = rw (start_server-serve h w refl deaf) (
      Ensures-mono (λ r. SaneAfter r × (can_stop r.1 ≡ true)) (λ r. Serving r.1)
        (λ r d. record { sane = d.0; able = d.1 }) (serve h w)
        (Ensures-and SaneAfter (λ r. can_stop r.1 ≡ true) (serve h w) (serve-Sane h w sane)
          (serve-able h w)))

  new_server-deaf : (h : Hdr) → Ensures (λ w. w.server.listening ≡ false) (new_server 18 4 h)
  unfolding new_server
  new_server-deaf h = refl

  -- The main program starts if `start` does not throw.
  pub boot-Serving : (h : Hdr) → Ensures Serving (boot true h)
  unfolding boot
  boot-Serving h =
      Ensures-bind (λ w. Sane w × (w.server.listening ≡ false)) Serving (new_server 18 4 h) _
        (Ensures-and Sane (λ w. w.server.listening ≡ false) (new_server 18 4 h)
          (new_server-Sane 18 4 h (omega arith)) (new_server-deaf h))
        λ w d.
          Ensures-bind (λ r. Serving r.1) Serving (start_server true h w) _
            (served-Serving h w d.0 d.1) λ r s. s

  restart-Serving :
      (refuses : ℕ → Bool) (h : Hdr) (v : World)
      → ((j : ℕ) → refuses j ≡ false)
      → Serving v
      → Ensures (λ r. Serving r.1) (restart refuses true h v)
  unfolding restart
  restart-Serving refuses h v willing s =
      bind-Ensures (λ r. Halted v r.1) (λ r. Serving r.1) (stop_server refuses)
        (λ _. start_server true h) v (stop_server-Halted refuses v s.sane s.able willing)
        λ _ w d. served-Serving h w d.sane d.deaf

  pub Main-Serving : {s : Stage} {w : World} → Main s w → Serving w
  Main-Serving (booted h e) = let b = boot-Serving h in rw e at b
  Main-Serving (slept {v = v} e m of en eq) =
      let after = handle-Serving e v (Main-Serving m) of en in rw eq at after
  Main-Serving (restarted refuses h {v = v} m willing eq) =
      let after = restart-Serving refuses h v willing (Main-Serving m) in rw eq at after

  -- In every state of the main program while it sleeps, which it reaches as long as nothing throws: each
  -- handler of a pending operation returns, if an accepted socket has its addresses; `stop` and then
  -- `start` return, if no socket refuses to be shut down and the acceptor can listen again; and not more
  -- than one session beyond the limit is connected.
  pub Main-safe :
      {s : Stage} {v : World}
      → Main s v
      → ((e : Event) → Enabled e v → (w : World) × (handle e v ≡ some (tt, w)))
        × ((refuses : ℕ → Bool) (again : Hdr)
            → ((j : ℕ) → refuses j ≡ false)
            → (w : World) × (restart refuses true again v ≡ some (tt, w)))
        × (length v.mgr.connection_list ≤ suc v.mgr.max_conn)
  Main-safe {s} {v} m = (
    λ e en.
        let ((_, w), eq, _) =
          Ensures-value SaneAfter (handle e v) (handle-Sane e v serving.sane en) in
        (w, eq),
    λ refuses again willing.
        let ((_, w), eq, _) =
          Ensures-value (λ r. Serving r.1) (restart refuses true again v)
            (restart-Serving refuses again v willing serving) in
        (w, eq),
    serving.sane.room,
  )
    where
      serving : Serving v
      serving = Main-Serving m
