-- ===== src/System/Stop.antt =====
-- server_tcp::stop: the sockets are closed, the set is emptied, and the pool is freed.
use asio_tcp.Base.{
  ==_iff, length-replicate, ℕ, suc, ◌≤◌, ◌<◌, ◌≡◌, refl, sym, ap, subst, ◌∙◌, ◌⊎◌, inl, inr, Bool,
  true, false, List, [], ◌∷◌, length, count, arith, Bool-cases, Ensures, Ensures-mono, ℕ_discrete,
  dec_lt, update_ne, update_self, Ensures-and, total, total-update, total-update_ge,
}
use asio_tcp.Ring.{CircularBuffer}
use asio_tcp.Message.{Hdr}
use asio_tcp.World.{Session, Server, Manager, World, modify, set_session, set_list}
use asio_tcp.World.Steps.{bind-Ensures}
use asio_tcp.Manager.{close_socket, disconnect, delete_all, clear_buffer}
use asio_tcp.Manager
use asio_tcp.Server.{
  set_server, stop_server, start_server, start_accept, serve, shut_down, can_stop,
  start_server-serve, stop_server-shut_down,
}
use asio_tcp.Ownership.{Inv, Inv-unowned, queued, live}
use asio_tcp.Ownership.Memory.{OnlyHeap}
use asio_tcp.System.{IsOrderly, IsFresh, Sane}
use asio_tcp.System.Safety.{SaneAfter}
use asio_tcp.System.Accept.{start_accept-Sane, renumber-Sane}
use asio_tcp.Ownership.Clear.{drop_pool, clear_buffer-Inv}

closed : Session → Session
closed s = record s { socket = close_socket s.socket }

module _ ⦃cb : CircularBuffer⦄ where
  close-Sane : (i : ℕ) (w : World) → Sane w → Sane (set_session i (closed (w.session i)) w)
  unfolding closed
  close-Sane i w sane = record {
    inv = record {
      started = inv.started;
      null_dead = inv.null_dead;
      fresh = inv.fresh;
      owned = λ p. elim (dec_lt i w.created) [
        | yes lt ↦ omega (
          arith,
          inv.owned p,
          total-update (queued p) w.session i (closed (w.session i)) w.created lt,
        )
        | no ge ↦ omega (
          arith,
          inv.owned p,
          total-update_ge (queued p) w.session i (closed (w.session i)) w.created (omega arith),
        )
      ];
      valid = inv.valid;
      small = inv.small;
      filled = λ j p m lt pos e. ground (arith, inv.filled j p m);
      limit = inv.limit;
    };
    orderly = λ j lt. elim (ℕ_discrete i j) [
      | yes e ↦ ground (arith, sane.orderly j lt)
      | no ne ↦ subst IsOrderly (sym (update_ne w.session i j _ ne)) (sane.orderly j lt)
    ];
    fresh = λ j pos. ((sane.fresh j pos).0, ground (arith, (sane.fresh j pos).1));
    once = sane.once;
    room = sane.room;
  }
    where
      open sane use {inv}

  disconnect-Sane :
      (refuses : ℕ → Bool) (willing : (j : ℕ) → refuses j ≡ false) (is : List ℕ) (w : World)
      → Sane w
      → Ensures
          (λ r. Sane r.1 × (r.1.mgr ≡ w.mgr) × (r.1.server ≡ w.server) × (r.1.created ≡ w.created))
          (disconnect refuses is w)
  unfolding disconnect closed
  disconnect-Sane refuses willing [] w sane = (sane, refl, refl, refl)
  disconnect-Sane refuses willing (i ∷ is) w sane = elim (Bool-cases (refuses i)) [
    | inl e ↦ absurd (cc (e, willing i))
    | inr e ↦ rw (e, Ensures) (disconnect-Sane refuses willing is _ (close-Sane i w sane))
  ]

  -- What `stop` leaves: nobody is connected, the pool is empty, no thread runs, and the only buffers
  -- that are still allocated are those in the queues of sessions. The accepts that were pending in
  -- `before` still are.
  pub record Halted (before w : World) : Type 0 where
    pub sane : Sane w
    pub nobody : w.mgr.connection_list ≡ []
    pub no_pool : cb.contents w.mgr.conn_msg_buffer ≡ []
    pub deaf : w.server.listening ≡ false
    pub ios_stopped : w.server.ios_stopped ≡ true
    pub no_threads : w.server.io_threads ≡ []
    pub waiting : w.server.accepting ≡ before.server.accepting
    pub made : w.created ≡ before.created
    pub left : (p : ℕ) → total (queued p) w.created w.session ≡ live (w.heap.cell p)

  same_but_heap-Sane : (w w' : World) → Sane w → Inv [] w' → OnlyHeap (drop_pool w) w' → Sane w'
  same_but_heap-Sane w w' sane inv o = record {
    inv = inv;
    orderly = λ i lt.
        subst (λ (f : ℕ → Session). IsOrderly (f i)) (sym o.session)
          (sane.orderly i (rw (← o.created) lt));
    fresh = λ i pos.
        let waits = sane.fresh i (subst (λ (s : Server). 0 < count i s.accepting) o.server pos) in
        (rw o.created waits.0, subst (λ (f : ℕ → Session). IsFresh (f i)) (sym o.session) waits.1);
    once = λ i. subst (λ (s : Server). count i s.accepting ≤ 1) (sym o.server) (sane.once i);
    room = subst (λ (m : Manager). length m.connection_list ≤ suc m.max_conn) (sym o.mgr) sane.room;
  }

  cleared-Halted :
      (before w : World)
      → w.server.accepting ≡ before.server.accepting
      → w.created ≡ before.created
      → Sane w
      → w.mgr.connection_list ≡ []
      → w.server.listening ≡ false
      → w.server.ios_stopped ≡ true
      → w.server.io_threads ≡ []
      → Ensures (λ r. Halted before r.1) (clear_buffer w)
  cleared-Halted before w waiting made sane nobody deaf halted threads =
      Ensures-mono (λ r. Inv [] r.1 × OnlyHeap (drop_pool w) r.1) (λ r. Halted before r.1)
        (λ r d.
          let o = d.1 in
          let none_left : cb.contents r.1.mgr.conn_msg_buffer ≡ [] =
            ap (λ (m : Manager). cb.contents m.conn_msg_buffer) o.mgr
            ∙ cb.contents-clear w.mgr.conn_msg_buffer in
          record {
            sane = same_but_heap-Sane w r.1 sane d.0 o;
            nobody = ap (λ (m : Manager). m.connection_list) o.mgr ∙ nobody;
            no_pool = none_left;
            deaf = ap (λ (s : Server). s.listening) o.server ∙ deaf;
            ios_stopped = ap (λ (s : Server). s.ios_stopped) o.server ∙ halted;
            no_threads = ap (λ (s : Server). s.io_threads) o.server ∙ threads;
            waiting = ap (λ (s : Server). s.accepting) o.server ∙ waiting;
            made = o.created ∙ made;
            left = λ p. omega (arith, d.0.owned p, ap (count p) none_left);
          })
        (clear_buffer w) (clear_buffer-Inv w sane.inv)

  emptied_list-Sane : (w : World) → Sane w → Sane (set_list [] w)
  emptied_list-Sane w sane = record {
    inv = Inv-unowned [] [] w.server w sane.inv;
    orderly = sane.orderly;
    fresh = sane.fresh;
    once = sane.once;
    room = omega arith;
  }

  pub disconnected :
      (refuses : ℕ → Bool) (willing : (j : ℕ) → refuses j ≡ false) (w : World)
      → Sane w
      → Ensures
          (λ r.
            Sane r.1
            × (r.1.mgr.connection_list ≡ [])
            × (r.1.server ≡ w.server)
            × (r.1.created ≡ w.created))
          (Manager.stop refuses w)
  unfolding Manager.stop
  disconnected refuses willing w sane =
      bind-Ensures
        (λ r. Sane r.1 × (r.1.mgr ≡ w.mgr) × (r.1.server ≡ w.server) × (r.1.created ≡ w.created)) _
        (disconnect refuses w.mgr.connection_list) (λ _. modify (set_list [])) w
        (disconnect-Sane refuses willing w.mgr.connection_list w sane)
        λ _ v d. (emptied_list-Sane v d.0, refl, d.2, d.3)

  shut_down-Halted :
      (refuses : ℕ → Bool) (willing : (j : ℕ) → refuses j ≡ false) (w : World)
      → Sane w
      → Ensures (λ r. Halted w r.1) (shut_down refuses w)
  unfolding shut_down
  shut_down-Halted refuses willing w sane =
      bind-Ensures
        (λ r.
          Sane r.1
          × (r.1.mgr.connection_list ≡ [])
          × (r.1.server ≡ u.server)
          × (r.1.created ≡ u.created))
        (λ r. Halted w r.1) (Manager.stop refuses) _ u
        (disconnected refuses willing u (renumber-Sane u.server w sane refl))
        λ _ v d.
          cleared-Halted w _ (ap (λ (s : Server). s.accepting) d.2) d.3
            (renumber-Sane (record (v.server) { ios_stopped = true; io_threads = [] }) v d.0 refl)
            d.1 (ap (λ (s : Server). s.listening) d.2) refl refl
    where
      u : World
      u = set_server (record (w.server) { listening = false }) w

  -- Where nothing throws, `stop` leaves the server halted.
  pub stop_server-Halted :
      (refuses : ℕ → Bool) (w : World)
      → Sane w
      → can_stop w ≡ true
      → ((j : ℕ) → refuses j ≡ false)
      → Ensures (λ r. Halted w r.1) (stop_server refuses w)
  stop_server-Halted refuses w sane able willing =
      rw (stop_server-shut_down refuses w able) (shut_down-Halted refuses willing w sane)

  -- The sockets of the sessions in the list are closed, and none is opened.
  disconnect-closes :
      (refuses : ℕ → Bool) (willing : (j : ℕ) → refuses j ≡ false) (is : List ℕ) (w : World)
      → Ensures
          (λ r.
            (i : ℕ)
            → (0 < count i is) ⊎ ((w.session i).socket.is_open ≡ false)
            → (r.1.session i).socket.is_open ≡ false)
          (disconnect refuses is w)
  unfolding disconnect closed
  disconnect-closes refuses willing [] w =
      λ i c. elim c [ inl pos ↦ absurd (omega arith) | inr done ↦ done ]
  disconnect-closes refuses willing (k ∷ is) w =
      rw (willing k, Ensures)
        (Ensures-mono
          (λ r.
            (i : ℕ)
            → (0 < count i is) ⊎ ((x.session i).socket.is_open ≡ false)
            → (r.1.session i).socket.is_open ≡ false)
          (λ r.
            (i : ℕ)
            → (0 < count i (k ∷ is)) ⊎ ((w.session i).socket.is_open ≡ false)
            → (r.1.session i).socket.is_open ≡ false)
          (λ r h i c. h i (shift i c)) (disconnect refuses is x)
          (disconnect-closes refuses willing is x))
    where
      x : World
      x = set_session k (closed (w.session k)) w

      shut : (x.session k).socket.is_open ≡ false
      shut = ap (λ (s : Session). s.socket.is_open) (update_self w.session k (closed (w.session k)))

      shift :
          (i : ℕ)
          → (0 < count i (k ∷ is)) ⊎ ((w.session i).socket.is_open ≡ false)
          → (0 < count i is) ⊎ ((x.session i).socket.is_open ≡ false)
      shift i c = elim (ℕ_discrete k i) [
        | yes e ↦ inr (subst (λ j. (x.session j).socket.is_open ≡ false) e shut)
        | no ne ↦ elim c [
          | inl pos ↦ inl (ground (arith, pos, ne))
          | inr done ↦
              inr (ap (λ (s : Session). s.socket.is_open) (update_ne w.session k i _ ne) ∙ done)
        ]
      ]

  shut_down-closes :
      (refuses : ℕ → Bool) (willing : (j : ℕ) → refuses j ≡ false) (w : World)
      → Sane w
      → Ensures
          (λ r.
            (i : ℕ) → 0 < count i w.mgr.connection_list → (r.1.session i).socket.is_open ≡ false)
          (shut_down refuses w)
  unfolding shut_down Manager.stop
  shut_down-closes refuses willing w sane =
      bind-Ensures
        (λ r.
          (Sane r.1
            × (r.1.mgr.connection_list ≡ [])
            × (r.1.server ≡ u.server)
            × (r.1.created ≡ u.created))
          × Closed r)
        Closed (Manager.stop refuses) _ u
        (Ensures-and _ Closed (Manager.stop refuses u)
          (disconnected refuses willing u (renumber-Sane u.server w sane refl))
          (bind-Ensures Closed Closed (disconnect refuses w.mgr.connection_list)
            (λ _. modify (set_list [])) u
            (Ensures-mono _ Closed (λ r h i pos. h i (inl pos))
              (disconnect refuses w.mgr.connection_list u)
              (disconnect-closes refuses willing w.mgr.connection_list u))
            λ _ v d. d))
        λ _ v (d, c).
          let s = record (v.server) { ios_stopped = true; io_threads = [] } in
          let x = set_server s v in
          Ensures-mono (λ r. Inv [] r.1 × OnlyHeap (drop_pool x) r.1) Closed
            (λ r m i pos. ap (λ (f : ℕ → Session). (f i).socket.is_open) m.1.session ∙ c i pos)
            (clear_buffer x) (clear_buffer-Inv x (renumber-Sane s v d.0 refl).inv)
    where
      u : World
      u = set_server (record (w.server) { listening = false }) w

      Closed : (Unit {0}) × World → Type 0
      Closed r =
          (i : ℕ) → 0 < count i w.mgr.connection_list → (r.1.session i).socket.is_open ≡ false

  -- In a sane state, if the acceptor is open and the threads are there, and no socket refuses to be shut
  -- down or closed, `stop` returns. It leaves a sane state in which nobody is connected, the pool is
  -- empty, no thread runs and nothing is listened to; the sockets of all that were connected are closed;
  -- the accepts that were pending still are, and the messages that are still allocated are those in the
  -- queues of sessions.
  pub stop_server-Closed :
      (refuses : ℕ → Bool) (w : World)
      → Sane w
      → can_stop w ≡ true
      → ((j : ℕ) → refuses j ≡ false)
      → Ensures
          (λ r.
            Halted w r.1
            × ((i : ℕ)
                → 0 < count i w.mgr.connection_list
                → (r.1.session i).socket.is_open ≡ false))
          (stop_server refuses w)
  stop_server-Closed refuses w sane able willing = rw (stop_server-shut_down refuses w able) (
      Ensures-and (λ r. Halted w r.1) _ (shut_down refuses w)
        (shut_down-Halted refuses willing w sane) (shut_down-closes refuses willing w sane))

  pub serve-Sane : (h : Hdr) (w : World) → Sane w → Ensures SaneAfter (serve h w)
  unfolding serve
  serve-Sane h w sane =
      bind-Ensures SaneAfter SaneAfter (start_accept h) _ u
        (start_accept-Sane h u (renumber-Sane u.server w sane refl))
        λ _ v d. renumber-Sane _ v d refl
    where
      u : World
      u =
          set_server
            (record (w.server) { ios_stopped = false; listening = true; curr_client_id = 1 }) w

  -- A server that was started can be stopped.
  pub serve-able : (h : Hdr) (w : World) → Ensures (λ r. can_stop r.1 ≡ true) (serve h w)
  unfolding serve start_accept can_stop
  serve-able h w =
      (==_iff _ w.server.io_thread_num).1 (length-replicate w.server.io_thread_num true)

  -- Where nothing throws, `start` keeps the server in order.
  pub start_server-Sane :
      (h : Hdr) (w : World)
      → Sane w
      → {binds : Bool} → binds ≡ true
      → w.server.listening ≡ false
      → Ensures SaneAfter (start_server binds h w)
  start_server-Sane h w sane bound deaf =
      rw (start_server-serve h w bound deaf) (serve-Sane h w sane)
