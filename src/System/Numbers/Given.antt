-- ===== src/System/Numbers/Given.antt =====
-- The numbers of the connected clients (server_tcp::curr_client_id_, asio_test): the invariant, and how
-- an accept keeps it.
use asio_tcp.Base.{
  true, ℕ, suc, ◌≤◌, ◌<◌, ◌≡◌, ◌≢◌, refl, sym, ap, ◌∙◌, false, [], count, length, update, update_ne,
  update_self, arith, Ensures, ltb, subst, ℕ_discrete,
}
use asio_tcp.Ring.{CircularBuffer}
use asio_tcp.Message.{Hdr}
use asio_tcp.World.{Session, Server, World, read_header}
use asio_tcp.Manager.{join}
use asio_tcp.Session.{start_read, do_read, start}
use asio_tcp.Server.{set_server, start_accept}
use asio_tcp.System.Lifetime.{Keeps}
use asio_tcp.System.Numbers.{Quiet}

module _ ⦃cb : CircularBuffer⦄ where
  -- The numbers after at most `n` of them were given out: those of connected clients are not 0,
  -- different, and below the next.
  pub record Given (n : ℕ) (w : World) : Type 0 where
    pub born : (i : ℕ) → 0 < count i w.mgr.connection_list → i < w.created
    pub nonzero : (i : ℕ) → 0 < count i w.mgr.connection_list → 0 < (w.session i).client_id
    pub used :
        (i : ℕ)
        → 0 < count i w.mgr.connection_list
        → (w.session i).client_id < w.server.curr_client_id
    pub different :
        (i j : ℕ)
        → 0 < count i w.mgr.connection_list
        → 0 < count j w.mgr.connection_list
        → (w.session i).client_id ≡ (w.session j).client_id
        → i ≡ j
    pub started : 0 < w.server.curr_client_id
    pub few : w.server.curr_client_id ≤ suc n

  pub nobody-Given :
      (w : World) → w.mgr.connection_list ≡ [] → w.server.curr_client_id ≡ 1 → Given 0 w
  nobody-Given w empty one = record {
    born = λ i pos. absurd (omega (arith, ap (count i) empty, pos));
    nonzero = λ i pos. absurd (omega (arith, ap (count i) empty, pos));
    used = λ i pos. absurd (omega (arith, ap (count i) empty, pos));
    different = λ i j pos _ _. absurd (omega (arith, ap (count i) empty, pos));
    started = omega arith;
    few = omega arith;
  }

  pub Quiet-Given : {n : ℕ} {w w' : World} → Given n w → Quiet w w' → Given n w'
  Quiet-Given {n} {w} {w'} g q = record {
    born = λ i pos. omega (arith, g.born i (was i pos), q.grown);
    nonzero = λ i pos. omega (arith, g.nonzero i (was i pos), same i pos);
    used = λ i pos. omega (arith, g.used i (was i pos), same i pos, q.curr);
    different = λ i j pos pos' e.
        g.different i j (was i pos) (was j pos') (sym (same i pos) ∙ e ∙ same j pos');
    started = omega (arith, g.started, q.curr);
    few = omega (arith, g.few, q.curr);
  }
    where
      was : (i : ℕ) → 0 < count i w'.mgr.connection_list → 0 < count i w.mgr.connection_list
      was i pos = omega (arith, q.listed i, pos)

      same :
          (i : ℕ)
          → 0 < count i w'.mgr.connection_list
          → (w'.session i).client_id ≡ (w.session i).client_id
      same i pos = q.ids i (g.born i (was i pos))

  -- Session `k` gets the next number.
  pub next-Given :
      {n k : ℕ} {w w' : World}
      → Given n w
      → k < w.created
      → (w'.session k).client_id ≡ w.server.curr_client_id
      → w'.server.curr_client_id ≡ suc w.server.curr_client_id
      → w.created ≤ w'.created
      → ((j : ℕ) → k ≢ j → Keeps j w w')
      → Given (suc n) w'
  next-Given {n} {k} {w} {w'} g lt named counted grown others = record {
    born = λ i pos. elim (ℕ_discrete k i) [
      | yes e ↦ omega (arith, e, lt, grown)
      | no ne ↦ omega (arith, g.born i (was i ne pos), grown)
    ];
    nonzero = λ i pos. elim (ℕ_discrete k i) [
      | yes e ↦ subst (λ j. 0 < (w'.session j).client_id) e (omega (arith, named, g.started))
      | no ne ↦ omega (arith, g.nonzero i (was i ne pos), same i ne)
    ];
    used = λ i pos. elim (ℕ_discrete k i) [
      | yes e ↦
          subst (λ j. (w'.session j).client_id < w'.server.curr_client_id) e
            (omega (arith, named, counted))
      | no ne ↦ omega (arith, g.used i (was i ne pos), same i ne, counted)
    ];
    different = λ i j pos pos' e. elim (ℕ_discrete k i) [
      | yes a ↦ elim (ℕ_discrete k j) [ yes b ↦ sym a ∙ b | no ne ↦ absurd (newer a ne pos' e) ]
      | no ne ↦ elim (ℕ_discrete k j) [
        | yes b ↦ absurd (newer b ne pos (sym e))
        | no ne' ↦
            g.different i j (was i ne pos) (was j ne' pos') (sym (same i ne) ∙ e ∙ same j ne')
      ]
    ];
    started = omega (arith, counted);
    few = omega (arith, g.few, counted);
  }
    where
      was : (i : ℕ) → k ≢ i → 0 < count i w'.mgr.connection_list → 0 < count i w.mgr.connection_list
      was i ne pos = omega (arith, (others i ne).listed, pos)

      same : (i : ℕ) → k ≢ i → (w'.session i).client_id ≡ (w.session i).client_id
      same i ne = ap (λ (s : Session). s.client_id) (others i ne).same

      newer :
          {i j : ℕ}
          → k ≡ i
          → k ≢ j
          → 0 < count j w'.mgr.connection_list
          → (w'.session i).client_id ≡ (w'.session j).client_id
          → ⊥
      newer {i} {j} a ne pos e = omega (
        arith,
        ap (λ j. (w'.session j).client_id) a,
        e,
        named,
        same j ne,
        g.used j (was j ne pos),
      )

  pub start-Named :
      (k id : ℕ) (w : World)
      → ltb w.mgr.max_conn (length w.mgr.connection_list) ≡ false
      → Ensures
          (λ r.
            ((r.1.session k).client_id ≡ id) × (r.1.server ≡ w.server) × (r.1.created ≡ w.created))
          (start k id true w)
  unfolding start join do_read
  start-Named k id w room =
      rw (room, Ensures)
        (
          ap (λ (s : Session). s.client_id) (update_self u k (start_read read_header (u k)))
              ∙ ap (λ (s : Session). s.client_id) (update_self w.session k named),
          refl,
          refl,
        )
    where
      named : Session
      named = record (w.session k) { client_id = id }

      u : ℕ → Session
      u = update w.session k named

  pub set_server-Quiet :
      (s : Server) (w : World)
      → s.curr_client_id ≡ w.server.curr_client_id
      → Quiet w (set_server s w)
  set_server-Quiet s w e = record {
    ids = λ i lt. refl;
    listed = λ i. omega arith;
    curr = e;
    grown = omega arith;
  }

  pub start_accept-Quiet : (h : Hdr) (w : World) → Ensures (λ r. Quiet w r.1) (start_accept h w)
  unfolding start_accept
  start_accept-Quiet h w = record {
    ids = λ i lt.
        ap (λ (s : Session). s.client_id)
          (update_ne w.session w.created i _ (λ e. absurd (omega (arith, e, lt))));
    listed = λ i. omega arith;
    curr = refl;
    grown = omega arith;
  }
