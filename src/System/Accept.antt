-- ===== src/System/Accept.antt =====
-- An accepted connection, and the next accept.
use asio_tcp.Base.{
  ℕ, suc, ◌+◌, ◌≤◌, ◌<◌, ◌≡◌, refl, sym, subst, inl, inr, Bool, true, false, List, [], ◌∷◌, length,
  drop, count, count-append, arith, ltb, Bool-cases, Ensures, ℕ_discrete, update, update_self,
  update_ne, total-suc, total-update_ge,
}
use asio_tcp.Ring.{CircularBuffer}
use asio_tcp.Message.{Hdr}
use asio_tcp.World.{Session, Server, read_header, World, set_session, set_list}
use asio_tcp.World.Steps.{bind-Ensures}
use asio_tcp.Manager.{join, can_join, leave, set_insert}
use asio_tcp.Session.{start_read, do_read, start, new_session}
use asio_tcp.Server.{set_server, start_accept, next_client_id, handler_accept, admit, u32}
use asio_tcp.Ownership.{Inv-unowned, queued}
use asio_tcp.Ownership.Queue.{Moved, change-Inv}
use asio_tcp.System.{accepted, handle, Enabled, IsOrderly, IsFresh, Sane}
use asio_tcp.System.Safety.{SaneAfter, Became-Sane, leave-Sane}

pub length-set_insert : (i : ℕ) (js : List ℕ) → length (set_insert i js) ≤ suc (length js)
unfolding set_insert
length-set_insert i [] = omega arith
length-set_insert i (j ∷ js) = ground (arith, length-set_insert i js)

module _ ⦃cb : CircularBuffer⦄ where
  -- A session that is created for the next accept.
  pub start_accept-Sane : (h : Hdr) (w : World) → Sane w → Ensures SaneAfter (start_accept h w)
  unfolding start_accept new_session
  start_accept-Sane h w sane = record {
    inv = record {
      started = inv.started;
      null_dead = inv.null_dead;
      fresh = inv.fresh;
      owned = λ p. omega (
        arith,
        inv.owned p,
        total-suc (queued p) (update w.session w.created (new_session h)) w.created,
        total-update_ge (queued p) w.session w.created (new_session h) w.created,
        nothing p,
      );
      valid = inv.valid;
      small = inv.small;
      filled = λ i p m lt pos e. ground (arith, inv.filled i p m);
      limit = inv.limit;
    };
    orderly = λ i lt. elim (ℕ_discrete w.created i) [
      | yes new ↦
          subst (λ j. IsOrderly (table j)) new (subst IsOrderly (sym at_new) brand_new-IsOrderly)
      | no old ↦
          subst IsOrderly (sym (update_ne w.session w.created i _ old))
            (sane.orderly i (omega arith))
    ];
    fresh = λ i pos. elim (ℕ_discrete w.created i) [
      | yes new ↦ (
        omega arith,
        subst (λ j. IsFresh (table j)) new (subst IsFresh (sym at_new) brand_new-IsFresh),
      )
      | no old ↦
          let waits =
            sane.fresh i (ground (arith, count-append i w.server.accepting (w.created ∷ []))) in
          (omega arith, subst IsFresh (sym (update_ne w.session w.created i _ old)) waits.1)
    ];
    once = λ i. ground (
      arith,
      sane.once i,
      (λ (pos : 0 < count i w.server.accepting). (sane.fresh i pos).0),
      count-append i w.server.accepting (w.created ∷ []),
    );
    room = sane.room;
  }
    where
      open sane use {inv}

      nothing : (p : ℕ) → queued p (update w.session w.created (new_session h) w.created) ≡ 0
      nothing p = ground arith

      table : ℕ → Session
      table = update w.session w.created (new_session h)

      at_new : table w.created ≡ new_session h
      at_new = update_self w.session w.created (new_session h)

      brand_new-IsFresh : IsFresh (new_session h)
      brand_new-IsFresh = record {
        no_reads = refl;
        no_writes = refl;
        no_msgs = refl;
        no_bytes = refl;
      }

      brand_new-IsOrderly : IsOrderly (new_session h)
      brand_new-IsOrderly = record { writing = refl; reading = inl refl }

  -- The acceptor's own fields say nothing about the rest.
  pub renumber-Sane :
      (s : Server) (w : World) → Sane w → s.accepting ≡ w.server.accepting → Sane (set_server s w)
  renumber-Sane s w sane e = record {
    inv = Inv-unowned [] w.mgr.connection_list s w sane.inv;
    orderly = sane.orderly;
    fresh = λ i pos. sane.fresh i (rw (← e) pos);
    once = λ i. rw e (sane.once i);
    room = sane.room;
  }

  joined-Sane :
      (i : ℕ) (w : World)
      → Sane w
      → length w.mgr.connection_list ≤ w.mgr.max_conn
      → Sane (set_list (set_insert i w.mgr.connection_list) w)
  joined-Sane i w sane few = record {
    inv = Inv-unowned [] (set_insert i w.mgr.connection_list) w.server w sane.inv;
    orderly = sane.orderly;
    fresh = sane.fresh;
    once = sane.once;
    room = omega (arith, length-set_insert i w.mgr.connection_list);
  }

  named : ℕ → Session → Session
  named id s = record s { client_id = id }

  -- A session that starts while there is room joins and reads its first header.
  pub start-Sane :
      (i id : ℕ) (w : World)
      → Sane w
      → i < w.created
      → count i w.server.accepting ≡ 0
      → IsFresh (w.session i)
      → length w.mgr.connection_list ≤ w.mgr.max_conn
      → Ensures SaneAfter (start i id true w)
  unfolding start join do_read named
  start-Sane i id w sane lt idle f few =
      rw (not_full, Ensures)
        (Became-Sane i (start_read read_header (v.session i)) v _ (joined-Sane i u named-Sane few)
          idle reading.0 reading.1
          (subst (λ s. IsOrderly (start_read read_header s)) (sym called.1.here) reads))
    where
      u : World
      u = set_session i (named id (w.session i)) w

      v : World
      v = set_list (set_insert i w.mgr.connection_list) u

      not_full : ltb w.mgr.max_conn (length w.mgr.connection_list) ≡ false
      not_full = ground arith

      called : Moved [] i (named id (w.session i)) w u
      called = change-Inv i sane.inv lt (named id) refl

      named-Sane : Sane u
      named-Sane =
          Became-Sane i (named id (w.session i)) w u sane idle called.0 called.1
            (ground (arith, sane.orderly i lt))

      reading :
          Moved [] i
            (start_read read_header (v.session i))
            v
            (set_session i (start_read read_header (v.session i)) v)
      reading = change-Inv i (joined-Sane i u named-Sane few).inv lt (start_read read_header) refl

      reads : IsOrderly (start_read read_header (named id (w.session i)))
      reads = ground (arith, f)

  -- An accept completes: the connection starts if there is room, and another accept is started.
  pub accepted-Sane :
      (i : ℕ) (error : Bool) (h : Hdr) (w : World)
      → Sane w
      → Enabled (accepted i error true h) w
      → Ensures SaneAfter (handle (accepted i error true h) w)
  unfolding handle handler_accept admit can_join next_client_id leave
  accepted-Sane i error h w sane (rest, e, _) =
      bind-Ensures SaneAfter SaneAfter (admit i error true) (λ _. start_accept h) taken
        (admitted error) (λ _ v d. start_accept-Sane h v d)
    where
      taken : World
      taken = set_server (record (w.server) { accepting = drop 1 w.server.accepting }) w

      idle : count i (drop 1 w.server.accepting) ≡ 0
      idle = ground (arith, sane.once i)

      taken-Sane : Sane taken
      taken-Sane = record {
        inv = Inv-unowned [] w.mgr.connection_list _ w sane.inv;
        orderly = sane.orderly;
        fresh = λ j pos. sane.fresh j (ground arith);
        once = λ j. ground (arith, sane.once j);
        room = sane.room;
      }

      waits : (i < w.created) × IsFresh (w.session i)
      waits = sane.fresh i (ground arith)

      numbered : World
      numbered =
          set_server (record (taken.server) { curr_client_id = u32 (w.server.curr_client_id + 1) })
            taken

      admitted : (error : Bool) → Ensures SaneAfter (admit i error true taken)
      admitted true = leave-Sane i taken taken-Sane
      admitted false = elim (Bool-cases (ltb w.mgr.max_conn (length w.mgr.connection_list))) [
        | inl full ↦ rw (full, Ensures) taken-Sane
        | inr room ↦
            rw (room, Ensures)
              (start-Sane i w.server.curr_client_id numbered
                (renumber-Sane numbered.server taken taken-Sane refl) waits.0 idle waits.1
                (ground arith))
      ]
