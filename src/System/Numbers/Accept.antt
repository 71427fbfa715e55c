-- ===== src/System/Numbers/Accept.antt =====
-- server_tcp::handler_accept and the numbers of the clients (asio_test/server.h), and the handlers of
-- reads and writes, which leave the numbers alone.
use asio_tcp.Base.{
  ℕ, suc, ◌+◌, ◌^◌, ◌<◌, ◌≡◌, ◌≢◌, refl, ap, ◌∙◌, Bool, true, false, count, length, drop, arith,
  Ensures, Ensures-mono, Ensures-and, Ensures-all, Bool-cases, inl, inr, ltb,
}
use asio_tcp.Ring.{CircularBuffer}
use asio_tcp.Message.{Hdr}
use asio_tcp.World.{Server, World, M}
use asio_tcp.World.Steps.{bind-Ensures}
use asio_tcp.Manager.{leave, can_join}
use asio_tcp.Session.{start}
use asio_tcp.Server.{u32, set_server, start_accept, handler_accept, admit, next_client_id}
use asio_tcp.System.{
  Event, header_arrived, body_arrived, header_sent, body_sent, accepted, started, stopped, handle,
  Enabled, Sane,
}
use asio_tcp.System.Main.{OfAsio}
use asio_tcp.System.Lifetime.{
  Keeps, Keeps-trans, count-set_erase, header_arrived-Keeps, body_arrived-Keeps, header_sent-Keeps,
  body_sent-Keeps,
}
use asio_tcp.System.Lifetime.Run.{start-Keeps}
use asio_tcp.System.Numbers.{
  Quiet, Named, Named-Quiet, header_arrived-Named, body_arrived-Named, header_sent-Named,
  body_sent-Named,
}
use asio_tcp.System.Numbers.Given.{
  Given, Quiet-Given, next-Given, start-Named, set_server-Quiet, start_accept-Quiet,
}

-- Only an accept without an error may give out a number.
unfoldable pub count_accept : Event → ℕ → ℕ
count_accept (accepted i false found h) n = suc n
count_accept _ n = n

module _ ⦃cb : CircularBuffer⦄ where
  later-Given : {n : ℕ} {w : World} → Given n w → Given (suc n) w
  later-Given g = record {
    born = g.born;
    nonzero = g.nonzero;
    used = g.used;
    different = g.different;
    started = g.started;
    few = omega (arith, g.few);
  }

  others-Keeps :
      (k : ℕ) (m : M (Unit {0})) (w : World)
      → ((j : ℕ) → k ≢ j → Ensures (λ r. Keeps j w r.1) (m w))
      → Ensures (λ r. (j : ℕ) → k ≢ j → Keeps j w r.1) (m w)
  others-Keeps k m w each =
      Ensures-mono (λ r. (p : (j : ℕ) × (k ≢ j)) → Keeps p.0 w r.1)
        (λ r. (j : ℕ) → k ≢ j → Keeps j w r.1) (λ r all j ne. all (j, ne)) (m w)
        (Ensures-all (λ (p : (j : ℕ) × (k ≢ j)) r. Keeps p.0 w r.1) (m w)
          (suc k, λ e. absurd (omega (arith, e))) λ p. each p.0 p.1)

  left-Quiet : (k : ℕ) (w : World) → Ensures (λ r. Quiet w r.1) (leave k w)
  unfolding leave
  left-Quiet k w = record {
    ids = λ i lt. refl;
    listed = λ i. count-set_erase i k w.mgr.connection_list;
    curr = refl;
    grown = omega arith;
  }

  -- The numbers do not wrap round yet.
  admit-Given :
      (k n : ℕ) (w : World)
      → Given n w
      → k < w.created
      → n + 2 < 2 ^ 32
      → Ensures (λ r. Given (suc n) r.1) (admit k false true w)
  unfolding admit can_join next_client_id
  admit-Given k n w g lt few =
      elim (Bool-cases (ltb w.mgr.max_conn (length w.mgr.connection_list))) [
        | inl full ↦ rw (full, Ensures) (later-Given g)
        | inr room ↦
            rw (room, Ensures)
              (Ensures-mono _ (λ r. Given (suc n) r.1)
                (λ r d.
                  next-Given g lt d.0.0 (ap (λ (s : Server). s.curr_client_id) d.0.1 ∙ unwrapped)
                    (omega (arith, d.0.2))
                    λ j ne.
                      Keeps-trans
                        (record {
                          same = refl;
                          listed = omega arith;
                          awaited = omega arith;
                          grown = omega arith;
                        })
                        (d.1 j ne))
                (start k w.server.curr_client_id true (counted w))
                (Ensures-and
                  (λ r.
                    ((r.1.session k).client_id ≡ w.server.curr_client_id)
                    × (r.1.server ≡ (counted w).server)
                    × (r.1.created ≡ w.created))
                  (λ r. (j : ℕ) → k ≢ j → Keeps j (counted w) r.1)
                  (start k w.server.curr_client_id true (counted w))
                  (start-Named k w.server.curr_client_id (counted w) room)
                  (others-Keeps k (start k w.server.curr_client_id true) (counted w)
                    λ j ne. start-Keeps j k w.server.curr_client_id (counted w) ne room)))
      ]
    where
      counted : World → World
      counted w =
          set_server (record (w.server) { curr_client_id = u32 (w.server.curr_client_id + 1) }) w

      unwrapped : u32 (w.server.curr_client_id + 1) ≡ suc w.server.curr_client_id
      unwrapped = omega (arith, g.few, few)

  accepted-Given :
      (k n : ℕ) (error : Bool) (h : Hdr) (w : World)
      → Sane w
      → Enabled (accepted k error true h) w
      → Given n w
      → count_accept (accepted k error true h) n + 1 < 2 ^ 32
      → Ensures
          (λ r. Given (count_accept (accepted k error true h) n) r.1)
          (handle (accepted k error true h) w)
  unfolding handle handler_accept count_accept admit leave
  accepted-Given k n error h w sane (rest, e, _) g few =
      bind-Ensures (λ r. Given (count_accept (accepted k error true h) n) r.1)
        (λ r. Given (count_accept (accepted k error true h) n) r.1) (admit k error true)
        (λ _. start_accept h) x (admitted error few)
        λ _ y d.
          Ensures-mono (λ r. Quiet y r.1)
            (λ r. Given (count_accept (accepted k error true h) n) r.1) (λ r q. Quiet-Given d q)
            (start_accept h y) (start_accept-Quiet h y)
    where
      x : World
      x = set_server (record (w.server) { accepting = drop 1 w.server.accepting }) w

      x-Given : Given n x
      x-Given = Quiet-Given g (set_server-Quiet x.server w refl)

      waits : 0 < count k w.server.accepting
      waits = ground (arith, e)

      admitted :
          (error : Bool)
          → count_accept (accepted k error true h) n + 1 < 2 ^ 32
          → Ensures
              (λ r. Given (count_accept (accepted k error true h) n) r.1)
              (admit k error true x)
      admitted true few = Quiet-Given x-Given (left-Quiet k x)
      admitted false few = admit-Given k n x x-Given (sane.fresh k waits).0 (omega (arith, few))

  event-Given :
      (k n : ℕ) (e : Event) (w : World)
      → Given n w
      → ((j : ℕ) → k ≢ j → Ensures (λ r. Keeps j w r.1) (handle e w))
      → Ensures (λ r. Named k w r.1) (handle e w)
      → Ensures (λ r. Given n r.1) (handle e w)
  event-Given k n e w g others named =
      Ensures-mono (λ r. Named k w r.1 × ((j : ℕ) → k ≢ j → Keeps j w r.1)) (λ r. Given n r.1)
        (λ r d. Quiet-Given g (Named-Quiet k w r.1 d.1 d.0)) (handle e w)
        (Ensures-and (λ r. Named k w r.1) (λ r. (j : ℕ) → k ≢ j → Keeps j w r.1) (handle e w) named
          (others-Keeps k (handle e) w others))

  -- Every handler of a pending operation keeps the numbers in order, while they do not wrap round.
  pub handle-Given :
      (n : ℕ) (e : Event) (w : World)
      → Sane w
      → Enabled e w
      → OfAsio e
      → Given n w
      → count_accept e n + 1 < 2 ^ 32
      → Ensures (λ r. Given (count_accept e n) r.1) (handle e w)
  unfolding count_accept
  handle-Given n (header_arrived k error h) w sane en net g few =
      event-Given k n (header_arrived k error h) w g
        (λ j ne. header_arrived-Keeps j k ne w sane en.2 error h)
        (header_arrived-Named k w sane en.2 error h)
  handle-Given n (body_arrived k error bytes) w sane en net g few =
      event-Given k n (body_arrived k error bytes) w g
        (λ j ne. body_arrived-Keeps j k ne w sane en.3 error bytes)
        (body_arrived-Named k w sane en.3 error bytes)
  handle-Given n (header_sent k error) w sane en net g few =
      event-Given k n (header_sent k error) w g
        (λ j ne. header_sent-Keeps j k ne w sane en.3 error en)
        (header_sent-Named k w sane en.3 error en)
  handle-Given n (body_sent k error) w sane en net g few =
      event-Given k n (body_sent k error) w g (λ j ne. body_sent-Keeps j k ne w sane en.3 error en)
        (body_sent-Named k w sane en.3 error en)
  handle-Given n (accepted k error false h) w sane en net g few = absurd (cc en.2)
  handle-Given n (accepted k error true h) w sane en net g few =
      accepted-Given k n error h w sane en g few
  handle-Given n (started binds h) w sane en net g few = absurd net
  handle-Given n (stopped refuses) w sane en net g few = absurd net
