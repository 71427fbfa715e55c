-- ===== src/System/Numbers/Run.antt =====
-- The numbers of the clients along the main program (asio_test/asio_test.cpp), and connection_mgr::find,
-- which goes by them.
use asio_tcp.Base.{
  true, false, ℕ, ◌+◌, ◌^◌, ◌≤◌, ◌<◌, ◌≡◌, refl, Bool, Option, none, some, count, arith, Ensures,
}
use asio_tcp.Ring.{CircularBuffer}
use asio_tcp.Message.{Hdr}
use asio_tcp.World.{World}
use asio_tcp.World.Steps.{bind-Ensures}
use asio_tcp.Manager.{find, find_in}
use asio_tcp.Manager.Connections.{find_in-some, find_in-none}
use asio_tcp.Server.{new_server, start_accept, start_server, stop_server, serve, start_server-serve}
use asio_tcp.System.{Event}
use asio_tcp.System.Stop.{Halted, stop_server-Halted}
use asio_tcp.System.Restart.{restart}
use asio_tcp.System.Main.{Stage, boot, Main, booted, slept, restarted, Serving, Main-Serving}
use asio_tcp.System.Numbers.Given.{Given, nobody-Given}
use asio_tcp.System.Numbers.Accept.{count_accept, handle-Given}

module _ ⦃cb : CircularBuffer⦄ where
  -- The accepts without an error since the server was last started.
  unfoldable pub accepted_since : {s : Stage} {w : World} → Main s w → ℕ
  unfolding count_accept
  accepted_since (booted h e) = 0
  accepted_since (slept e m net en eq) = count_accept e (accepted_since m)
  accepted_since (restarted refuses h m willing eq) = 0

  boot-Given : (h : Hdr) → Ensures (Given 0) (boot true h)
  unfolding boot new_server start_server serve start_accept
  boot-Given h = nobody-Given _ refl refl

  restart-Given :
      (refuses : ℕ → Bool) (h : Hdr) (w : World)
      → ((j : ℕ) → refuses j ≡ false)
      → Serving w
      → Ensures (λ r. Given 0 r.1) (restart refuses true h w)
  unfolding restart serve start_accept
  restart-Given refuses h w willing s =
      bind-Ensures (λ r. Halted w r.1) (λ r. Given 0 r.1) (stop_server refuses)
        (λ _. start_server true h) w (stop_server-Halted refuses w s.sane s.able willing)
        λ _ v d. rw (start_server-serve h v refl d.deaf) (nobody-Given _ d.nobody refl)

  grows : (e : Event) (n : ℕ) → n ≤ count_accept e n
  unfolding count_accept
  grows e n = ground arith

  Main-Given :
      {s : Stage} {w : World} (m : Main s w)
      → accepted_since m + 1 < 2 ^ 32
      → Given (accepted_since m) w
  unfolding accepted_since
  Main-Given (booted h e) few = let g = boot-Given h in rw e at g
  Main-Given (slept {v = v} e m net en eq) few =
      let before = Main-Given m (omega (arith, few, grows e (accepted_since m))) in
      let g = handle-Given (accepted_since m) e v ((Main-Serving m).sane) en net before few in
      rw eq at g
  Main-Given (restarted refuses h {v = v} m willing eq) few =
      let g = restart-Given refuses h v willing (Main-Serving m) in rw eq at g

  -- In every state of the main program, if fewer than 2 ^ 32 - 1 accepts came without an error since
  -- the server was last started: `find` finds each connected session by its number, and changes nothing.
  pub Main-find :
      {s : Stage} {w : World} (m : Main s w)
      → accepted_since m + 1 < 2 ^ 32
      → (i : ℕ) → 0 < count i w.mgr.connection_list
      → find (w.session i).client_id w ≡ some (some i, w)
  unfolding find
  Main-find {w = w} m few i pos =
      by_result (find_in (w.session i).client_id w.session w.mgr.connection_list) refl
    where
      g : Given (accepted_since m) w
      g = Main-Given m few

      by_result :
          (r : Option ℕ)
          → find_in (w.session i).client_id w.session w.mgr.connection_list ≡ r
          → find (w.session i).client_id w ≡ some (some i, w)
      by_result none e =
          absurd (find_in-none (w.session i).client_id w.session w.mgr.connection_list i e pos refl)
      by_result (some j) e =
          let (there, same) =
            find_in-some (w.session i).client_id w.session w.mgr.connection_list j e in
          let one : j ≡ i = g.different j i there pos same in
          ground (arith, g.nonzero i pos, e, one)
