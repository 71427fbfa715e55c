-- ===== src/Server/Address.antt =====
-- The addresses that a session prints when it starts (asio_test/connection.h and connection.cpp), and
-- what becomes of an accept when one of them cannot be found: remote_endpoint and local_endpoint of a
-- socket throw, and nothing on the way from session_tcp::start to handler_accept catches that.
use asio_tcp.Base.{
  ℕ, ◌≤◌, ◌≡◌, ◌≢◌, ◌↔◌, refl, Bool, true, false, Option, none, some, List, length, Bool-cases, ◌⊎◌,
  inl, inr, Ensures, Ensures-mono, Ensures-value, arith, ◌&&◌,
}
use asio_tcp.Ring.{CircularBuffer}
use asio_tcp.Message.{Hdr}
use asio_tcp.World.{World, Session, Socket, M, get}
use asio_tcp.World.Steps.{bind-Ensures, bind-eq_of_none}
use asio_tcp.Manager.{can_join}
use asio_tcp.Session.{start, new_session}
use asio_tcp.Server.{next_client_id, start_accept, admit, handler_accept}
use asio_tcp.Server.Race.{start-joins, counted, is_full}

module _ ⦃cb : CircularBuffer⦄ where
  -- session_tcp::create, socket and client_id.
  unfoldable pub create : Hdr → Session
  create header = new_session header

  unfoldable pub socket : ℕ → M Socket
  socket i = get (λ w. (w.session i).socket)

  unfoldable pub client_id : ℕ → M ℕ
  client_id i = get (λ w. (w.session i).client_id)

  abbrev found_in : Option (List ℕ) → Bool
  found_in none = false
  found_in (some text) = true

  -- The addresses of the two ends of a socket as texts; `none` is an exception.
  module _ (remote_endpoint local_endpoint : Socket → Option (List ℕ)) where
    unfoldable pub remote_address : ℕ → World → Option (List ℕ)
    remote_address i w = remote_endpoint (w.session i).socket

    unfoldable pub local_address : ℕ → World → Option (List ℕ)
    local_address i w = local_endpoint (w.session i).socket

    -- What session_tcp::start needs for its line on the console.
    unfoldable pub has_addresses : ℕ → World → Bool
    has_addresses i w = found_in (remote_address i w) && found_in (local_address i w)

  Returns : (Unit {0}) × World → Type 0
  Returns r = Unit {0}

  admit-none : (i : ℕ) (w : World) → is_full w ≡ false → admit i false false w ≡ none
  unfolding admit can_join next_client_id start
  admit-none i w room = rw room refl

  admit-Returns :
      (i : ℕ) (found : Bool) (w : World)
      → (found ≡ true) ⊎ (is_full w ≡ true)
      → Ensures Returns (admit i false found w)
  unfolding admit can_join next_client_id Returns
  admit-Returns i found w (inr full) = rw (full, Ensures) tt
  admit-Returns i found w (inl e) = elim (Bool-cases (is_full w)) [
    | inl full ↦ rw (full, Ensures) tt
    | inr room ↦
        rw (room, e, Ensures)
          (Ensures-mono _ Returns (λ r d. tt) (start i w.server.curr_client_id true (counted w))
            (start-joins i w.server.curr_client_id (counted w) room))
  ]

  returned :
      (i : ℕ) (found : Bool) (h : Hdr) (w : World)
      → (found ≡ true) ⊎ (is_full w ≡ true)
      → handler_accept i false found h w ≢ none
  unfolding handler_accept start_accept Returns
  returned i found h w c e =
      let (r, eq, _) = Ensures-value Returns (handler_accept i false found h w) (
        bind-Ensures Returns Returns (admit i false found) (λ _. start_accept h) w
          (admit-Returns i found w c) λ _ v d. tt) in
      cc (eq, e)

  -- handler_accept of an accept without an error does not return exactly if there is room, so that the
  -- session is started, and one of the addresses of the accepted socket is missing.
  pub handler_accept-none_iff :
      (i : ℕ) (found : Bool) (h : Hdr) (w : World)
      → (handler_accept i false found h w ≡ none)
        ↔ ((found ≡ false) × (length w.mgr.connection_list ≤ w.mgr.max_conn))
  unfolding handler_accept
  handler_accept-none_iff i true h w =
      (λ e. absurd (returned i true h w (inl refl) e), λ d. absurd (cc d.0))
  handler_accept-none_iff i false h w = elim (Bool-cases (is_full w)) [
    | inl full ↦
        (λ e. absurd (returned i false h w (inr full) e), λ d. absurd (ground (arith, d.1, full)))
    | inr room ↦ (
      λ e. (refl, ground (arith, room)),
      λ d. bind-eq_of_none (admit i false false) (λ _. start_accept h) (admit-none i w room),
    )
  ]
