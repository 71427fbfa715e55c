-- ===== src/System/Fifo/Carry.antt =====
-- What each event does to the bodies that wait in the queue of a session (asio_test).
use asio_tcp.Base.{ℕ, ◌<◌, ◌≡◌, ◌≢◌, refl, true, false, [], Ensures}
use asio_tcp.Ring.{CircularBuffer}
use asio_tcp.World.{World}
use asio_tcp.System.{
  Event, header_arrived, body_arrived, header_sent, body_sent, accepted, started, stopped, handle,
  Enabled, Sane,
}
use asio_tcp.System.Fifo.{Label, nothing, header_out, cut_off, body_out, label}
use asio_tcp.System.Fifo.Texts.{read_at, sent_at, Carried, IsQuiet, IsQuiet-label_at, quiet-Carried}
use asio_tcp.System.Fifo.Frame.{handle-Untouched}
use asio_tcp.System.Fifo.Bodies.{body_arrived-Carried}
use asio_tcp.System.Fifo.Sent.{body_sent-Carried}

module _ ⦃cb : CircularBuffer⦄ where
  IsQuiet-body_out : (l : Label) → IsQuiet l → l ≢ body_out
  IsQuiet-body_out l h e = rw e at h

  -- An event that neither reads nor sends a body for session `i`.
  calm-Carried :
      (e : Event) (w : World) (i : ℕ)
      → Sane w
      → Enabled e w
      → i < w.created
      → IsQuiet (label e i)
      → read_at e i ≡ []
      → sent_at e w i ≡ []
      → Ensures (λ r. Carried e w r.1 i) (handle e w)
  calm-Carried e w i sane en lt quiet no_read no_sent =
      quiet-Carried e w i sane en lt quiet no_read no_sent
        (handle-Untouched e w i sane en lt (IsQuiet-body_out (label e i) quiet))

  pub handle-Carried :
      (e : Event) (w : World) (i : ℕ)
      → Sane w
      → Enabled e w
      → i < w.created
      → Ensures (λ r. Carried e w r.1 i) (handle e w)
  unfolding label
  handle-Carried (header_arrived k error h) w i sane en lt =
      calm-Carried _ w i sane en lt (IsQuiet-label_at k nothing i tt) refl refl
  handle-Carried (body_arrived k true bytes) w i sane en lt =
      calm-Carried _ w i sane en lt (IsQuiet-label_at k nothing i tt) refl refl
  handle-Carried (body_arrived k false bytes) w i sane en lt =
      body_arrived-Carried k w sane en.3 bytes en i lt
  handle-Carried (header_sent k true) w i sane en lt =
      calm-Carried _ w i sane en lt (IsQuiet-label_at k cut_off i tt) refl refl
  handle-Carried (header_sent k false) w i sane en lt =
      calm-Carried _ w i sane en lt (IsQuiet-label_at k header_out i tt) refl refl
  handle-Carried (body_sent k true) w i sane en lt =
      calm-Carried _ w i sane en lt (IsQuiet-label_at k cut_off i tt) refl refl
  handle-Carried (body_sent k false) w i sane en lt = body_sent-Carried k w sane en.3 en i lt
  handle-Carried (accepted k error found h) w i sane en lt =
      calm-Carried _ w i sane en lt tt refl refl
  handle-Carried (started binds h) w i sane en lt = calm-Carried _ w i sane en lt tt refl refl
  handle-Carried (stopped refuses) w i sane en lt = calm-Carried _ w i sane en lt tt refl refl
