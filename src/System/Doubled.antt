-- ===== src/System/Doubled.antt =====
-- What becomes of a message of which two writes were started (session_tcp::handler_write_body, overtaken
-- by `write`; asio_test/connection.cpp).
use asio_tcp.Base.{
  ℕ, ◌<◌, ◌≡◌, refl, ap, ◌∙◌, false, some, List, [], ◌∷◌, ◌++◌, drop, Ensures, Ensures-mono, arith,
}
use asio_tcp.Ring.{CircularBuffer}
use asio_tcp.Message.{ConnMsg, is_null}
use asio_tcp.World.{World, Session, WriteOp, write_header, write_body, M, ◌>>◌, set_session}
use asio_tcp.World.Steps.{bind-Ensures}
use asio_tcp.Session.{start_write, handler_write_header, handler_write_body}
use asio_tcp.Session.Race.{overtaken, overtaken-Twice, Writing}
use asio_tcp.Ownership.{Inv}
use asio_tcp.Ownership.Queue.{Became, Leaves, change-Inv, sending}
use asio_tcp.Ownership.Send.{handler_write_header-Inv, handler_write_body-Inv}
use asio_tcp.System.{header_sent, body_sent, handle, write_done}

module _ ⦃cb : CircularBuffer⦄ (i q : ℕ) where
  header_sent-Writing :
      (op : WriteOp) (ops : List WriteOp) (w : World)
      → Writing i (q ∷ []) (op ∷ ops) w
      → Ensures
          (λ r. Writing i (q ∷ []) (ops ++ write_body q ∷ []) r.1)
          (handle (header_sent i false) w)
  unfolding handle
  header_sent-Writing op ops w (inv, lt, e, ws) =
      let first = change-Inv i inv lt write_done refl in
      Ensures-mono (Leaves [] i (start_write (write_body q) (x.session i)) x)
        (λ r. Writing i (q ∷ []) (ops ++ write_body q ∷ []) r.1)
        (λ r m.
          let here : r.1.session i ≡ start_write (write_body q) (write_done (w.session i)) =
            m.1.here ∙ ap (start_write (write_body q)) first.1.here in
          (
            m.0,
            omega (arith, lt, m.1.created),
            ap (λ (s : Session). s.msg_queue) here ∙ e,
            ap (λ (s : Session). s.socket.writes) here ∙ ap (λ l. drop 1 l ++ write_body q ∷ []) ws,
          ))
        (handler_write_header i false x)
        (handler_write_header-Inv i first.0 lt q []
          (ap (λ (s : Session). s.msg_queue) first.1.here ∙ e))
    where
      x : World
      x = set_session i (write_done (w.session i)) w

  body_sent-Writing :
      (op : WriteOp) (ops : List WriteOp) (w : World)
      → Writing i (q ∷ []) (op ∷ ops) w
      → Ensures (λ r. Writing i [] ops r.1) (handle (body_sent i false) w)
  unfolding handle sending
  body_sent-Writing op ops w (inv, lt, e, ws) =
      let first = change-Inv i inv lt write_done refl in
      Ensures-mono
        (λ r. Inv [] r.1 × Became i (sending (record (x.session i) { msg_queue = [] })) x r.1)
        (λ r. Writing i [] ops r.1)
        (λ r m. (
          m.0,
          omega (arith, lt, m.1.created),
          ap (λ (s : Session). s.msg_queue) m.1.here,
          ap (λ (s : Session). s.socket.writes) m.1.here
              ∙ ap (λ (s : Session). s.socket.writes) first.1.here
              ∙ ap (drop 1) ws,
        ))
        (handler_write_body i false x)
        (handler_write_body-Inv i first.0 lt q []
          (ap (λ (s : Session). s.msg_queue) first.1.here ∙ e))
    where
      x : World
      x = set_session i (write_done (w.session i)) w

  -- The overtaken handler, and then the completion of both headers and of one body.
  unfoldable pub doubled : M (Unit {0})
  doubled =
      overtaken i q
      >> (handle (header_sent i false)
          >> (handle (header_sent i false) >> handle (body_sent i false)))

  -- If ownership is sound, and another thread writes a filled message `q` of its own between the
  -- critical section and the `do_write` of handler_write_body, which had one message in its queue and no
  -- write in process: the header of `q` is being sent twice; and once both are sent and one body, the
  -- queue is empty, while the body of `q` is still being sent.
  pub doubled-Writing :
      (p : ℕ) (w : World) (m : ConnMsg)
      → Inv (q ∷ []) w
      → i < w.created
      → (w.session i).msg_queue ≡ p ∷ []
      → (w.session i).socket.writes ≡ []
      → w.heap.cell q ≡ some m
      → is_null m.buff ≡ false
      → Ensures
          (λ r. Writing i (q ∷ []) (write_header q ∷ write_header q ∷ []) r.1)
          (overtaken i q w)
        × Ensures (λ r. Writing i [] (write_body q ∷ []) r.1) (doubled w)
  unfolding doubled
  doubled-Writing p w m inv lt one none_pending alive full = (
    start,
    bind-Ensures (λ r. Writing i (q ∷ []) (write_header q ∷ write_header q ∷ []) r.1)
        (λ r. Writing i [] (write_body q ∷ []) r.1) (overtaken i q)
        (λ _. headers >> (headers >> handle (body_sent i false))) w start
        λ _ a da.
          bind-Ensures (λ r. Writing i (q ∷ []) (write_header q ∷ write_body q ∷ []) r.1)
            (λ r. Writing i [] (write_body q ∷ []) r.1) headers
            (λ _. headers >> handle (body_sent i false)) a
            (header_sent-Writing (write_header q) (write_header q ∷ []) a da)
            λ _ b db.
              bind-Ensures (λ r. Writing i (q ∷ []) (write_body q ∷ write_body q ∷ []) r.1)
                (λ r. Writing i [] (write_body q ∷ []) r.1) headers
                (λ _. handle (body_sent i false)) b
                (header_sent-Writing (write_header q) (write_body q ∷ []) b db)
                λ _ c dc. body_sent-Writing (write_body q) (write_body q ∷ []) c dc,
  )
    where
      headers : M (Unit {0})
      headers = handle (header_sent i false)

      start :
          Ensures
            (λ r. Writing i (q ∷ []) (write_header q ∷ write_header q ∷ []) r.1)
            (overtaken i q w)
      start = overtaken-Twice i p q w m inv lt one none_pending alive full
