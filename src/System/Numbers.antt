-- ===== src/System/Numbers.antt =====
-- The numbers of the clients (server_tcp::curr_client_id_ and session_tcp::client_id_, asio_test): the
-- handlers leave them alone, and an accept gives out the next.
pub mod Given
pub mod Accept
pub mod Run
use asio_tcp.Base.{
  ℕ, suc, Option, ◌+◌, ◌%◌, ◌^◌, ◌≤◌, ◌<◌, ◌≡◌, ◌≢◌, refl, sym, ap, ◌∙◌, Bool, true, false, some,
  List, [], ◌∷◌, ◌++◌, count, length, drop, update, update_ne, update_self, arith, Ensures,
  Ensures-mono, Ensures-and, Bool-cases, inl, inr, ltb, ◌==◌, if◌then◌else◌, subst, ℕ_discrete,
}
use asio_tcp.Ring.{CircularBuffer, is_empty}
use asio_tcp.Message.{Hdr}
use asio_tcp.World.{
  Session, Server, World, M, read_header, read_body, write_body, ◌>>◌, ◌>>=◌, set_session,
}
use asio_tcp.World.Steps.{bind-Ensures}
use asio_tcp.Manager.{set_erase, leave}
use asio_tcp.Session.{
  start_read, start_write, change, do_read, process_msg, handler_read_header, handler_read_body,
  handler_write_header, handler_write_body,
}
use asio_tcp.Ownership.{Inv}
use asio_tcp.Ownership.Queue.{Became, Became-trans, Leaves, change-Inv, sending, written}
use asio_tcp.Ownership.Receive.{Received, process_msg-Received, emptied}
use asio_tcp.Ownership.Send.{handler_write_header-Inv, handler_write_body-Inv}
use asio_tcp.System.{
  Event, header_arrived, body_arrived, header_sent, body_sent, handle, Enabled, header_in, body_in,
  write_done, Sane,
}
use asio_tcp.System.Safety.{length-set_erase}
use asio_tcp.System.Fifo.{header_in_front, body_in_front}
use asio_tcp.System.Lifetime.{
  Keeps, count-set_erase, header_arrived-Keeps, body_arrived-Keeps, header_sent-Keeps,
  body_sent-Keeps,
}

client_id-sending : (s : Session) → (sending s).client_id ≡ s.client_id
unfolding sending
client_id-sending s = ground arith

client_id-written : (p : ℕ) (s : Session) → (written p s).client_id ≡ s.client_id
unfolding written sending
client_id-written p s = ground arith

module _ ⦃cb : CircularBuffer⦄ where
  -- Session `k` has its number, and is connected only if it was; no more sessions are connected.
  abbrev pub Named : ℕ → World → World → Type 0
  Named k w w' =
      ((w'.session k).client_id ≡ (w.session k).client_id)
      × (count k w'.mgr.connection_list ≤ count k w.mgr.connection_list)
      × (w'.server ≡ w.server)
      × (length w'.mgr.connection_list ≤ length w.mgr.connection_list)
      × (w'.mgr.max_conn ≡ w.mgr.max_conn)

  -- All sessions have their numbers, and none was added to the set.
  pub record Quiet (w w' : World) : Type 0 where
    pub ids : (i : ℕ) → i < w.created → (w'.session i).client_id ≡ (w.session i).client_id
    pub listed : (i : ℕ) → count i w'.mgr.connection_list ≤ count i w.mgr.connection_list
    pub curr : w'.server.curr_client_id ≡ w.server.curr_client_id
    pub grown : w.created ≤ w'.created

  pub Named-Quiet :
      (k : ℕ) (w w' : World) → ((j : ℕ) → k ≢ j → Keeps j w w') → Named k w w' → Quiet w w'
  Named-Quiet k w w' others n = record {
    ids = λ i lt. elim (ℕ_discrete k i) [
      | yes e ↦ subst (λ j. (w'.session j).client_id ≡ (w.session j).client_id) e n.0
      | no ne ↦ ap (λ (s : Session). s.client_id) (others i ne).same
    ];
    listed = λ i. elim (ℕ_discrete k i) [
      | yes e ↦ subst (λ j. count j w'.mgr.connection_list ≤ count j w.mgr.connection_list) e n.1
      | no ne ↦ (others i ne).listed
    ];
    curr = ap (λ (s : Server). s.curr_client_id) n.2;
    grown = (others (suc k) (λ e. absurd (omega (arith, e)))).grown;
  }

  Became-Named :
      {k : ℕ} {s : Session} {w w' : World}
      → s.client_id ≡ (w.session k).client_id
      → Became k s w w'
      → Named k w w'
  Became-Named {k} e b = (
    ap (λ (s : Session). s.client_id) b.here ∙ e,
    omega (arith, ap (count k) b.connection_list),
    b.server,
    omega (arith, ap length b.connection_list),
    b.max_conn,
  )

  -- A handler whose operation failed.
  failed-Named :
      (k : ℕ) (f : Session → Session) (w : World)
      → (f (w.session k)).client_id ≡ (w.session k).client_id
      → Ensures (λ r. Named k w r.1) ((change k f >> leave k) w)
  unfolding leave
  failed-Named k f w e = (
    ap (λ (s : Session). s.client_id) (update_self w.session k (f (w.session k))) ∙ e,
    count-set_erase k k w.mgr.connection_list,
    refl,
    length-set_erase k w.mgr.connection_list,
    refl,
  )

  module _ (k : ℕ) (w : World) (sane : Sane w) (lt : k < w.created) where
    pub header_arrived-Named :
        (error : Bool) (h : Hdr)
        → Ensures (λ r. Named k w r.1) (handle (header_arrived k error h) w)
    unfolding handle handler_read_header
    header_arrived-Named true h = failed-Named k (header_in h) w refl
    header_arrived-Named false h = (
      ap (λ (s : Session). s.client_id) (update_self x.session k (after (x.session k)))
          ∙ ap (λ (s : Session). s.client_id) (update_self w.session k (header_in h (w.session k))),
      omega arith,
      refl,
      omega arith,
      refl,
    )
      where
        x : World
        x = set_session k (header_in h (w.session k)) w

        after : Session → Session
        after s = start_read (read_body s.header.len) s

    pub body_arrived-Named :
        (error : Bool) (bytes : List ℕ)
        → Ensures (λ r. Named k w r.1) (handle (body_arrived k error bytes) w)
    unfolding handle handler_read_body do_read
    body_arrived-Named true bytes = failed-Named k (body_in bytes) w refl
    body_arrived-Named false bytes =
        let first = change-Inv k sane.inv lt (body_in bytes) refl in
        bind-Ensures (λ r. Received [] k x r.1) (λ r. Named k w r.1) (process_msg k)
          (λ _. do_read k) x (process_msg-Received k first.0 lt)
          λ _ y d.
            let n =
              Became-Named
                (client_id-written d.at (emptied (x.session k))
                  ∙ ap (λ (s : Session). s.client_id) first.1.here)
                (Became-trans k _ _ w x y first.1 d.became) in
            (
              ap (λ (s : Session). s.client_id) (update_self y.session k _) ∙ n.0,
              n.1,
              n.2,
              n.3,
              n.4,
            )
      where
        x : World
        x = set_session k (body_in bytes (w.session k)) w

    pub header_sent-Named :
        (error : Bool)
        → Enabled (header_sent k error) w
        → Ensures (λ r. Named k w r.1) (handle (header_sent k error) w)
    unfolding handle handler_write_header
    header_sent-Named true en = failed-Named k write_done w refl
    header_sent-Named false (p, rest, e, _) =
        let (ps, q, only) = header_in_front p rest _ (rw e at (sane.orderly k lt).writing) in
        let first = change-Inv k sane.inv lt write_done refl in
        Ensures-mono (Leaves [] k (start_write (write_body p) (x.session k)) x) (λ r. Named k w r.1)
          (λ r m.
            Became-Named (ap (λ (s : Session). s.client_id) first.1.here)
              (Became-trans k _ _ w x r.1 first.1 m.1))
          (handler_write_header k false x)
          (handler_write_header-Inv k first.0 lt p ps
            (ap (λ (s : Session). s.msg_queue) first.1.here ∙ q))
      where
        x : World
        x = set_session k (write_done (w.session k)) w

    pub body_sent-Named :
        (error : Bool)
        → Enabled (body_sent k error) w
        → Ensures (λ r. Named k w r.1) (handle (body_sent k error) w)
    unfolding handle handler_write_body
    body_sent-Named true en = failed-Named k write_done w refl
    body_sent-Named false (p, rest, e, _) =
        let (ps, q, only) = body_in_front p rest _ (rw e at (sane.orderly k lt).writing) in
        let first = change-Inv k sane.inv lt write_done refl in
        Ensures-mono
          (λ r. Inv [] r.1 × Became k (sending (record (x.session k) { msg_queue = ps })) x r.1)
          (λ r. Named k w r.1)
          (λ r m.
            Became-Named
              (client_id-sending (record (x.session k) { msg_queue = ps })
                ∙ ap (λ (s : Session). s.client_id) first.1.here)
              (Became-trans k _ _ w x r.1 first.1 m.1))
          (handler_write_body k false x)
          (handler_write_body-Inv k first.0 lt p ps
            (ap (λ (s : Session). s.msg_queue) first.1.here ∙ q))
      where
        x : World
        x = set_session k (write_done (w.session k)) w
