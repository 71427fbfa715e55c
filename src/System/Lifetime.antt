-- ===== src/System/Lifetime.antt =====
-- How long a session lives (shared_ptr<session_tcp>, asio_test): it is held by the operations that it
-- has started, by the set of connections, and by the accept that waits for it.
pub mod Run
pub mod Expired
use asio_tcp.Base.{
  ℕ, zero, suc, Option, ◌+◌, ◌≤◌, ◌<◌, ◌≡◌, ◌≢◌, refl, sym, ap, ◌∙◌, Bool, true, false, some, List,
  [], ◌∷◌, ◌++◌, count, count-append, length, drop, update, update_ne, arith, Ensures, Ensures-mono,
  Bool-cases, inl, inr, ltb, ◌==◌, if◌then◌else◌, subst,
}
use asio_tcp.Ring.{CircularBuffer}
use asio_tcp.Message.{Hdr}
use asio_tcp.World.{
  Session, Server, Manager, World, read_header, read_body, write_header, write_body, M, ◌>>◌, ◌>>=◌,
  set_session,
}
use asio_tcp.World.Steps.{bind-Ensures}
use asio_tcp.Manager
use asio_tcp.Manager.{set_insert, set_erase, leave, join, can_join, disconnect, clear_buffer}
use asio_tcp.Session.{
  start_read, start_write, change, do_read, process_msg, handler_read_header, handler_read_body,
  handler_write_header, handler_write_body, start,
}
use asio_tcp.Server.{
  set_server, start_accept, start_server, stop_server, handler_accept, admit, next_client_id,
}
use asio_tcp.Ownership.{Inv}
use asio_tcp.Ownership.Queue.{Became, Leaves, change-Inv, sending}
use asio_tcp.Ownership.Receive.{Received, process_msg-Received}
use asio_tcp.Ownership.Send.{handler_write_header-Inv, handler_write_body-Inv}
use asio_tcp.Ownership.Memory.{OnlyHeap}
use asio_tcp.Ownership.Clear.{drop_pool, clear_buffer-Inv}
use asio_tcp.System.Fifo.{header_in_front, body_in_front}
use asio_tcp.System.{
  Event, header_arrived, body_arrived, header_sent, body_sent, accepted, started, stopped, handle,
  Enabled, header_in, body_in, write_done, Sane,
}

pub count-set_erase : (i k : ℕ) (l : List ℕ) → count i (set_erase k l) ≤ count i l
unfolding set_erase
count-set_erase i k [] = omega arith
count-set_erase i k (j ∷ js) = ground (arith, count-set_erase i k js)

pub count-set_insert : (i k : ℕ) (l : List ℕ) → k ≢ i → count i (set_insert k l) ≡ count i l
unfolding set_insert
count-set_insert i k [] ne = ground (arith, ne)
count-set_insert i k (j ∷ js) ne = ground (arith, ne, count-set_insert i k js ne)

pub count-drop : (i n : ℕ) (l : List ℕ) → count i (drop n l) ≤ count i l
count-drop i zero l = omega arith
count-drop i (suc n) [] = omega arith
count-drop i (suc n) (j ∷ js) = ground (arith, count-drop i n js)

module _ ⦃cb : CircularBuffer⦄ where
  -- The holders of session `i`.
  unfoldable pub use_count : ℕ → World → ℕ
  use_count i w =
      length (w.session i).socket.reads
      + length (w.session i).socket.writes
      + count i w.mgr.connection_list
      + count i w.server.accepting

  -- Session `i` is as it was, and nothing holds it that did not.
  pub record Keeps (i : ℕ) (w w' : World) : Type 0 where
    pub same : w'.session i ≡ w.session i
    pub listed : count i w'.mgr.connection_list ≤ count i w.mgr.connection_list
    pub awaited : count i w'.server.accepting ≤ count i w.server.accepting
    pub grown : w.created ≤ w'.created

  pub Keeps-refl : (i : ℕ) (w : World) → Keeps i w w
  Keeps-refl i w = record {
    same = refl;
    listed = omega arith;
    awaited = omega arith;
    grown = omega arith;
  }

  pub Keeps-trans : {i : ℕ} {u v w : World} → Keeps i u v → Keeps i v w → Keeps i u w
  Keeps-trans a b = record {
    same = b.same ∙ a.same;
    listed = omega (arith, a.listed, b.listed);
    awaited = omega (arith, a.awaited, b.awaited);
    grown = omega (arith, a.grown, b.grown);
  }

  Became-Keeps : {i k : ℕ} {s : Session} {w w' : World} → k ≢ i → Became k s w w' → Keeps i w w'
  Became-Keeps {i} {k} ne b = record {
    same = b.others i ne;
    listed = omega (arith, ap (count i) b.connection_list);
    awaited = omega (arith, ap (λ (s : Server). count i s.accepting) b.server);
    grown = omega (arith, b.created);
  }

  -- A step of another session, and then another.
  pub then-Keeps :
      (m : M (Unit {0})) {i : ℕ} {w v : World}
      → Keeps i w v
      → Ensures (λ r. Keeps i v r.1) (m v)
      → Ensures (λ r. Keeps i w r.1) (m v)
  then-Keeps m {i} {w} {v} a h =
      Ensures-mono (λ r. Keeps i v r.1) (λ r. Keeps i w r.1) (λ r b. Keeps-trans a b) (m v) h

  module _ (i k : ℕ) (ne : k ≢ i) where
    pub set_session-Keeps : (s : Session) (w : World) → Keeps i w (set_session k s w)
    set_session-Keeps s w = record {
      same = update_ne w.session k i s ne;
      listed = omega arith;
      awaited = omega arith;
      grown = omega arith;
    }

    pub leave-Keeps : (w : World) → Ensures (λ r. Keeps i w r.1) (leave k w)
    unfolding leave
    leave-Keeps w = record {
      same = refl;
      listed = count-set_erase i k w.mgr.connection_list;
      awaited = omega arith;
      grown = omega arith;
    }

    module _ (w : World) (sane : Sane w) (lt : k < w.created) where
      pub header_arrived-Keeps :
          (error : Bool) (h : Hdr)
          → Ensures (λ r. Keeps i w r.1) (handle (header_arrived k error h) w)
      unfolding handle handler_read_header
      header_arrived-Keeps true h =
          then-Keeps (leave k) (set_session-Keeps (header_in h (w.session k)) w) (leave-Keeps _)
      header_arrived-Keeps false h =
          Keeps-trans (set_session-Keeps (header_in h (w.session k)) w) (set_session-Keeps _ _)

      pub body_arrived-Keeps :
          (error : Bool) (bytes : List ℕ)
          → Ensures (λ r. Keeps i w r.1) (handle (body_arrived k error bytes) w)
      unfolding handle handler_read_body do_read
      body_arrived-Keeps true bytes =
          then-Keeps (leave k) (set_session-Keeps (body_in bytes (w.session k)) w) (leave-Keeps _)
      body_arrived-Keeps false bytes =
          then-Keeps (process_msg k >> do_read k)
            (set_session-Keeps (body_in bytes (w.session k)) w)
            (bind-Ensures (λ r. Received [] k x r.1) (λ r. Keeps i x r.1) (process_msg k)
              (λ _. do_read k) x
              (process_msg-Received k (change-Inv k sane.inv lt (body_in bytes) refl).0 lt)
              λ _ y d. Keeps-trans (Became-Keeps ne d.became) (set_session-Keeps _ y))
        where
          x : World
          x = set_session k (body_in bytes (w.session k)) w

      pub header_sent-Keeps :
          (error : Bool)
          → Enabled (header_sent k error) w
          → Ensures (λ r. Keeps i w r.1) (handle (header_sent k error) w)
      unfolding handle handler_write_header
      header_sent-Keeps true en =
          then-Keeps (leave k) (set_session-Keeps (write_done (w.session k)) w) (leave-Keeps _)
      header_sent-Keeps false (p, rest, e, _) =
          let (ps, q, only) = header_in_front p rest _ (rw e at (sane.orderly k lt).writing) in
          let first = change-Inv k sane.inv lt write_done refl in
          then-Keeps (handler_write_header k false) (set_session-Keeps (write_done (w.session k)) w)
            (Ensures-mono (Leaves [] k (start_write (write_body p) (x.session k)) x)
              (λ r. Keeps i x r.1) (λ r m. Became-Keeps ne m.1) (handler_write_header k false x)
              (handler_write_header-Inv k first.0 lt p ps
                (ap (λ (s : Session). s.msg_queue) first.1.here ∙ q)))
        where
          x : World
          x = set_session k (write_done (w.session k)) w

      pub body_sent-Keeps :
          (error : Bool)
          → Enabled (body_sent k error) w
          → Ensures (λ r. Keeps i w r.1) (handle (body_sent k error) w)
      unfolding handle handler_write_body
      body_sent-Keeps true en =
          then-Keeps (leave k) (set_session-Keeps (write_done (w.session k)) w) (leave-Keeps _)
      body_sent-Keeps false (p, rest, e, _) =
          let (ps, q, only) = body_in_front p rest _ (rw e at (sane.orderly k lt).writing) in
          let first = change-Inv k sane.inv lt write_done refl in
          then-Keeps (handler_write_body k false) (set_session-Keeps (write_done (w.session k)) w) (
            Ensures-mono
              (λ r. Inv [] r.1 × Became k (sending (record (x.session k) { msg_queue = ps })) x r.1)
              (λ r. Keeps i x r.1) (λ r m. Became-Keeps ne m.1) (handler_write_body k false x)
              (handler_write_body-Inv k first.0 lt p ps
                (ap (λ (s : Session). s.msg_queue) first.1.here ∙ q)))
        where
          x : World
          x = set_session k (write_done (w.session k)) w
