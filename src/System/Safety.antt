-- ===== src/System/Safety.antt =====
-- The two completions of a read are handled without a fault, and leave the server in order.
use asio_tcp.Base.{
  ℕ, ◌≤◌, ◌<◌, ◌≡◌, refl, sym, ap, subst, Bool, true, false, List, [], ◌∷◌, length, count, arith,
  Ensures, ℕ_discrete,
}
use asio_tcp.Ring.{CircularBuffer}
use asio_tcp.Message.{Hdr}
use asio_tcp.World.{
  Session, Server, ReadOp, read_header, read_body, WriteOp, World, ◌>>◌, set_session,
}
use asio_tcp.World.Steps.{bind-Ensures}
use asio_tcp.Manager.{leave, set_erase}
use asio_tcp.Session.{
  start_read, change, do_read, process_msg, handler_read_header, handler_read_body,
}
use asio_tcp.Ownership.{Inv, Inv-unowned}
use asio_tcp.Ownership.Queue.{Became, Became-trans, Moved, change-Inv, written}
use asio_tcp.Ownership.Receive.{Received, process_msg-Received, emptied}
use asio_tcp.System.{
  header_arrived, body_arrived, handle, Enabled, header_in, body_in, IsOrderly, IsFresh, Sane,
}
use asio_tcp.System.Orderly.{header_in-IsOrderly, body_in-IsOrderly, echoed-IsOrderly}

pub length-set_erase : (i : ℕ) (js : List ℕ) → length (set_erase i js) ≤ length js
unfolding set_erase
length-set_erase i [] = omega arith
length-set_erase i (j ∷ js) = ground (arith, length-set_erase i js)

module _ ⦃cb : CircularBuffer⦄ where
  abbrev pub SaneAfter : {A : Type 0} → A × World → Type 0
  SaneAfter r = Sane r.1

  -- Session `i`, which waits for no accept, became an orderly session.
  pub Became-Sane :
      (i : ℕ) (s : Session) (w w' : World)
      → Sane w
      → count i w.server.accepting ≡ 0
      → Inv [] w'
      → Became i s w w'
      → IsOrderly s
      → Sane w'
  Became-Sane i s w w' sane idle inv b o = record {
    inv = inv;
    orderly = λ j lt. elim (ℕ_discrete i j) [
      | yes e ↦ subst (λ k. IsOrderly (w'.session k)) e (subst IsOrderly (sym b.here) o)
      | no ne ↦ subst IsOrderly (sym (b.others j ne)) (sane.orderly j (rw (← b.created) lt))
    ];
    fresh = λ j pos. elim (ℕ_discrete i j) [
      | yes e ↦ absurd (ground (arith, ap (λ (v : Server). count j v.accepting) b.server))
      | no ne ↦
          let waits : 0 < count j w.server.accepting = rw (← b.server) pos in
          (
            rw b.created (sane.fresh j waits).0,
            subst IsFresh (sym (b.others j ne)) (sane.fresh j waits).1,
          )
    ];
    once = λ j. rw b.server (sane.once j);
    room = rw (b.connection_list, b.max_conn) sane.room;
  }

  pub leave-Sane : (i : ℕ) (w : World) → Sane w → Ensures SaneAfter (leave i w)
  unfolding leave
  leave-Sane i w sane = record {
    inv = Inv-unowned [] (set_erase i w.mgr.connection_list) w.server w sane.inv;
    orderly = sane.orderly;
    fresh = sane.fresh;
    once = sane.once;
    room = omega (arith, sane.room, length-set_erase i w.mgr.connection_list);
  }

  -- What completes is the operation of a session that waits for no accept.
  pub reads_idle :
      (i : ℕ) (op : ReadOp) (rest : List ReadOp) (w : World)
      → Sane w
      → (w.session i).socket.reads ≡ op ∷ rest
      → count i w.server.accepting ≡ 0
  reads_idle i op rest w sane e = elim (ℕ_discrete (count i w.server.accepting) 0) [
    | yes z ↦ z
    | no pos ↦ let f = (sane.fresh i (omega arith)).1 in cc (f.no_reads)
  ]

  pub writes_idle :
      (i : ℕ) (op : WriteOp) (rest : List WriteOp) (w : World)
      → Sane w
      → (w.session i).socket.writes ≡ op ∷ rest
      → count i w.server.accepting ≡ 0
  writes_idle i op rest w sane e = elim (ℕ_discrete (count i w.server.accepting) 0) [
    | yes z ↦ z
    | no pos ↦ let f = (sane.fresh i (omega arith)).1 in cc (f.no_writes)
  ]

  module _ (i : ℕ) (w : World) (sane : Sane w) (lt : i < w.created) where
    -- A handler that finds an error after a completion that left session `i` orderly.
    pub failed :
        (f : Session → Session)
        → count i w.server.accepting ≡ 0
        → (f (w.session i)).msg_queue ≡ (w.session i).msg_queue
        → IsOrderly (f (w.session i))
        → Ensures SaneAfter ((change i f >> leave i) w)
    failed f idle same o =
        let moved = change-Inv i sane.inv lt f same in
        leave-Sane i (set_session i (f (w.session i)) w)
          (Became-Sane i (f (w.session i)) w _ sane idle moved.0 moved.1 o)

    -- A completion, and a world in which session `i` went on from there.
    pub went_on :
        (f : Session → Session) (s : Session)
        → count i w.server.accepting ≡ 0
        → (f (w.session i)).msg_queue ≡ (w.session i).msg_queue
        → IsOrderly s
        → (w' : World) → Inv [] w'
        → Became i s (set_session i (f (w.session i)) w) w'
        → Sane w'
    went_on f s idle same o w' inv b =
        let moved = change-Inv i sane.inv lt f same in
        Became-Sane i s w w' sane idle inv
          (Became-trans i (f (w.session i)) s w (set_session i (f (w.session i)) w) w' moved.1 b) o

    next_change :
        (f g : Session → Session)
        → count i w.server.accepting ≡ 0
        → (f (w.session i)).msg_queue ≡ (w.session i).msg_queue
        → ((s : Session) → (g s).msg_queue ≡ s.msg_queue)
        → IsOrderly (g (f (w.session i)))
        → Ensures SaneAfter ((change i f >> change i g) w)
    next_change f g idle same keeps o =
        let moved = change-Inv i sane.inv lt f same in
        let again = change-Inv i moved.0 lt g (keeps _) in
        went_on f (g (x.session i)) idle same (subst (λ s. IsOrderly (g s)) (sym moved.1.here) o) _
          again.0 again.1
      where
        x : World
        x = set_session i (f (w.session i)) w

    pub header_arrived-Sane :
        (error : Bool) (h : Hdr)
        → Enabled (header_arrived i error h) w
        → Ensures SaneAfter (handle (header_arrived i error h) w)
    unfolding handle handler_read_header
    header_arrived-Sane true h (rest, e, _) =
        failed (header_in h) (reads_idle i read_header rest w sane e) refl
          (header_in-IsOrderly (w.session i) (sane.orderly i lt) h rest e).0
    header_arrived-Sane false h (rest, e, _) =
        next_change (header_in h) (λ s. start_read (read_body s.header.len) s)
          (reads_idle i read_header rest w sane e) refl (λ s. refl)
          (header_in-IsOrderly (w.session i) (sane.orderly i lt) h rest e).1

    pub body_arrived-Sane :
        (error : Bool) (bytes : List ℕ)
        → Enabled (body_arrived i error bytes) w
        → Ensures SaneAfter (handle (body_arrived i error bytes) w)
    unfolding handle handler_read_body do_read
    body_arrived-Sane true bytes (n, rest, e, _, _) =
        failed (body_in bytes) (reads_idle i (read_body n) rest w sane e) refl
          (body_in-IsOrderly (w.session i) (sane.orderly i lt) bytes n rest e)
    body_arrived-Sane false bytes (n, rest, e, _, _) =
        bind-Ensures (λ r. Received [] i x r.1) SaneAfter (process_msg i) (λ _. do_read i) x
          (process_msg-Received i moved.0 lt) reads_on
      where
        x : World
        x = set_session i (body_in bytes (w.session i)) w

        moved : Moved [] i (body_in bytes (w.session i)) w x
        moved = change-Inv i sane.inv lt (body_in bytes) refl

        none_pending : (body_in bytes (w.session i)).socket.reads ≡ []
        none_pending = ground (arith, (sane.orderly i lt).reading)

        reads_on : (r : ℕ) (y : World) → Received [] i x y → Ensures SaneAfter (do_read i y)
        reads_on r y d =
            let again = change-Inv i d.inv (rw d.became.created lt) (start_read read_header) refl in
            went_on (body_in bytes) (start_read read_header (y.session i))
              (reads_idle i (read_body n) rest w sane e) refl
              (subst (λ s. IsOrderly (start_read read_header s)) (sym d.became.here)
                (subst (λ s. IsOrderly (start_read read_header (written d.at (emptied s))))
                  (sym moved.1.here)
                  (echoed-IsOrderly d.at (body_in bytes (w.session i))
                    (body_in-IsOrderly (w.session i) (sane.orderly i lt) bytes n rest e)
                    none_pending)))
              _ again.0 (Became-trans i _ _ x y _ d.became again.1)
