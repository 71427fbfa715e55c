-- ===== src/Ownership/Queue.antt =====
-- Ownership across the methods of a session, and what they do to the session itself.
use asio_tcp.Base.{
  ℕ, ◌+◌, ◌<◌, ◌≡◌, ◌≢◌, refl, sym, subst, ap, ◌∙◌, Bool, true, false, some, List, [], ◌∷◌, ◌++◌,
  count, count-append, total-update, update_self, update_ne, Ensures, Ensures-mono, arith,
  if◌then◌else◌, weight-le-total,
}
use asio_tcp.Ring.{CircularBuffer, is_empty}
use asio_tcp.Message.{ConnMsg, is_null}
use asio_tcp.World.{World, Session, write_header, Heap, ◌>>◌, pure, set_session}
use asio_tcp.World.Steps.{bind-Ensures}
use asio_tcp.Memory.{deref}
use asio_tcp.Session.{start_write, change, do_write, enqueue, write}
use asio_tcp.Ownership.{queued, Inv, live-some}

-- A session after `do_write`, and after `write`.
unfoldable pub sending : Session → Session
sending s = elim s.msg_queue [ [] ↦ s | p ∷ rest ↦ start_write (write_header p) s ]

pub sending-nil : (s : Session) → s.msg_queue ≡ [] → sending s ≡ s
unfolding sending
sending-nil s e = ground arith

pub sending-cons :
    (s : Session) (p : ℕ) (rest : List ℕ)
    → s.msg_queue ≡ p ∷ rest
    → sending s ≡ start_write (write_header p) s
unfolding sending
sending-cons s p rest e = ground arith

abbrev pub with_msg : ℕ → Session → Session
with_msg p s = record s { msg_queue = s.msg_queue ++ p ∷ [] }

unfoldable pub written : ℕ → Session → Session
written p s = if is_empty s.msg_queue then sending (with_msg p s) else with_msg p s

pub queue-written : (p : ℕ) (s : Session) → (written p s).msg_queue ≡ s.msg_queue ++ p ∷ []
unfolding written sending
queue-written p s = ground arith

pub queue-sending : (s : Session) → (sending s).msg_queue ≡ s.msg_queue
unfolding sending
queue-sending s = ground arith

pub written-idle :
    (p : ℕ) (s : Session) → true ≡ is_empty s.msg_queue → written p s ≡ sending (with_msg p s)
unfolding written
written-idle p s e = rw (← e)

pub written-busy : (p : ℕ) (s : Session) → false ≡ is_empty s.msg_queue → written p s ≡ with_msg p s
unfolding written
written-busy p s e = rw (← e)

module _ ⦃cb : CircularBuffer⦄ where
  -- Session `i` became `s`; the other sessions, the set of connections and the acceptor stay.
  pub record Became (i : ℕ) (s : Session) (w w' : World) : Type 0 where
    pub connection_list : w'.mgr.connection_list ≡ w.mgr.connection_list
    pub max_conn : w'.mgr.max_conn ≡ w.mgr.max_conn
    pub created : w'.created ≡ w.created
    pub server : w'.server ≡ w.server
    pub here : w'.session i ≡ s
    pub others : (j : ℕ) → i ≢ j → w'.session j ≡ w.session j

  abbrev pub Moved : List ℕ → ℕ → Session → World → World → Type 0
  Moved held i s w w' = Inv held w' × Became i s w w' × (w'.heap ≡ w.heap)

  abbrev pub Leaves : {A : Type 0} → List ℕ → ℕ → Session → World → A × World → Type 0
  Leaves held i s w r = Moved held i s w r.1

  pub Became-refl : (i : ℕ) (w : World) → Became i (w.session i) w w
  Became-refl i w = record {
    connection_list = refl;
    max_conn = refl;
    created = refl;
    server = refl;
    here = refl;
    others = λ j ne. refl;
  }

  pub Became-trans :
      (i : ℕ) (s t : Session) (u v w : World) → Became i s u v → Became i t v w → Became i t u w
  Became-trans i s t u v w a b = record {
    connection_list = b.connection_list ∙ a.connection_list;
    max_conn = b.max_conn ∙ a.max_conn;
    created = b.created ∙ a.created;
    server = b.server ∙ a.server;
    here = b.here;
    others = λ j ne. b.others j ne ∙ a.others j ne;
  }

  pub Moved-trans :
      {held held' : List ℕ} {i : ℕ} {s t : Session} {u v w : World}
      → Moved held i s u v
      → Moved held' i t v w
      → Moved held' i t u w
  Moved-trans {i} {s} {t} {u} {v} {w} a b = (b.0, Became-trans i s t u v w a.1 b.1, b.2 ∙ a.2)

  pub Moved-eq :
      {held : List ℕ} {i : ℕ} {s t : Session} {w w' : World}
      → s ≡ t
      → Moved held i s w w'
      → Moved held i t w w'
  Moved-eq {held} {i} {w = w} {w' = w'} e m = subst (λ s. Moved held i s w w') e m

  -- A new value of session `i`, which may take a buffer in hand into its queue or give one out.
  pub set_session-Inv :
      (held held' : List ℕ) (w : World) (i : ℕ) (s : Session)
      → Inv held w
      → i < w.created
      → ((p : ℕ) → queued p s + count p held' ≡ queued p (w.session i) + count p held)
      → ((p : ℕ) (m : ConnMsg) → 0 < queued p s → w.heap.cell p ≡ some m → is_null m.buff ≡ false)
      → Moved held' i s w (set_session i s w)
  set_session-Inv held held' w i s inv lt same full = (
    record {
      started = started;
      null_dead = null_dead;
      fresh = fresh;
      owned =
          λ p. omega (arith, owned p, same p, total-update (queued p) w.session i s w.created lt);
      valid = valid;
      small = small;
      filled = λ j p m b pos e. ground (arith, filled j p m b, full p m);
      limit = limit;
    },
    record {
      connection_list = refl;
      max_conn = refl;
      created = refl;
      server = refl;
      here = update_self w.session i s;
      others = λ j ne. update_ne w.session i j s ne;
    },
    refl,
  )
    where
      open inv use {started, null_dead, fresh, owned, valid, small, filled, limit}

  module _ {held : List ℕ} {w : World} (i : ℕ) (inv : Inv held w) (lt : i < w.created) where
    -- A change of a session that leaves its queue alone.
    pub change-Inv :
        (f : Session → Session)
        → (f (w.session i)).msg_queue ≡ (w.session i).msg_queue
        → Ensures (λ r. Moved held i (f (w.session i)) w r.1) (change i f w)
    change-Inv f same =
        set_session-Inv held held w i (f (w.session i)) inv lt (λ p. ground (arith, same))
          (λ p m pos e. inv.filled i p m lt (ground (arith, same)) e)

    pub queue-live :
        (p : ℕ) (rest : List ℕ)
        → (w.session i).msg_queue ≡ p ∷ rest
        → (m : ConnMsg) × (w.heap.cell p ≡ some m)
    queue-live p rest e =
        live-some (w.heap.cell p)
          (ground (arith, inv.owned p, weight-le-total (queued p) w.session i w.created))

    -- `do_write` does not fault, and starts the write of the front of the queue, if there is one.
    pub do_write-Inv : Ensures (Leaves held i (sending (w.session i)) w) (do_write i w)
    unfolding do_write deref
    do_write-Inv = by_queue (w.session i).msg_queue refl
      where
        Goal : Session → Type 0
        Goal s = Ensures (Leaves held i s w) (do_write i w)

        by_queue : (ps : List ℕ) → (w.session i).msg_queue ≡ ps → Goal (sending (w.session i))
        by_queue [] e =
            subst Goal (sym (sending-nil (w.session i) e))
              (rw (e, Ensures) (inv, Became-refl i w, refl))
        by_queue (p ∷ rest) e =
            let (m, alive) = queue-live p rest e in
            subst Goal (sym (sending-cons (w.session i) p rest e))
              (rw (e, alive, Ensures) (change-Inv (start_write (write_header p)) refl))

  module _ {held : List ℕ} {w : World} (i p : ℕ) (inv : Inv (p ∷ held) w) (lt : i < w.created) where
    -- A buffer in hand that holds a body goes to the end of the queue.
    pub enqueue-Inv :
        (m : ConnMsg)
        → w.heap.cell p ≡ some m
        → is_null m.buff ≡ false
        → Ensures
            (λ r.
              (r.0 ≡ is_empty (w.session i).msg_queue)
              × Moved held i (with_msg p (w.session i)) w r.1)
            (enqueue i p w)
    unfolding enqueue
    enqueue-Inv m alive full = (
      refl,
      set_session-Inv (p ∷ held) held w i (with_msg p (w.session i)) inv lt
          (λ q. ground (arith, count-append q (w.session i).msg_queue (p ∷ [])))
          (λ q m' pos e.
            ground (arith, inv.filled i q m' lt, count-append q (w.session i).msg_queue (p ∷ []))),
    )

    -- `write` does not fault. The message goes to the end of the queue, and its header is sent at
    -- once if the queue was empty.
    pub write-Inv :
        (m : ConnMsg)
        → w.heap.cell p ≡ some m
        → is_null m.buff ≡ false
        → Ensures (Leaves held i (written p (w.session i)) w) (write i p w)
    unfolding write deref
    write-Inv m alive full =
        bind-Ensures _ (Leaves held i (written p (w.session i)) w) (enqueue i p) _ w
          (enqueue-Inv m alive full) step
      where
        step :
            (idle : Bool) (v : World)
            → (idle ≡ is_empty (w.session i).msg_queue)
              × Moved held i (with_msg p (w.session i)) w v
            → Ensures
                (Leaves held i (written p (w.session i)) w)
                ((deref p >> (if idle then do_write i else pure tt)) v)
        step true v (e, moved) =
            rw (ap (λ (h : Heap). h.cell p) moved.2 ∙ alive, Ensures)
              (Ensures-mono (Leaves held i (sending (v.session i)) v)
                (Leaves held i (written p (w.session i)) w)
                (λ r d.
                  Moved-trans moved
                    (Moved-eq (ap sending moved.1.here ∙ sym (written-idle p (w.session i) e)) d))
                (do_write i v) (do_write-Inv i moved.0 (rw moved.1.created lt)))
        step false v (e, moved) =
            rw (ap (λ (h : Heap). h.cell p) moved.2 ∙ alive, Ensures)
              (Moved-eq (sym (written-busy p (w.session i) e)) moved)
