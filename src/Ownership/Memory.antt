-- ===== src/Ownership/Memory.antt =====
-- Ownership across new, delete and a write through a pointer.
use asio_tcp.Base.{ℕ, ◌≡◌, refl, ◌∙◌, some, List, ◌∷◌, Ensures, arith, weight-le-total}
use asio_tcp.Ring.{CircularBuffer}
use asio_tcp.Message.{Hdr, ConnMsg, construct}
use asio_tcp.Message.Body.{IsValid, construct-IsValid}
use asio_tcp.World.{World}
use asio_tcp.Memory.{new_msg, delete, assign}
use asio_tcp.Ownership.{queued, Inv, live-some}

module _ ⦃cb : CircularBuffer⦄ where
  -- Nothing but the heap changed.
  pub record OnlyHeap (w w' : World) : Type 0 where
    pub mgr : w'.mgr ≡ w.mgr
    pub session : w'.session ≡ w.session
    pub created : w'.created ≡ w.created
    pub server : w'.server ≡ w.server

  pub OnlyHeap-trans : (u v w : World) → OnlyHeap u v → OnlyHeap v w → OnlyHeap u w
  OnlyHeap-trans u v w a b = record {
    mgr = b.mgr ∙ a.mgr;
    session = b.session ∙ a.session;
    created = b.created ∙ a.created;
    server = b.server ∙ a.server;
  }

  module _ {held : List ℕ} {w : World} (inv : Inv held w) where
    open inv use {started, null_dead, fresh, owned, valid, small, filled, limit}

    pub new_msg-Inv :
        (h : Hdr)
        → Ensures
            (λ r. Inv (r.0 ∷ held) r.1 × (r.1.heap.cell r.0 ≡ some (construct h)) × OnlyHeap w r.1)
            (new_msg h w)
    unfolding new_msg
    new_msg-Inv h = (
      record {
        started = omega arith;
        null_dead = ground (arith, started, null_dead);
        fresh = λ p le. ground (arith, fresh p);
        owned = λ p. ground (arith, owned p, fresh p);
        valid = λ p m e. ground (arith, valid p m, construct-IsValid h);
        small = λ p m pos e. ground (arith, small p m, owned p, fresh p);
        filled = λ i p m lt pos e. ground (
          arith,
          filled i p m,
          owned p,
          fresh p,
          weight-le-total (queued p) w.session i w.created,
        );
        limit = limit;
      },
      ground arith,
      record { mgr = refl; session = refl; created = refl; server = refl },
    )

  module _ {held : List ℕ} {w : World} (p : ℕ) (inv : Inv (p ∷ held) w) where
    open inv use {started, null_dead, fresh, owned, valid, small, filled, limit}

    pub held-live : (m : ConnMsg) × (w.heap.cell p ≡ some m)
    held-live = live-some (w.heap.cell p) (ground (arith, owned p))

    -- `delete` of a buffer in hand does not fault, and nobody owns the buffer afterwards.
    pub delete-Inv : Ensures (λ r. Inv held r.1 × OnlyHeap w r.1) (delete p w)
    unfolding delete
    delete-Inv =
        let (m, alive) = held-live in
        rw (alive, Ensures)
          (
            record {
              started = started;
              null_dead = ground (arith, null_dead);
              fresh = λ q le. ground (arith, fresh q);
              owned = λ q. ground (arith, owned q);
              valid = λ q m e. ground (arith, valid q m);
              small = λ q m pos e. ground (arith, small q m);
              filled = λ i q m lt pos e. ground (arith, filled i q m);
              limit = limit;
            },
            record { mgr = refl; session = refl; created = refl; server = refl },
          )

    -- A write to a buffer in hand.
    pub assign-Inv :
        (m : ConnMsg)
        → IsValid m
        → Ensures
            (λ r. Inv (p ∷ held) r.1 × (r.1.heap.cell p ≡ some m) × OnlyHeap w r.1)
            (assign p m w)
    unfolding assign
    assign-Inv m v = (
      record {
        started = started;
        null_dead = ground (arith, null_dead, owned p, held-live);
        fresh = λ q le. ground (arith, fresh q, held-live);
        owned = λ q. ground (arith, owned q, held-live);
        valid = λ q m' e. ground (arith, valid q m');
        small = λ q m' pos e. ground (arith, small q m', owned q, held-live);
        filled = λ i q m' lt pos e. ground (
          arith,
          filled i q m',
          owned q,
          held-live,
          weight-le-total (queued q) w.session i w.created,
        );
        limit = limit;
      },
      ground arith,
      record { mgr = refl; session = refl; created = refl; server = refl },
    )
