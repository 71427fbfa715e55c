-- ===== src/Ownership/Clear.antt =====
-- connection_mgr::clear_buffer: the buffers of the pool are freed.
use asio_tcp.Base.{
  ℕ, ◌≡◌, ◌≢◌, update_ne, count, Ensures-and, refl, sym, subst, ◌∙◌, none, List, [], ◌∷◌, ◌++◌,
  arith, Ensures, Ensures-mono, update, append-nil,
}
use asio_tcp.Ring.{CircularBuffer}
use asio_tcp.World.{World, M, ◌>>◌, modify, set_pool, set_heap}
use asio_tcp.World.Steps.{bind-Ensures}
use asio_tcp.Memory.{delete, deref}
use asio_tcp.Manager.{delete_all, clear_buffer}
use asio_tcp.Ownership.{pooled, Inv}
use asio_tcp.Ownership.Memory.{OnlyHeap, OnlyHeap-trans, held-live, delete-Inv}

module _ ⦃cb : CircularBuffer⦄ where
  abbrev pub drop_pool : World → World
  drop_pool w = set_pool (cb.clear w.mgr.conn_msg_buffer) w

  -- What stands in the pool is nothing to `delete`.
  delete-pool :
      (p : ℕ) (k : M (Unit {0})) (w : World)
      → ((v : World) → (k >> modify drop_pool) v ≡ k (drop_pool v))
      → ((delete p >> k) >> modify drop_pool) w ≡ (delete p >> k) (drop_pool w)
  unfolding delete deref
  delete-pool p k w h =
      ground (arith, h (set_heap (record (w.heap) { cell = update w.heap.cell p none }) w))

  delete_all-pool :
      (ps : List ℕ) (w : World)
      → (delete_all ps >> modify drop_pool) w ≡ delete_all ps (drop_pool w)
  unfolding delete_all
  delete_all-pool [] w = refl
  delete_all-pool (p ∷ ps) w = delete-pool p (delete_all ps) w (delete_all-pool ps)

  delete_all-Inv :
      (ps held : List ℕ) (w : World)
      → Inv (ps ++ held) w
      → Ensures (λ r. Inv held r.1 × OnlyHeap w r.1) (delete_all ps w)
  unfolding delete_all
  delete_all-Inv [] held w inv =
      (inv, record { mgr = refl; session = refl; created = refl; server = refl })
  delete_all-Inv (p ∷ ps) held w inv =
      bind-Ensures (λ r. Inv (ps ++ held) r.1 × OnlyHeap w r.1) (λ r. Inv held r.1 × OnlyHeap w r.1)
        (delete p) (λ _. delete_all ps) w (delete-Inv p inv)
        λ _ v d.
          Ensures-mono (λ r. Inv held r.1 × OnlyHeap v r.1) (λ r. Inv held r.1 × OnlyHeap w r.1)
            (λ r a. (a.0, OnlyHeap-trans w v r.1 d.1 a.1)) (delete_all ps v)
            (delete_all-Inv ps held v d.0)

  -- The buffers of the pool, taken out of it.
  emptied_pool :
      (w : World)
      → Inv [] w
      → Inv (cb.contents w.mgr.conn_msg_buffer ++ []) (set_pool (cb.clear w.mgr.conn_msg_buffer) w)
  emptied_pool w inv = record {
    started = inv.started;
    null_dead = inv.null_dead;
    fresh = inv.fresh;
    owned = λ p. ground (
      arith,
      inv.owned p,
      cb.contents-clear w.mgr.conn_msg_buffer,
      append-nil (cb.contents w.mgr.conn_msg_buffer),
    );
    valid = inv.valid;
    small = λ p m pos. ground (arith, cb.contents-clear w.mgr.conn_msg_buffer);
    filled = inv.filled;
    limit = cb.limit-clear w.mgr.conn_msg_buffer ∙ inv.limit;
  }

  -- `clear_buffer` frees every buffer of the pool, and no other.
  pub clear_buffer-Inv :
      (w : World)
      → Inv [] w
      → Ensures
          (λ r. Inv [] r.1 × OnlyHeap (set_pool (cb.clear w.mgr.conn_msg_buffer) w) r.1)
          (clear_buffer w)
  unfolding clear_buffer
  clear_buffer-Inv w inv =
      subst (Ensures (λ r. Inv [] r.1 × OnlyHeap (drop_pool w) r.1))
        (sym (delete_all-pool (cb.contents w.mgr.conn_msg_buffer) w))
        (delete_all-Inv (cb.contents w.mgr.conn_msg_buffer) [] (drop_pool w) (emptied_pool w inv))

  pub delete-others :
      (p : ℕ) (held : List ℕ) (w : World)
      → Inv (p ∷ held) w
      → Ensures (λ r. (q : ℕ) → p ≢ q → r.1.heap.cell q ≡ w.heap.cell q) (delete p w)
  unfolding delete
  delete-others p held w inv =
      let (m, alive) = held-live p inv in
      rw (alive, Ensures) (λ q ne. update_ne w.heap.cell p q none ne)

  delete_all-others :
      (ps held : List ℕ) (w : World)
      → Inv (ps ++ held) w
      → Ensures (λ r. (q : ℕ) → count q ps ≡ 0 → r.1.heap.cell q ≡ w.heap.cell q) (delete_all ps w)
  unfolding delete_all
  delete_all-others [] held w inv = λ q e. refl
  delete_all-others (p ∷ ps) held w inv =
      bind-Ensures
        (λ r.
          (Inv (ps ++ held) r.1 × OnlyHeap w r.1)
          × ((q : ℕ) → p ≢ q → r.1.heap.cell q ≡ w.heap.cell q))
        (λ r. (q : ℕ) → count q (p ∷ ps) ≡ 0 → r.1.heap.cell q ≡ w.heap.cell q) (delete p)
        (λ _. delete_all ps) w
        (Ensures-and _ _ (delete p w) (delete-Inv p inv) (delete-others p (ps ++ held) w inv))
        λ _ v (d, same).
          Ensures-mono (λ r. (q : ℕ) → count q ps ≡ 0 → r.1.heap.cell q ≡ v.heap.cell q) _
            (λ r a q none_left.
              a q (ground (arith, none_left)) ∙ same q (λ e. ground (arith, e, none_left)))
            (delete_all ps v) (delete_all-others ps held v d.0)

  -- What is not in the pool is not touched.
  pub clear_buffer-others :
      (w : World)
      → Inv [] w
      → Ensures (λ r. (q : ℕ) → pooled q w ≡ 0 → r.1.heap.cell q ≡ w.heap.cell q) (clear_buffer w)
  unfolding clear_buffer
  clear_buffer-others w inv =
      subst (Ensures (λ r. (q : ℕ) → pooled q w ≡ 0 → r.1.heap.cell q ≡ w.heap.cell q))
        (sym (delete_all-pool (cb.contents w.mgr.conn_msg_buffer) w))
        (delete_all-others (cb.contents w.mgr.conn_msg_buffer) [] (drop_pool w)
          (emptied_pool w inv))
