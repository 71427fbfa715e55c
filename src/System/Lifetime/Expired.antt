-- ===== src/System/Lifetime/Expired.antt =====
-- A session that nothing holds, which is then destroyed (asio_test): the program does not come back to
-- it, and the messages in its queue are lost.
use asio_tcp.Base.{ℕ, ◌<◌, ◌≡◌, ◌≢◌, refl, ap, none, List, [], ◌∷◌, count, length, arith}
use asio_tcp.Ring.{CircularBuffer}
use asio_tcp.World.{World}
use asio_tcp.Ownership.{queued}
use asio_tcp.System.{Sane}
use asio_tcp.System.Run.{Reach, here, next, Reach-Sane}
use asio_tcp.System.Fifo.Texts.{queued-live}
use asio_tcp.System.Fifo.Stuck.{Reach-stuck}
use asio_tcp.System.Lifetime.{use_count, Keeps, Keeps-refl, Keeps-trans}
use asio_tcp.System.Lifetime.Run.{handle-Keeps}

length-zero : {A : Type 0} (xs : List A) → length xs ≡ 0 → xs ≡ []
length-zero [] e = refl
length-zero (x ∷ xs) e = absurd (omega (arith, e))

module _ ⦃cb : CircularBuffer⦄ (i : ℕ) where
  Keeps-use_count : {v w : World} → Keeps i v w → use_count i v ≡ 0 → use_count i w ≡ 0
  unfolding use_count
  Keeps-use_count {v} {w} k gone = rw k.same (omega (arith, gone, k.listed, k.awaited))

  Reach-Keeps : {v w : World} → Sane v → i < v.created → use_count i v ≡ 0 → Reach v w → Keeps i v w
  Reach-Keeps {v} sane lt gone here = Keeps-refl i v
  Reach-Keeps {v} sane lt gone (next {v = x} e r en eq) =
      let k = Reach-Keeps sane lt gone r in
      let d =
        handle-Keeps i e x (Reach-Sane sane r) en (omega (arith, lt, k.grown))
          (Keeps-use_count k gone) in
      Keeps-trans k (rw eq at d)

  idle : (w : World) → use_count i w ≡ 0 → (w.session i).socket.writes ≡ []
  unfolding use_count
  idle w gone = length-zero (w.session i).socket.writes (omega (arith, gone))

  -- In a sane state, a session that no pending operation, no pending accept and not the set of
  -- connections holds is held by nothing ever after, and is not touched again; and each message in its
  -- queue is allocated and stays so for ever, as it is.
  pub Reach-expired :
      {v w : World}
      → Sane v
      → i < v.created
      → use_count i v ≡ 0
      → Reach v w
      → (use_count i w ≡ 0)
        × (w.session i ≡ v.session i)
        × ((q : ℕ)
            → 0 < queued q (v.session i)
            → (w.heap.cell q ≡ v.heap.cell q) × (v.heap.cell q ≢ none))
  Reach-expired {v} {w} sane lt gone r = (
    Keeps-use_count k gone,
    k.same,
    λ q pos. (lost (v.session i).msg_queue refl q pos, there q pos),
  )
    where
      k : Keeps i v w
      k = Reach-Keeps sane lt gone r

      there : (q : ℕ) → 0 < queued q (v.session i) → v.heap.cell q ≢ none
      there q pos e = let (m, alive) = queued-live v sane.inv i q lt pos in absurd (cc (e, alive))

      lost :
          (ps : List ℕ)
          → (v.session i).msg_queue ≡ ps
          → (q : ℕ) → 0 < queued q (v.session i)
          → w.heap.cell q ≡ v.heap.cell q
      lost [] e q pos = absurd (omega (arith, pos, ap (count q) e))
      lost (p ∷ ps) e q pos = (Reach-stuck i sane lt (idle v gone) p ps e r).2 q pos
