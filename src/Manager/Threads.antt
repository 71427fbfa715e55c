-- ===== src/Manager/Threads.antt =====
-- Threads that are in allocate_msg_buffer and dellocate_msg_buffer at once (connection_mgr,
-- asio_test/connection.cpp). What a thread does between two of its lock and unlock is one step; the
-- steps of all threads interleave. A thread writes into its buffers, and hands them to other threads,
-- as it does through the queue of a session.
use asio_tcp.Base.{ℕ, ◌<◌, ◌≡◌, ◌≢◌, some, List, ◌∷◌, ◌++◌, update, leb, ◌==◌, if◌then◌else◌}
use asio_tcp.Ring.{CircularBuffer}
use asio_tcp.Message.{Hdr, capacity, max_body_length, set_body}
use asio_tcp.World.{World, M, ◌>>=◌, ◌>>◌, pure}
use asio_tcp.Memory.{new_msg, delete, deref}
use asio_tcp.Manager.{buffer_empty, buffer_full, take_front, put_back}
use asio_tcp.Session.{fill}

-- Where a thread stands: in neither method; in allocate_msg_buffer before its read lock, before its
-- write lock, or before `new`; in dellocate_msg_buffer before its read lock, before its write lock, or
-- before `delete`. Under the read lock the code calls `new` and `delete` before it unlocks, where they
-- meet no other step on the pool than the read of another thread: they are steps of their own.
pub data Doing : Type 0 where
  idle : Doing
  wants : Hdr → Doing
  found : Hdr → Doing
  must_new : Hdr → Doing
  returns : ℕ → Doing
  room_for : ℕ → Doing
  must_delete : ℕ → Doing

-- A thread and the buffers that it has in hand.
pub record Thread : Type 0 where
  pub doing : Doing
  pub hand : List ℕ

abbrev pub resting : List ℕ → Thread
resting ps = record { doing = idle; hand = ps }

abbrev pub busy : Doing → List ℕ → Thread
busy d ps = record { doing = d; hand = ps }

unfoldable pub enter_allocate : Hdr → Doing
enter_allocate h = if leb h.len max_body_length then wants h else must_new h

module _ ⦃cb : CircularBuffer⦄ where
  unfoldable pub enter_dellocate : ℕ → M Doing
  enter_dellocate p = do
    m ← deref p
    pure (if capacity m == max_body_length then returns p else must_delete p)

  -- The next step of a thread that is in one of the methods.
  unfoldable pub advance : Doing → List ℕ → M Thread
  unfolding buffer_empty buffer_full take_front put_back
  advance idle hand = pure (resting hand)
  advance (wants h) hand =
      buffer_empty >>= λ gone. pure (busy (if gone then must_new h else found h) hand)
  advance (found h) hand = buffer_empty >>= λ gone.
      if gone
      then pure (busy (must_new h) hand)
      else (take_front >>= λ p. pure (resting (p ∷ hand)))
  advance (must_new h) hand = new_msg h >>= λ p. pure (resting (p ∷ hand))
  advance (returns p) hand =
      buffer_full >>= λ no_room. pure (busy (if no_room then must_delete p else room_for p) hand)
  advance (room_for p) hand = buffer_full >>= λ no_room.
      if no_room then pure (busy (must_delete p) hand) else (put_back p >> pure (resting hand))
  advance (must_delete p) hand = delete p >> pure (resting hand)

  -- The program with its threads; an index from `n` on names no thread.
  pub record Program : Type 0 where
    pub world : World
    pub thread : ℕ → Thread

  -- A thread calls one of the methods, goes on in it, writes a body into a buffer that it has, or hands
  -- one to another thread.
  pub data Step (n : ℕ) (s : Program) : Program → Type 0 where
    ask :
        (k : ℕ) (h : Hdr)
        → k < n
        → (s.thread k).doing ≡ idle
        → Step n s
            (record s { thread = update s.thread k (busy (enter_allocate h) (s.thread k).hand) })
    give :
        (k p : ℕ) (xs ys : List ℕ) {d : Doing} {w : World}
        → k < n
        → (s.thread k).doing ≡ idle
        → (s.thread k).hand ≡ xs ++ p ∷ ys
        → enter_dellocate p s.world ≡ some (d, w)
        → Step n s (record { world = w; thread = update s.thread k (busy d (xs ++ ys)) })
    go :
        (k : ℕ) {t : Thread} {w : World}
        → k < n
        → advance (s.thread k).doing (s.thread k).hand s.world ≡ some (t, w)
        → Step n s (record { world = w; thread = update s.thread k t })
    write_body :
        (k p : ℕ) (xs ys src : List ℕ) {w : World}
        → k < n
        → (s.thread k).doing ≡ idle
        → (s.thread k).hand ≡ xs ++ p ∷ ys
        → fill p (set_body src) s.world ≡ some (tt, w)
        → Step n s (record { world = w; thread = s.thread })
    pass :
        (k j p : ℕ) (xs ys : List ℕ)
        → k < n
        → j < n
        → k ≢ j
        → (s.thread k).hand ≡ xs ++ p ∷ ys
        → Step n s (record s {
          thread =
              update
                (update s.thread k (busy (s.thread k).doing (xs ++ ys)))
                j
                (busy (s.thread j).doing (p ∷ (s.thread j).hand));
        })

  pub data Reach (n : ℕ) (s : Program) : Program → Type 0 where
    here : Reach n s s
    next : {t u : Program} → Reach n s t → Step n t u → Reach n s u
