-- ===== src/Example/Lifetime.antt =====
-- A session of which a write and then a read failed (asio_test), while another client connects.
use asio_tcp.Base.{ℕ, ◌<◌, ◌≡◌, ◌≢◌, refl, true, false, none, [], ◌∷◌, arith}
use asio_tcp.World.{World}
use asio_tcp.Ownership.{queued}
use asio_tcp.System.{handle, header_sent, header_arrived, accepted}
use asio_tcp.System.Run.{Reach, here, next}
use asio_tcp.System.Lifetime.{use_count}
use asio_tcp.System.Lifetime.Expired.{Reach-expired}
use asio_tcp.Example.Ring.{list_buffer}
use asio_tcp.Example.Trace.{Run, Run-Sane, step, after, hdr, received}

unfoldable failed : Run
unfolding step received
failed = record {
  last = after (handle (header_sent 0 true) received.last) received.last;
  reach = next (header_sent 0 true) received.reach (1, [], refl, omega arith) refl;
}

unfoldable parted : Run
unfolding step failed
parted = record {
  last = after (handle (header_arrived 0 true hdr) failed.last) failed.last;
  reach = next (header_arrived 0 true hdr) failed.reach ([], refl, omega arith) refl;
}

unfoldable later : World
unfolding step parted
later = after (handle (accepted 1 false true hdr) parted.last) parted.last

goes_on : Reach parted.last later
unfolding step later
goes_on = next (accepted 1 false true hdr) here ([], refl, refl) refl

Reach-expired_example :
    (use_count 0 later ≡ 0)
    × (later.session 0 ≡ parted.last.session 0)
    × ((q : ℕ)
        → 0 < queued q (parted.last.session 0)
        → (later.heap.cell q ≡ parted.last.heap.cell q) × (parted.last.heap.cell q ≢ none))
unfolding step parted use_count
Reach-expired_example = Reach-expired 0 (Run-Sane parted) (omega arith) refl goes_on

-- Its echo is in its queue.
left_behind : (parted.last.session 0).msg_queue ≡ 1 ∷ []
unfolding step parted
left_behind = refl
