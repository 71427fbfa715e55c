-- ===== src/Example/Admit.antt =====
-- A second client is let in while a header of the first one is handled (asio_test).
use asio_tcp.Base.{suc, ◌≤◌, ◌<◌, ◌≡◌, refl, true, false, some, [], count, length, Ensures, arith}
use asio_tcp.Manager.{can_join}
use asio_tcp.Server.Race.{after_can_join}
use asio_tcp.System.{header_arrived}
use asio_tcp.System.Admit.{Meanwhile, at_once, then_handled, after_can_join-Meanwhile}
use asio_tcp.Example.Ring.{list_buffer}
use asio_tcp.Example.Trace.{hdr, step, connected, announced, Run-Sane}

one_header : Meanwhile connected.last announced.last
unfolding step connected announced
one_header = then_handled (header_arrived 0 false hdr) at_once tt ([], refl, omega arith) refl

joinable : can_join connected.last ≡ some (true, connected.last)
unfolding step connected can_join
joinable = refl

after_can_join-Meanwhile_example :
    Ensures
      (λ r.
        (0 < count 1 r.1.mgr.connection_list)
        × (length r.1.mgr.connection_list ≤ suc r.1.mgr.max_conn))
      (after_can_join 1 true true hdr announced.last)
after_can_join-Meanwhile_example =
    after_can_join-Meanwhile 1 hdr (Run-Sane connected) joinable one_header
