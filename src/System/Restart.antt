-- ===== src/System/Restart.antt =====
-- `stop` and then `start` (asio_test/asio_test.cpp).
use asio_tcp.Base.{ℕ, Bool}
use asio_tcp.Ring.{CircularBuffer}
use asio_tcp.Message.{Hdr}
use asio_tcp.World.{M, ◌>>◌}
use asio_tcp.Server.{start_server, stop_server}

module _ ⦃cb : CircularBuffer⦄ where
  -- The server is stopped and started again; `binds` says that the acceptor can listen again.
  unfoldable pub restart : (ℕ → Bool) → Bool → Hdr → M (Unit {0})
  restart refuses binds h = stop_server refuses >> start_server binds h
