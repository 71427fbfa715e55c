-- ===== src/Example/Demo.antt =====
-- A session at the keyboard of the client of asio_wrapper_test.
use asio_tcp.Base.{ℕ, Bool, ltb}

-- The service runs for four words, of which one is a command, and the input has two.
abbrev runs : ℕ → Bool
runs k = ltb k 4
