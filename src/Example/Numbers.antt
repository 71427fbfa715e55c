-- ===== src/Example/Numbers.antt =====
-- The first client of _tmain (asio_test) is found by its number.
use asio_tcp.Base.{◌≡◌, refl, some, arith}
use asio_tcp.Manager.{find}
use asio_tcp.System.Numbers.Run.{accepted_since, Main-find}
use asio_tcp.Example.Ring.{list_buffer}
use asio_tcp.Example.Main.{one_client}
use asio_tcp.Example.Trace.{connected}

one_accepted : accepted_since one_client ≡ 1
unfolding accepted_since one_client
one_accepted = refl

Main-find_example :
    find (connected.last.session 0).client_id connected.last ≡ some (some 0, connected.last)
unfolding connected
Main-find_example = Main-find one_client (omega (arith, one_accepted)) 0 (omega arith)

-- Its number is 1.
first_number : (connected.last.session 0).client_id ≡ 1
unfolding connected
first_number = refl
