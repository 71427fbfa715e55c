-- ===== src/Demo/Server.antt =====
-- asio_wrapper_test/asio_server/asio_server.cpp: an echo server and a normal server, whose port is
-- larger by 100, on one service pump; a word that is no command goes to all clients of the latter.
use asio_tcp.Base.{
  ℕ, ◌+◌, ◌%◌, Bool, true, false, Option, none, some, List, [], ◌∷◌, ◌++◌, String, codes,
  if◌then◌else◌, map,
}
use asio_tcp.Demo.{loop}
use text.Mathlib.Text.{◌==◌}

pub data Which : Type 0 where
  normal : Which
  echo : Which

-- The calls of st_asio_wrapper. `list_all` is what list_all_object prints.
pub record Library : Type 1 where
  pub Pump : Type 0
  pub start_service : ℕ → Pump → Pump
  pub stop_service : Pump → Pump
  pub set_server_addr : Which → ℕ → Option String → Pump → Pump
  pub size : Which → Pump → ℕ
  pub closed_object_size : Which → Pump → ℕ
  pub list_all : Which → Pump → List String
  pub suspend_dispatch_msg : Bool → Pump → Pump
  pub pack_msg : List ℕ → List ℕ
  pub direct_send_msg : List ℕ → Pump → Pump
  pub ErrorCode : Type 0
  pub inner_packer : Pump → Pump
  pub reset : Pump → Pump
  pub on_recv_error : ErrorCode → Pump → Pump
  pub post_msg : List ℕ → Pump → Bool × Pump
  pub send_msg : List ℕ → Pump → Bool × Pump

-- A line of the output; `links` has the numbers of the links and of the closed ones.
pub data Line : Type 0 where
  puts : String → Line
  links : String → ℕ → ℕ → Line

abbrev pub server_port : ℕ
server_port = 9527

-- A port is an unsigned short.
abbrev pub port : ℕ → ℕ
port n = n % 65536

module _ ⦃lib : Library⦄ where
  pub record Console : Type 0 where
    pub pump : lib.Pump
    pub output : List Line

  abbrev on_pump : (lib.Pump → lib.Pump) → Console → Console
  on_pump f s = record s { pump = f s.pump }

  abbrev print : List Line → Console → Console
  print ls s = record s { output = s.output ++ ls }

  -- echo_server::test, which only the i_echo_server of the sockets is asked for.
  unfoldable pub test : lib.Pump → lib.Pump
  test s = s

  -- echo_socket::echo_socket: the packer is the global one.
  unfoldable pub new_echo_socket : lib.Pump → lib.Pump
  new_echo_socket s = lib.inner_packer s

  unfoldable pub reset_echo_socket : lib.Pump → lib.Pump
  reset_echo_socket s = lib.reset s

  unfoldable pub on_recv_error : lib.ErrorCode → lib.Pump → lib.Pump
  unfolding test
  on_recv_error ec s = lib.on_recv_error ec (test s)

  -- echo_socket::on_msg and on_msg_handle: the message goes back.
  unfoldable pub on_msg : List ℕ → lib.Pump → Bool × lib.Pump
  on_msg msg s = lib.post_msg msg s

  unfoldable pub on_msg_handle : List ℕ → Bool → lib.Pump → Bool × lib.Pump
  on_msg_handle msg link_down s = lib.send_msg msg s

  unfoldable pub status_lines : lib.Pump → List Line
  status_lines s =
      links "normal server" (lib.size normal s) (lib.closed_object_size normal s)
      ∷ links "echo server" (lib.size echo s) (lib.closed_object_size echo s)
      ∷ []

  unfoldable pub client_lines : lib.Pump → List Line
  client_lines s =
      puts "clients from normal server:" ∷ map puts (lib.list_all normal s)
      ++ puts "clients from echo server:" ∷ map puts (lib.list_all echo s)

  abbrev pub is_empty : List ℕ → Bool
  is_empty [] = true
  is_empty (x ∷ xs) = false

  -- A text goes out with its terminating zero, packed once for all clients.
  unfoldable pub broadcast : String → lib.Pump → lib.Pump
  broadcast str s =
      let msg = lib.pack_msg (codes str ++ 0 ∷ []) in
      if is_empty msg then s else lib.direct_send_msg msg s

  -- The body of the loop.
  unfoldable pub server_command : String → Console → Console
  unfolding status_lines client_lines broadcast
  server_command str s =
      if str == "quit"
      then on_pump lib.stop_service s
      else if str == "restart"
      then on_pump (λ p. lib.start_service 1 (lib.stop_service p)) s
      else if str == "status"
      then print (status_lines s.pump) s
      else if str == "suspend"
      then on_pump (lib.suspend_dispatch_msg true) s
      else if str == "resume"
      then on_pump (lib.suspend_dispatch_msg false) s
      else if str == "list_all_client"
      then print (client_lines s.pump) s
      else on_pump (broadcast str) s

  -- The addresses, by the arguments after the name of the program.
  unfoldable pub set_addresses : (atoi : String → ℕ) → List String → lib.Pump → lib.Pump
  set_addresses atoi [] s = lib.set_server_addr normal (port (server_port + 100)) none s
  set_addresses atoi (p ∷ []) s =
      lib.set_server_addr echo (port (atoi p)) none
        (lib.set_server_addr normal (port (atoi p + 100)) none s)
  set_addresses atoi (p ∷ ip ∷ rest) s =
      lib.set_server_addr echo (port (atoi p)) (some ip)
        (lib.set_server_addr normal (port (atoi p + 100)) (some ip) s)

  abbrev usage : List Line
  usage =
      puts "usage: asio_server [<port=9527> [ip=0.0.0.0]]"
      ∷ puts "normal server's port will be 100 larger."
      ∷ puts "type quit to end."
      ∷ []

  -- _tmain; `is_running` and `elapses` are what the library does with the pump by itself.
  unfoldable pub server_main :
      (is_running : ℕ → lib.Pump → Bool) (elapses : ℕ → lib.Pump → lib.Pump) (atoi : String → ℕ)
      (fuel : ℕ) (args words : List String)
      → lib.Pump
      → Option Console
  unfolding server_command set_addresses
  server_main is_running elapses atoi fuel args words s =
      loop (λ k c. is_running k c.pump) (λ k c. on_pump (elapses k) c) server_command fuel 0 words
        (record { pump = lib.start_service 1 (set_addresses atoi args s); output = usage })
