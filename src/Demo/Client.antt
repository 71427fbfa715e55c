-- ===== src/Demo/Client.antt =====
-- asio_wrapper_test/asio_client/asio_client.cpp: a client that sends each word that is no command.
use asio_tcp.Base.{
  ℕ, zero, suc, ◌+◌, ◌%◌, Bool, true, false, Option, List, [], ◌∷◌, ◌++◌, String, if◌then◌else◌,
  ◌||◌,
}
use asio_tcp.Demo.{loop, first_word, other_words}
use text.Mathlib.Text.{◌==◌}

-- A call of st_asio_wrapper.
pub data Call : Type 0 where
  set_server_addr : ℕ → String → Call
  start_service : Call
  stop_service : Call
  graceful_close : Bool → Call
  suspend_send_msg : Bool → Call
  safe_send_msg : String → Call

abbrev pub client_port : ℕ
client_port = 9527

-- The body of the loop.
unfoldable pub client_command : String → List Call → List Call
client_command str cs =
    if str == "quit"
    then cs ++ stop_service ∷ []
    else if str == "restart"
    then (cs ++ stop_service ∷ []) ++ start_service ∷ []
    else if str == "reconnect"
    then cs ++ graceful_close true ∷ []
    else if str == "suspend"
    then cs ++ suspend_send_msg true ∷ []
    else if str == "resume"
    then cs ++ suspend_send_msg false ∷ []
    else cs ++ safe_send_msg str ∷ []

-- The address, by the arguments after the name of the program; `server_ip` is SERVER_IP.
unfoldable pub client_address : (atoi : String → ℕ) (server_ip : String) → List String → Call
client_address atoi server_ip [] = set_server_addr (client_port + 100) server_ip
client_address atoi server_ip (p ∷ []) = set_server_addr (atoi p % 65536) server_ip
client_address atoi server_ip (p ∷ ip ∷ rest) = set_server_addr (atoi p % 65536) ip

-- The texts that were sent.
abbrev pub sent : List Call → List String
sent [] = []
sent (safe_send_msg str ∷ cs) = str ∷ sent cs
sent (_ ∷ cs) = sent cs

abbrev is_command : String → Bool
is_command w = w == "quit" || w == "restart" || w == "reconnect" || w == "suspend" || w == "resume"

-- The words of the first `n` rounds that are no command; after the end of the input they are empty.
abbrev pub typed : ℕ → List String → List String
typed zero words = []
typed (suc n) words =
    let rest = typed n (other_words words) in
    if is_command (first_word words) then rest else first_word words ∷ rest

module _ (is_running : ℕ → Bool) where
  -- main, which only calls the library: `is_running k` is the answer of the pump at the k-th test.
  unfoldable pub client_main :
      (atoi : String → ℕ) (server_ip : String) (fuel : ℕ) (args words : List String)
      → Option (List Call)
  unfolding client_command client_address
  client_main atoi server_ip fuel args words =
      loop (λ k cs. is_running k) (λ k cs. cs) client_command fuel 0 words
        (client_address atoi server_ip args ∷ start_service ∷ [])
