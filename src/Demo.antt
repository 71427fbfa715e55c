-- ===== src/Demo.antt =====
-- The two demonstration programs of asio_wrapper_test (asio_server/asio_server.cpp and
-- asio_client/asio_client.cpp): a loop that reads words and gives commands to st_asio_wrapper. What
-- the programs call of that library is a parameter, and so is what its service does by itself
-- meanwhile, which may also stop it.
pub mod Server
pub mod Client
use asio_tcp.Base.{ℕ, zero, suc, Bool, Option, none, some, List, [], ◌∷◌, String, if◌then◌else◌}

-- std::cin >> str, on the words that are typed; at the end of the input the string is empty.
abbrev pub first_word : List String → String
first_word [] = ""
first_word (w ∷ ws) = w

abbrev pub other_words : List String → List String
other_words [] = []
other_words (w ∷ ws) = ws

-- `is_running k` is the answer at the k-th test, and `elapses k` what the service does between that
-- test and the k-th word.
module _ {S : Type 0} (is_running : ℕ → S → Bool) (elapses : ℕ → S → S)
    (command : String → S → S) where
  -- while (service_pump.is_running()) { std::cin >> str; … }, from the k-th test on, at most `fuel`
  -- tests long.
  unfoldable pub loop : (fuel k : ℕ) → List String → S → Option S
  loop zero k words s = none
  loop (suc fuel) k words s =
      let more = loop fuel (suc k) (other_words words) (command (first_word words) (elapses k s)) in
      if is_running k s then more else some s
