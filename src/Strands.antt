-- ===== src/Strands.antt =====
-- ioservice_post (bind_function/bind_function.cpp): the handlers that it posts, and the strands that wrap
-- them. In which order the threads run them is asio's.
pub mod Bind
pub mod Dispatch
pub mod Timer
use asio_tcp.Base.{
  ℕ, zero, suc, ◌+◌, ◌*◌, ◌<◌, ◌≡◌, ◌≢◌, Bool, true, false, Option, none, some, List, [], ◌∷◌, ◌++◌,
  ltb, ◌==◌, if◌then◌else◌, update,
}

-- function_for_post with its argument, and the strand that wraps it.
pub record Job : Type 0 where
  pub strand : Option ℕ
  pub arg : ℕ

-- The branches of the loop of ioservice_post.
unfoldable pub job : ℕ → Job
job i =
    if ltb i 3
    then record { strand = some 1; arg = i }
    else if ltb i 6
    then record { strand = some 2; arg = i }
    else record { strand = none; arg = i }

-- The loop from `i` on, for `n` rounds.
unfoldable pub posts : ℕ → ℕ → List Job
unfolding job
posts zero i = []
posts (suc n) i = job i ∷ posts n (suc i)
