-- ===== src/Strands/Bind.antt =====
-- TestBind of bind_function/bind_function.cpp, over boost::bind and boost::function as an interface. An
-- int stands as the natural number it is; a result that an int has no room for is undefined.
use asio_tcp.Base.{
  ℕ, ◌+◌, ◌*◌, ◌^◌, ◌≡◌, refl, ◌∙◌, Option, none, some, List, [], ◌∷◌, ◌++◌, map, ltb, arith, ◌>>=◌,
  if◌then◌else◌, String,
}

-- An argument of `bind`: one of the call to come, or a value.
pub data Arg : Type 0 where
  _1 : Arg
  _2 : Arg
  value : ℕ → Arg

-- What `bind` passes on, where the call has the arguments `a` and `b`.
abbrev pub passed : ℕ → ℕ → Arg → ℕ
passed a b _1 = a
passed a b _2 = b
passed a b (value n) = n

-- boost::bind on functions of lists of numbers; `call` is the call of what it returns.
pub record Bind : Type 1 where
  pub Bound : Type 0
  pub bind : (List ℕ → Option ℕ) → List Arg → Bound
  pub call : Bound → ℕ → ℕ → Option ℕ
  pub call-bind :
      (f : List ℕ → Option ℕ) (args : List Arg) (a b : ℕ)
      → call (bind f args) a b ≡ f (map (passed a b) args)

abbrev pub int : ℕ → Option ℕ
int n = if ltb n (2 ^ 31) then some n else none

-- Add_two, Add_Three and foo::test.
unfoldable pub add_two : ℕ → ℕ → Option ℕ
add_two a b = int (a + b)

unfoldable pub add_three : ℕ → ℕ → ℕ → Option ℕ
unfolding add_two
add_three a b c = add_two a b >>= λ d. add_two d c

unfoldable pub foo_test : ℕ → ℕ → Option ℕ
foo_test a b = int (a * b)

-- The functions on lists of arguments, as they are bound.
abbrev pub of_two : (ℕ → ℕ → Option ℕ) → List ℕ → Option ℕ
of_two f (a ∷ b ∷ []) = f a b
of_two f _ = none

abbrev pub of_three : (ℕ → ℕ → ℕ → Option ℕ) → List ℕ → Option ℕ
of_three f (a ∷ b ∷ c ∷ []) = f a b c
of_three f _ = none

-- A button has the handler that it calls: here a function on the lines printed so far.
pub record Button : Type 0 where
  pub m_handler : List String → List String

-- Player::Play and Player::Stop.
unfoldable pub play : List String → List String
play out = out ++ "play" ∷ []

unfoldable pub stop : List String → List String
stop out = out ++ "stop" ∷ []

-- What TestBind printed, and the numbers that its calls returned.
pub record Tried : Type 0 where
  pub output : List String
  pub numbers : List ℕ

module _ ⦃boost : Bind⦄ where
  unfoldable pub test_bind : Option Tried
  unfolding play stop
  test_bind = do
    let play_btn : Button = record { m_handler = play }
    let stop_btn : Button = record { m_handler = stop }
    five ← boost.call (boost.bind (of_two add_two) (_1 ∷ value 3 ∷ [])) 2 0
    six ← boost.call (boost.bind (of_three add_three) (_1 ∷ _2 ∷ value 3 ∷ [])) 1 2
    product ← boost.call (boost.bind (of_two foo_test) (_1 ∷ _2 ∷ [])) 1 six
    again ← boost.call (boost.bind (of_two foo_test) (_1 ∷ value 1 ∷ [])) six 0
    some (record {
      output = stop_btn.m_handler (play_btn.m_handler []);
      numbers = five ∷ six ∷ product ∷ again ∷ [];
    })

  test_bind-numbers :
      test_bind ≡ some (record { output = "play" ∷ "stop" ∷ []; numbers = 5 ∷ 6 ∷ 6 ∷ 6 ∷ [] })
  unfolding test_bind play stop add_two add_three foo_test
  test_bind-numbers =
      rw
        (
          boost.call-bind (of_two add_two) (_1 ∷ value 3 ∷ []) 2 0,
          boost.call-bind (of_three add_three) (_1 ∷ _2 ∷ value 3 ∷ []) 1 2,
          boost.call-bind (of_two foo_test) (_1 ∷ _2 ∷ []) 1 6,
          boost.call-bind (of_two foo_test) (_1 ∷ value 1 ∷ []) 6 0,
        )
        refl

  -- Add_Three, bound with its last argument as TestBind does, returns the sum exactly where an int has
  -- room for it.
  pub add_three-int :
      (a b c : ℕ)
      → boost.call (boost.bind (of_three add_three) (_1 ∷ _2 ∷ value c ∷ [])) a b ≡ int (a + b + c)
  unfolding add_two add_three
  add_three-int a b c =
      boost.call-bind (of_three add_three) (_1 ∷ _2 ∷ value c ∷ []) a b ∙ ground arith
