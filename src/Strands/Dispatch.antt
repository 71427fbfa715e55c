-- ===== src/Strands/Dispatch.antt =====
-- ioservice_dispatch_and_post (bind_function/bind_function.cpp), which a thread of an io_service calls.
-- The io_service is an interface: a handler is function_for_post with its argument.
use asio_tcp.Base.{
  ℕ, zero, suc, ◌+◌, ◌*◌, ◌≡◌, ap, ◌∙◌, ◌⊎◌, inl, inr, List, [], ◌∷◌, ◌++◌, count, count-append,
  if◌then◌else◌, ltb, arith,
}

-- What asio documents: a handler that is posted waits; one that is dispatched in a thread of the
-- service is called at once or waits; `run` returns when it has called all that waited, in any order.
pub record IoService : Type 1 where
  pub State : Type 0
  pub none_posted : State
  pub waiting : State → List ℕ
  pub calls : State → List ℕ
  pub post : ℕ → State → State
  pub dispatch : ℕ → State → State
  pub run : State → State
  pub none_waiting : waiting none_posted ≡ []
  pub none_called : calls none_posted ≡ []
  pub calls-post : (k : ℕ) (s : State) → calls (post k s) ≡ calls s
  pub waiting-post :
      (k : ℕ) (s : State) (j : ℕ) → count j (waiting (post k s)) ≡ count j (k ∷ waiting s)
  pub dispatch-cases :
      (k : ℕ) (s : State)
      → ((calls (dispatch k s) ≡ calls s ++ k ∷ []) × (waiting (dispatch k s) ≡ waiting s))
        ⊎ ((calls (dispatch k s) ≡ calls s)
            × ((j : ℕ) → count j (waiting (dispatch k s)) ≡ count j (k ∷ waiting s)))
  pub waiting-run : (s : State) → waiting (run s) ≡ []
  pub calls-run :
      (s : State) (j : ℕ) → count j (calls (run s)) ≡ count j (calls s) + count j (waiting s)

module _ ⦃ios : IoService⦄ where
  -- The loop from `i` on, for `n` rounds.
  unfoldable pub dispatches : ℕ → ℕ → ios.State → ios.State
  dispatches zero i s = s
  dispatches (suc n) i s = dispatches n (suc i) (ios.post (2 * i + 1) (ios.dispatch (2 * i) s))

  unfoldable pub dispatch_and_post : ios.State → ios.State
  unfolding dispatches
  dispatch_and_post s = dispatches 5 0 s

  -- How often a handler was called or waits.
  abbrev pub times : ℕ → ios.State → ℕ
  times j s = count j (ios.calls s) + count j (ios.waiting s)

  times-post : (j k : ℕ) (s : ios.State) → times j (ios.post k s) ≡ times j s + count j (k ∷ [])
  times-post j k s = omega (arith, ap (count j) (ios.calls-post k s), ios.waiting-post k s j)

  times-dispatch :
      (j k : ℕ) (s : ios.State) → times j (ios.dispatch k s) ≡ times j s + count j (k ∷ [])
  times-dispatch j k s = elim (ios.dispatch-cases k s) [
    | inl (c, w) ↦
        omega (arith, ap (count j) c, ap (count j) w, count-append j (ios.calls s) (k ∷ []))
    | inr (c, w) ↦ omega (arith, ap (count j) c, w j)
  ]

  -- One round hands over its two handlers.
  times-round :
      (j i : ℕ) (s : ios.State)
      → times j (ios.post (2 * i + 1) (ios.dispatch (2 * i) s))
        ≡ times j s + count j (2 * i ∷ (2 * i + 1) ∷ [])
  times-round j i s =
      omega (arith, times-post j (2 * i + 1) (ios.dispatch (2 * i) s), times-dispatch j (2 * i) s)

  -- One for the numbers that the rounds from `i` on hand over.
  abbrev once : ℕ → ℕ → ℕ → ℕ
  once j n i = if ltb j (2 * i) then 0 else if ltb j (2 * i + 2 * n) then 1 else 0

  times-dispatches :
      (j n i : ℕ) (s : ios.State) → times j (dispatches n i s) ≡ times j s + once j n i
  unfolding dispatches
  times-dispatches j zero i s = ground arith
  times-dispatches j (suc n) i s =
      let t = ios.post (2 * i + 1) (ios.dispatch (2 * i) s) in
      times-dispatches j n (suc i) t ∙ ground (arith, times-round j i s)

  -- When the service has run after ioservice_dispatch_and_post, however it treats what is dispatched
  -- and in whatever order it calls what waits: each argument from 0 to 9 was passed exactly once, no
  -- other was, and nothing waits.
  pub dispatch_and_post-calls :
      (j : ℕ)
      → (ios.waiting (ios.run (dispatch_and_post ios.none_posted)) ≡ [])
        × (count j (ios.calls (ios.run (dispatch_and_post ios.none_posted)))
            ≡ (if ltb j 10 then 1 else 0))
  unfolding dispatch_and_post
  dispatch_and_post-calls j = (
    ios.waiting-run _,
    ground (
      arith,
      ios.calls-run (dispatches 5 0 ios.none_posted) j,
      times-dispatches j 5 0 ios.none_posted,
      ap (count j) ios.none_called,
      ap (count j) ios.none_waiting,
    ),
  )
