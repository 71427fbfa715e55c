-- ===== src/Strands/Timer.antt =====
-- Timer_sync and timer_asyc of bind_function/bind_function.cpp, over an io_service with its deadline
-- timers as an interface.
use asio_tcp.Base.{ℕ, ◌≡◌, ap, ◌∙◌, List, [], ◌∷◌, ◌++◌, String}

pub record TimerService : Type 1 where
  pub ErrorCode : Type 0
  pub State : Type 0
  pub lines : State → List String
  pub waiting : State → List (ErrorCode → State → State)
  pub print : String → State → State
  pub wait : (seconds : ℕ) → State → State
  pub async_wait : (seconds : ℕ) → (ErrorCode → State → State) → State → State
  pub run : State → State
  pub lines-print : (l : String) (s : State) → lines (print l s) ≡ lines s ++ l ∷ []
  pub waiting-print : (l : String) (s : State) → waiting (print l s) ≡ waiting s
  pub lines-wait : (n : ℕ) (s : State) → lines (wait n s) ≡ lines s
  pub lines-async_wait :
      (n : ℕ) (h : ErrorCode → State → State) (s : State) → lines (async_wait n h s) ≡ lines s
  pub waiting-async_wait :
      (n : ℕ) (h : ErrorCode → State → State) (s : State)
      → waiting (async_wait n h s) ≡ waiting s ++ h ∷ []
  pub run-one :
      (h : ErrorCode → State → State) (s : State)
      → waiting s ≡ h ∷ []
      → (error : ErrorCode) × (t : State) × (lines t ≡ lines s) × (run s ≡ h error t)

module _ ⦃ios : TimerService⦄ where
  unfoldable pub timer_sync : ios.State → ios.State
  timer_sync s =
      ios.print "Hello World After Timer(5 seconds)!" (ios.wait 5 (ios.print "Before Timer!" s))

  -- The error is not looked at: a timer that is cancelled prints as well.
  unfoldable pub timer_handler_asycwait : ios.ErrorCode → ios.State → ios.State
  timer_handler_asycwait error s = ios.print "Hello World After Timer(5 seconds)!" s

  unfoldable pub timer_asyc : ios.State → ios.State
  timer_asyc s = ios.run (
      ios.print "This is in asyc mode!"
        (ios.async_wait 5 timer_handler_asycwait (ios.print "Before Timer!" s)))

  -- Where no handler waits, both print their last line last, and the asynchronous one goes on before
  -- that; the error with which its wait ends makes no difference.
  pub timers-lines :
      (s : ios.State)
      → ios.waiting s ≡ []
      → (ios.lines (timer_sync s)
          ≡ (ios.lines s ++ "Before Timer!" ∷ []) ++ "Hello World After Timer(5 seconds)!" ∷ [])
        × (ios.lines (timer_asyc s)
            ≡ ((ios.lines s ++ "Before Timer!" ∷ []) ++ "This is in asyc mode!" ∷ [])
              ++ "Hello World After Timer(5 seconds)!" ∷ [])
  unfolding timer_sync timer_asyc timer_handler_asycwait
  timers-lines s none_waiting = (
    ios.lines-print _ _
        ∙ ap (◌++ "Hello World After Timer(5 seconds)!" ∷ [])
            (ios.lines-wait 5 _ ∙ ios.lines-print _ s),
    (let (error, t, same, ran) = ios.run-one timer_handler_asycwait started only in
        ap ios.lines ran
        ∙ ios.lines-print _ t
        ∙ ap (◌++ "Hello World After Timer(5 seconds)!" ∷ []) (
            same
            ∙ ios.lines-print _ _
            ∙ ap (◌++ "This is in asyc mode!" ∷ [])
                (ios.lines-async_wait 5 _ _ ∙ ios.lines-print _ s))),
  )
    where
      started : ios.State
      started =
          ios.print "This is in asyc mode!"
            (ios.async_wait 5 timer_handler_asycwait (ios.print "Before Timer!" s))

      only : ios.waiting started ≡ timer_handler_asycwait ∷ []
      only =
          ios.waiting-print _ _
          ∙ ios.waiting-async_wait 5 timer_handler_asycwait _
          ∙ ap (◌++ timer_handler_asycwait ∷ []) (ios.waiting-print _ s ∙ none_waiting)
