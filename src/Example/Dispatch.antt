-- ===== src/Example/Dispatch.antt =====
-- ioservice_dispatch_and_post (bind_function/bind_function.cpp) with a concrete io_service.
use asio_tcp.Base.{◌≡◌, refl, [], ◌∷◌, ◌++◌, count, count-append, List, ℕ, inl}
use asio_tcp.Strands.Dispatch.{IoService, dispatch_and_post, dispatch_and_post-calls}

-- A service that calls what is dispatched at once and what is posted in its order.
instance abbrev direct : IoService
direct = record {
  State = List ℕ × List ℕ;
  none_posted = ([], []);
  waiting = λ s. s.0;
  calls = λ s. s.1;
  post = λ k s. (k ∷ s.0, s.1);
  dispatch = λ k s. (s.0, s.1 ++ k ∷ []);
  run = λ s. ([], s.1 ++ s.0);
  none_waiting = refl;
  none_called = refl;
  calls-post = λ k s. refl;
  waiting-post = λ k s j. refl;
  dispatch-cases = λ k s. inl (refl, refl);
  waiting-run = λ s. refl;
  calls-run = λ s j. count-append j s.1 s.0;
}

dispatch_and_post-calls_example :
    (direct.waiting (direct.run (dispatch_and_post direct.none_posted)) ≡ [])
    × (count 7 (direct.calls (direct.run (dispatch_and_post direct.none_posted))) ≡ 1)
dispatch_and_post-calls_example = dispatch_and_post-calls 7
