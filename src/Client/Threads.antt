-- ===== src/Client/Threads.antt =====
-- _tmain of asio_client/asio_client.cpp: twenty threads of RunConnection, which share nothing but the
-- console, are started and joined. What a thread prints last tells how it ended. A thread whose server
-- neither sends enough nor closes the connection waits for ever, and join_all with it; here each
-- server closes the connection in the end.
use asio_tcp.Base.{
  ℕ, zero, suc, ◌≡◌, ◌≢◌, ◌↔◌, refl, ap, ◌∙◌, Bool, true, false, Option, none, some, List, [], ◌∷◌,
  ◌++◌, length, Ensures, Bool-cases, inl, inr,
}
use asio_tcp.Client.{Layout, Conn, Outcome, ok, thrown, aborted, run_connection, total_cnt}
use asio_tcp.Client.Relay.{Within, Idle, traffic, run_connection-Within}
use asio_tcp.Client.Round.{Package, stream}
use asio_tcp.Client.Rounds.{Succeeds, run_connection-Served}

-- What a thread meets: which of its writes throw, whether it is refused, its text, and what the
-- server sends to it before it closes the connection.
pub record Setting : Type 0 where
  pub sends : ℕ → Option ℕ
  pub refused : Bool
  pub request : List ℕ
  pub incoming : List ℕ

-- The last line of a thread, or a failed assertion, which ends the program.
pub data Ending : Type 0 where
  connection_error : Ending
  exception : Ending
  exit : Ending
  asserted : Ending

unfoldable pub ending : Option Outcome → Ending
ending none = connection_error
ending (some (ok c)) = exit
ending (some (thrown c)) = exception
ending (some aborted) = asserted

-- One thread more, joined with the others.
unfoldable pub joined : Ending → Option (List Ending) → Option (List Ending)
joined asserted rest = none
joined connection_error rest = elim rest [ none ↦ none | some es ↦ some (connection_error ∷ es) ]
joined exception rest = elim rest [ none ↦ none | some es ↦ some (exception ∷ es) ]
joined exit rest = elim rest [ none ↦ none | some es ↦ some (exit ∷ es) ]

-- How a thread ends that was connected.
abbrev IsEnd : Ending → Type 0
IsEnd connection_error = ⊥
IsEnd exception = Unit {0}
IsEnd exit = Unit {0}
IsEnd asserted = ⊥

IsEnd-asserted : (e : Ending) → IsEnd e → e ≢ asserted
IsEnd-asserted e h same = rw same at h

IsEnd-connection_error : (e : Ending) → IsEnd e → e ≢ connection_error
IsEnd-connection_error e h same = rw same at h

by_outcome :
    (total : List ℕ) (o : Option Outcome) → Ensures (Within total (Idle total)) o → IsEnd (ending o)
unfolding ending
by_outcome total none h = h
by_outcome total (some (ok c)) h = tt
by_outcome total (some (thrown c)) h = tt
by_outcome total (some aborted) h = h

succeeded :
    ⦃layout : Layout⦄ (P : Conn → Type 0) (sends : ℕ → Option ℕ) (quiet : (k : ℕ) → sends k ≡ none)
    (o : Option Outcome)
    → Ensures (Succeeds sends quiet P) o
    → ending o ≡ exit
unfolding ending
succeeded P sends quiet none h = absurd h
succeeded P sends quiet (some (ok c)) h = refl
succeeded P sends quiet (some (thrown c)) h = absurd h
succeeded P sends quiet (some aborted) h = absurd h

joined-some : (e : Ending) (es : List Ending) → e ≢ asserted → joined e (some es) ≡ some (e ∷ es)
unfolding joined
joined-some connection_error es h = refl
joined-some exception es h = refl
joined-some exit es h = refl
joined-some asserted es h = absurd (h refl)

module _ ⦃layout : Layout⦄ (setting : ℕ → Setting) where
  unfoldable pub thread_ending : ℕ → Ending
  unfolding ending
  thread_ending num =
      let s = setting num in ending (run_connection s.sends s.refused s.request s.incoming)

  -- create_thread for `n` threads from `num` on, and join_all.
  unfoldable pub threads : ℕ → ℕ → Option (List Ending)
  unfolding joined thread_ending
  threads zero num = some []
  threads (suc n) num = joined (thread_ending num) (threads n (suc num))

  unfoldable pub client_tmain : Option (List Ending)
  unfolding threads
  client_tmain = threads 20 0

  abbrev pub endings : ℕ → ℕ → List Ending
  endings zero num = []
  endings (suc n) num = thread_ending num ∷ endings n (suc num)

  refused_ending :
      (s : Setting)
      → s.refused ≡ true
      → ending (run_connection s.sends s.refused s.request s.incoming) ≡ connection_error
  unfolding ending run_connection
  refused_ending s e = rw e refl

  connected_ending :
      (s : Setting)
      → s.refused ≡ false
      → IsEnd (ending (run_connection s.sends s.refused s.request s.incoming))
  connected_ending s e = rw e (
      by_outcome (traffic s.sends s.request s.incoming) _
        (run_connection-Within s.sends s.request s.incoming))

  served_ending :
      (s : Setting)
      → s.refused ≡ false
      → ((k : ℕ) → s.sends k ≡ none)
      → (ps : List Package) (more : List ℕ) → length ps ≡ suc total_cnt
      → s.incoming ≡ stream ps ++ more
      → ending (run_connection s.sends s.refused s.request s.incoming) ≡ exit
  served_ending s e quiet ps more all comes =
      rw (e, comes)
        (succeeded _ s.sends quiet _ (run_connection-Served s.sends quiet s.request ps more all))

  threads-endings :
      (n num : ℕ) → ((k : ℕ) → thread_ending k ≢ asserted) → threads n num ≡ some (endings n num)
  unfolding threads
  threads-endings zero num fine = refl
  threads-endings (suc n) num fine =
      ap (joined (thread_ending num)) (threads-endings n (suc num) fine)
      ∙ joined-some (thread_ending num) (endings n (suc num)) (fine num)

  -- A thread that is connected, whose writes do not throw and that is sent 101 packages, exits.
  pub served_thread-exit :
      (num : ℕ) (ps : List Package) (more : List ℕ)
      → (setting num).refused ≡ false
      → ((k : ℕ) → (setting num).sends k ≡ none)
      → length ps ≡ suc total_cnt
      → (setting num).incoming ≡ stream ps ++ more
      → thread_ending num ≡ exit
  unfolding thread_ending
  served_thread-exit num ps more e quiet all comes =
      served_ending (setting num) e quiet ps more all comes

  -- If each of the twenty servers closes its connection in the end, the program returns, whatever they
  -- send and whichever writes throw: no thread ends by a failed assertion, and one ends with a
  -- connection error exactly if it was refused.
  client_tmain-endings :
      (client_tmain ≡ some (endings 20 0))
      × ((num : ℕ) → thread_ending num ≢ asserted)
      × ((num : ℕ) → (thread_ending num ≡ connection_error) ↔ ((setting num).refused ≡ true))
  unfolding client_tmain thread_ending
  client_tmain-endings =
      (threads-endings 20 0 fine, fine, λ num. (not_refused num, refused_ending (setting num)))
    where
      fine : (k : ℕ) → thread_ending k ≢ asserted
      fine k e = elim (Bool-cases (setting k).refused) [
        | inl r ↦ cc (e, refused_ending (setting k) r)
        | inr c ↦ IsEnd-asserted _ (connected_ending (setting k) c) e
      ]

      not_refused : (num : ℕ) → thread_ending num ≡ connection_error → (setting num).refused ≡ true
      not_refused num e = elim (Bool-cases (setting num).refused) [
        | inl r ↦ r
        | inr c ↦ absurd (IsEnd-connection_error _ (connected_ending (setting num) c) e)
      ]
