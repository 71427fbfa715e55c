-- ===== src/Ping/Pinger/Life.antt =====
-- The states that a pinger of bind_function/ping.cpp reaches.
use asio_tcp.Base.{
  ℕ, suc, ◌+◌, ◌%◌, ◌≤◌, ◌<◌, ◌≡◌, refl, sym, ap, ◌∙◌, Bool, true, false, List, [], ◌∷◌, ◌++◌,
  length, length-append, arith, update, ltb, if◌then◌else◌, ◌==◌, dec_lt, ℕ_discrete,
}
use asio_tcp.Ping.Stream.{Stream}
use asio_tcp.Ping.Icmp.{
  IcmpHeader, new_icmp_header, set_type, set_code, set_identifier, set_sequence_number, uint16,
}
use asio_tcp.Ping.Icmp.Checksum.{AreBytes, sum_words, compute_checksum-sum_words}
use asio_tcp.Ping.Ipv4.{Ipv4Header, new_ipv4_header, extract}
use asio_tcp.Ping.Pinger.{
  Wait, for_timeout, for_send, Line, timed_out, reply, Pinger, request_body, request, start_send,
  handle_timeout, start_receive, is_reply, take_reply, consider, handle_receive, new_pinger, Step,
  timeout, send, receive, Reach, begin, more, extract_icmp,
}

all_below : List ℕ → Bool
all_below [] = true
all_below (x ∷ xs) = if ltb x 256 then all_below xs else false

all_below→AreBytes : (xs : List ℕ) → all_below xs ≡ true → AreBytes xs
unfolding all_below
all_below→AreBytes [] h = tt
all_below→AreBytes (x ∷ xs) h = elim (dec_lt x 256) [
  | yes small ↦ (small, all_below→AreBytes xs (ground (arith, h, small)))
  | no large ↦ absurd (ground (arith, h, large))
]

-- A receiver accepts the checksum.
abbrev pub IsValid : List ℕ → Type 0
IsValid packet = sum_words packet % 65535 ≡ 0

abbrev pub AllValid : List (List ℕ) → Type 0
AllValid [] = Unit {0}
AllValid (x ∷ xs) = IsValid x × AllValid xs

AllValid-append :
    (xs : List (List ℕ)) (x : List ℕ) → AllValid xs → IsValid x → AllValid (xs ++ x ∷ [])
AllValid-append [] x h k = (k, tt)
AllValid-append (y ∷ ys) x h k = (h.0, AllValid-append ys x h.1 k)

-- The lines that say that the time was up.
abbrev pub misses : List Line → ℕ
misses [] = 0
misses (timed_out ∷ ls) = 1 + misses ls
misses (reply a b c ∷ ls) = misses ls

misses-append : (ls ms : List Line) → misses (ls ++ ms) ≡ misses ls + misses ms
misses-append [] ms = omega arith
misses-append (timed_out ∷ ls) ms = omega (arith, misses-append ls ms)
misses-append (reply a b c ∷ ls) ms = misses-append ls ms

abbrev pub waiting : List Wait → ℕ
waiting [] = 0
waiting (for_timeout ∷ ws) = 1 + waiting ws
waiting (for_send ∷ ws) = waiting ws

update_below :
    (f : ℕ → ℕ) (i a : ℕ) → a < 256 → ((k : ℕ) → f k < 256) → (k : ℕ) → update f i a k < 256
update_below f i a small below k = elim (ℕ_discrete i k) [
  | yes same ↦ ground (arith, small)
  | no other ↦ ground (arith, below k)
]

module _ (process : ℕ) where
  request-IsValid : (number : ℕ) → IsValid (request process number)
  unfolding request set_sequence_number set_identifier set_code set_type new_icmp_header all_below
  request-IsValid number =
      compute_checksum-sum_words _ request_body
        (update_below _ 7 _ (omega arith) (
          update_below _ 6 _ (omega arith) (
            update_below _ 5 _ (omega arith) (
              update_below _ 4 _ (omega arith) (
                update_below _ 1 _ (omega arith)
                  (update_below (λ k. 0) 0 _ (omega arith) (λ k. omega arith)))))))
        (all_below→AreBytes request_body refl) (omega arith)

  -- What is counted, sent and printed.
  pub record Accounts (p : Pinger) : Type 0 where
    pub counted : p.sequence_number ≡ length p.sent % 65536
    pub valid : AllValid p.sent
    pub missed : misses p.output + waiting p.waits ≤ length p.sent

  pub record Sound (p : Pinger) : Type 0 where
    pub one_wait : length p.waits ≡ 1
    pub one_receive : p.receives ≡ 1
    pub accounts : Accounts p

  start_send-Accounts : (p : Pinger) → p.waits ≡ [] → Accounts p → Accounts (start_send process p)
  unfolding start_send
  start_send-Accounts p e a = record {
    counted = omega (
      arith,
      a.counted,
      length-append (p.sent) (request process (uint16 (p.sequence_number + 1)) ∷ []),
    );
    valid = AllValid-append (p.sent) _ a.valid (request-IsValid (uint16 (p.sequence_number + 1)));
    missed = omega (
      arith,
      a.missed,
      ap waiting e,
      ap (λ ws. waiting (ws ++ for_timeout ∷ [])) e,
      length-append (p.sent) (request process (uint16 (p.sequence_number + 1)) ∷ []),
    );
  }

  only : (w : Wait) (ws : List Wait) → length (w ∷ ws) ≡ 1 → ws ≡ []
  only w [] h = refl
  only w (x ∷ ws) h = absurd (omega (arith, h))

  alone : (p : Pinger) (w : Wait) (ws : List Wait) → p.waits ≡ w ∷ ws → Sound p → ws ≡ []
  alone p w ws e s = only w ws (sym (ap length e) ∙ s.one_wait)

  said :
      (b : Bool) (ls : List Line) → misses (if b then ls ++ timed_out ∷ [] else ls) ≤ misses ls + 1
  said true ls = omega (arith, misses-append ls (timed_out ∷ []))
  said false ls = omega arith

  timeout-Sound :
      (p : Pinger) (ws : List Wait)
      → p.waits ≡ for_timeout ∷ ws
      → Sound p
      → Sound (handle_timeout process (record p { waits = ws }))
  unfolding handle_timeout
  timeout-Sound p ws e s = record {
    one_wait = ap (λ l. length (l ++ for_send ∷ [])) (alone p for_timeout ws e s);
    one_receive = s.one_receive;
    accounts = record {
      counted = s.accounts.counted;
      valid = s.accounts.valid;
      missed = omega (
        arith,
        s.accounts.missed,
        ap waiting e,
        ap (λ l. waiting (l ++ for_send ∷ [])) (alone p for_timeout ws e s),
        said (p.num_replies == 0) (p.output),
      );
    };
  }

  send-Sound :
      (p : Pinger) (ws : List Wait)
      → p.waits ≡ for_send ∷ ws
      → Sound p
      → Sound (start_send process (record p { waits = ws }))
  unfolding start_send
  send-Sound p ws e s = record {
    one_wait = ap (λ l. length (l ++ for_timeout ∷ [])) (alone p for_send ws e s);
    one_receive = s.one_receive;
    accounts =
        start_send-Accounts (record p { waits = ws }) (alone p for_send ws e s)
          (record {
            counted = s.accounts.counted;
            valid = s.accounts.valid;
            missed = omega (arith, s.accounts.missed, ap waiting e);
          });
  }

  take_reply-Accounts :
      (b : Bool) (ipv4 : Ipv4Header) (icmp : IcmpHeader) (p : Pinger)
      → Accounts p
      → Accounts (if b then take_reply process ipv4 icmp p else p)
  unfolding take_reply
  take_reply-Accounts false ipv4 icmp p a = a
  take_reply-Accounts true ipv4 icmp p a = record {
    counted = a.counted;
    valid = a.valid;
    missed = omega (arith, a.missed, misses-append (p.output) (reply _ _ _ ∷ []));
  }

  take_reply-waits :
      (b : Bool) (ipv4 : Ipv4Header) (icmp : IcmpHeader) (p : Pinger)
      → let q = if b then take_reply process ipv4 icmp p else p in
        (q.waits ≡ p.waits) × (q.receives ≡ p.receives)
  unfolding take_reply
  take_reply-waits false ipv4 icmp p = (refl, refl)
  take_reply-waits true ipv4 icmp p = (refl, refl)

  consider-Sound :
      (r : Ipv4Header × Stream) (p : Pinger)
      → length p.waits ≡ 1
      → p.receives ≡ 0
      → Accounts p
      → Sound (start_receive process (consider process r p))
  unfolding start_receive consider
  consider-Sound r p one none_left a = record {
    one_wait = ap length (take_reply-waits _ (r.0) (extract_icmp r.1 new_icmp_header).0 p).0 ∙ one;
    one_receive =
        ap suc ((take_reply-waits _ (r.0) (extract_icmp r.1 new_icmp_header).0 p).1 ∙ none_left);
    accounts =
        let b = take_reply-Accounts (is_reply process _ _ p) (r.0) _ p a in
        record { counted = b.counted; valid = b.valid; missed = b.missed };
  }

  Step-Sound : {p q : Pinger} → Step process p q → Sound p → Sound q
  unfolding handle_receive
  Step-Sound {p = p} (timeout ws e) s = timeout-Sound p ws e s
  Step-Sound {p = p} (send ws e) s = send-Sound p ws e s
  Step-Sound {p = p} (receive n bytes e) s =
      consider-Sound (extract (record { bytes = bytes; good = true }) new_ipv4_header)
        (record p { receives = n }) s.one_wait (omega (arith, e, s.one_receive))
        (record {
          counted = s.accounts.counted;
          valid = s.accounts.valid;
          missed = s.accounts.missed;
        })

  -- In every state that a pinger reaches there is one wait of its timer and one receive, its sequence
  -- number is the number of the requests it sent, modulo 2 ^ 16, a receiver accepts the checksum of
  -- each of them, and the lines which say that the time was up are at most as many as the requests,
  -- less one while the time of the last is not up.
  pub Reach-Sound : {p : Pinger} → Reach process p → Sound p
  unfolding new_pinger start_receive start_send
  Reach-Sound begin = record {
    one_wait = refl;
    one_receive = refl;
    accounts = record { counted = refl; valid = (request-IsValid 1, tt); missed = omega arith };
  }
  Reach-Sound (more r s) = Step-Sound s (Reach-Sound r)
