-- ===== src/Client/Relay.antt =====
-- What a thread of asio_client/asio_client.cpp has written to its socket, on every path: a stage of
-- a round is described by what was written, what waits to be, and what the server still sends.
use asio_tcp.Base.{
  ℕ, zero, suc, ◌-◌, ◌≡◌, refl, sym, ap, ◌∙◌, false, Option, none, some, List, [], ◌++◌,
  append_assoc, length, take, drop, leb, ==_iff, length-take, arith, leb→le, take-length,
  Bool-cases, inl, inr, take-drop, Ensures,
}
use asio_tcp.Client.{
  Layout, Conn, Outcome, ok, thrown, aborted, ◌>>◌, write_all, count_up, receive_header,
  receive_body, announced_len, send_header, send_front, check_size, consume, round, rounds,
  request_header, at_connect, frame, send_request, run_connection, max_length, total_cnt,
}

module _ (total : List ℕ) where
  -- The first part of `total` was sent.
  abbrev pub Prefix : List ℕ → Type 0
  Prefix sent = (rest : List ℕ) × (sent ++ rest ≡ total)

  -- A step ends in `P`, or throws after a first part of `total`; its assertions hold.
  abbrev pub Within : (Conn → Type 0) → Outcome → Type 0
  Within P (ok c) = P c
  Within P (thrown c) = Prefix c.sent
  Within P aborted = ⊥

  abbrev pub Idle : Conn → Type 0
  Idle c = (c.sent ++ c.incoming ≡ total) × (c.buf ≡ [])

  pub record Triple (P : Conn → Type 0) (f : Conn → Outcome) (Q : Conn → Type 0) : Type 0 where
    pub run : (c : Conn) → P c → Within Q (f c)

  Within-elim :
      {P : Conn → Type 0} (Q : Conn → Type 0) (g : Conn → Outcome) (o : Outcome)
      → Within P o
      → ((c : Conn) → P c → Within Q (g c))
      → Within Q (elim o [ ok c ↦ g c | thrown c ↦ thrown c | aborted ↦ aborted ])
  Within-elim Q g (ok c) h k = k c h
  Within-elim Q g (thrown c) h k = h
  Within-elim Q g aborted h k = absurd h

  infixl 5 ◌⟫◌
  ◌⟫◌ :
      {P Q R : Conn → Type 0} {f g : Conn → Outcome}
      → Triple P f Q
      → Triple Q g R
      → Triple P (f >> g) R
  ◌⟫◌ {R = R} {f = f} {g = g} s t = record { run = λ c h. Within-elim R g (f c) (s.run c h) t.run }

  module _ ⦃layout : Layout⦄ (sends : ℕ → Option ℕ) where
    write_all-Within :
        (P : Conn → Type 0) (bytes more : List ℕ) (c : Conn)
        → c.sent ++ (bytes ++ more) ≡ total
        → P (record c { sent = c.sent ++ bytes; writes = suc c.writes })
        → Within P (write_all sends bytes c)
    unfolding write_all
    write_all-Within P bytes more c all p = by_sends (sends c.writes)
      where
        by_sends :
            (o : Option ℕ)
            → Within P (elim o [
              | none ↦ ok (record c { sent = c.sent ++ bytes; writes = suc c.writes })
              | some n ↦ thrown (record c { sent = c.sent ++ take n bytes; writes = suc c.writes })
            ])
        by_sends none = p
        by_sends (some n) = (
          drop n bytes ++ more,
          append_assoc (c.sent) (take n bytes) _
              ∙ ap (c.sent ++◌) (
                  sym (append_assoc (take n bytes) (drop n bytes) more)
                  ∙ ap (◌++ more) (take-drop n bytes))
              ∙ all,
        )

    -- The stages of a round.
    abbrev HeaderRead : Conn → Type 0
    HeaderRead c = (c.sent ++ (c.header_rcv ++ c.incoming) ≡ total) × (c.buf ≡ [])

    abbrev BodyRead : Conn → Type 0
    BodyRead c =
        (c.sent ++ (c.header_rcv ++ (c.buf ++ c.incoming)) ≡ total)
        × (length c.buf ≡ announced_len sends c)

    abbrev HeaderWritten : Conn → Type 0
    HeaderWritten c =
        (c.sent ++ (c.buf ++ c.incoming) ≡ total) × (length c.buf ≡ announced_len sends c)

    abbrev BodyWritten : Conn → Type 0
    BodyWritten c = c.sent ++ c.incoming ≡ total

    count_up-Within : Triple Idle (count_up sends) Idle
    unfolding count_up
    count_up-Within = record { run = λ c h. h }

    receive_header-Within : Triple Idle (receive_header sends) HeaderRead
    unfolding receive_header
    receive_header-Within = record {
      run = λ c h. elim (Bool-cases (leb layout.header_size (length c.incoming))) [
        | inl t ↦ rw (t) (ap (c.sent ++◌) (take-drop layout.header_size c.incoming) ∙ h.0, h.1)
        | inr t ↦ rw (t) (c.incoming, h.0)
      ];
    }

    receive_body-Within : Triple HeaderRead (receive_body sends) BodyRead
    unfolding receive_body
    receive_body-Within = record {
      run = λ c h. elim (Bool-cases (leb (announced_len sends c) (length c.incoming))) [
        | inl t ↦ rw (t) (
          ap (λ l. c.sent ++ (c.header_rcv ++ l))
                (ap
                    (λ l.
                      (l ++ take (announced_len sends c) c.incoming)
                      ++ drop (announced_len sends c) c.incoming)
                    h.1
                  ∙ take-drop (announced_len sends c) c.incoming)
              ∙ h.0,
          ap (λ l. length (l ++ take (announced_len sends c) c.incoming)) h.1
              ∙ length-take (announced_len sends c) c.incoming
              ∙ omega (arith, leb→le (announced_len sends c) (length c.incoming) t),
        )
        | inr t ↦ rw (t) (c.header_rcv ++ c.incoming, h.0)
      ];
    }

    send_header-Within : Triple BodyRead (send_header sends) HeaderWritten
    unfolding send_header
    send_header-Within = record {
      run = λ c h.
          write_all-Within HeaderWritten c.header_rcv (c.buf ++ c.incoming) c h.0
            (append_assoc c.sent c.header_rcv _ ∙ h.0, h.1);
    }

    -- The front of the stream buffer is all of it, so the assertion on its size holds.
    abbrev Checked : Conn → Type 0
    Checked c = BodyWritten c × (length c.buf ≡ announced_len sends c)

    all_of_buf :
        (c : Conn)
        → length c.buf ≡ announced_len sends c
        → take (announced_len sends c) c.buf ≡ c.buf
    all_of_buf c h = ap (λ n. take n c.buf) (sym h) ∙ take-length c.buf

    send_front-Within : Triple HeaderWritten (send_front sends) Checked
    unfolding send_front
    send_front-Within = record {
      run = λ c h.
          write_all-Within Checked (take (announced_len sends c) c.buf) c.incoming c
            (ap (λ l. c.sent ++ (l ++ c.incoming)) (all_of_buf c h.1) ∙ h.0)
            (
              append_assoc c.sent (take (announced_len sends c) c.buf) c.incoming
                  ∙ ap (λ l. c.sent ++ (l ++ c.incoming)) (all_of_buf c h.1)
                  ∙ h.0,
              h.1,
            );
    }

    check_size-Within : Triple Checked (check_size sends) BodyWritten
    unfolding check_size
    check_size-Within = record {
      run = λ c h. rw ((==_iff _ _).1 (ap length (all_of_buf c h.1) ∙ h.1)) h.0;
    }

    consume-Within : Triple BodyWritten (consume sends) Idle
    unfolding consume
    consume-Within = record { run = λ c h. (h, refl) }

    round-Within : Triple Idle (round sends) Idle
    unfolding round
    round-Within =
        count_up-Within
        ⟫ receive_header-Within
        ⟫ receive_body-Within
        ⟫ send_header-Within
        ⟫ (send_front-Within ⟫ check_size-Within)
        ⟫ consume-Within

    pub rounds-Within : (n : ℕ) → Triple Idle (rounds sends n) Idle
    unfolding rounds
    rounds-Within zero = round-Within
    rounds-Within (suc n) = round-Within ⟫ rounds-Within n

module _ ⦃layout : Layout⦄ (sends : ℕ → Option ℕ) (request incoming : List ℕ) where
  abbrev pub traffic : List ℕ
  traffic = frame sends request ++ incoming

  abbrev Fresh : Conn → Type 0
  Fresh c =
      (c.sent
          ++ (layout.to_bytes (request_header sends)
              ++ (take (max_length - layout.header_size) request ++ c.incoming))
        ≡ traffic)
      × (c.buf ≡ [])

  abbrev HeaderSent : Conn → Type 0
  HeaderSent c =
      (c.sent ++ (take (max_length - layout.header_size) request ++ c.incoming) ≡ traffic)
      × (c.buf ≡ [])

  first_header-Within :
      Triple traffic Fresh (write_all sends (layout.to_bytes (request_header sends))) HeaderSent
  first_header-Within = record {
    run = λ c h.
        write_all-Within traffic sends HeaderSent _ _ c h.0 (append_assoc c.sent _ _ ∙ h.0, h.1);
  }

  first_body-Within :
      Triple traffic HeaderSent
        (write_all sends (take (max_length - layout.header_size) request))
        (Idle traffic)
  first_body-Within = record {
    run = λ c h.
        write_all-Within traffic sends (Idle traffic) _ _ c h.0
          (append_assoc c.sent _ _ ∙ h.0, h.1);
  }

  -- Whatever the server sends, and wherever a write throws or a read throws or waits for ever: the
  -- assertions of a thread that is connected hold, and the bytes it has sent until then are a first
  -- part of its request followed by the bytes of the server; if it comes to its end, all that it took
  -- is sent back.
  pub run_connection-Within :
      Ensures (Within traffic (Idle traffic)) (run_connection sends false request incoming)
  unfolding run_connection send_request at_connect frame
  run_connection-Within =
      (◌⟫◌ traffic (◌⟫◌ traffic first_header-Within first_body-Within)
          (rounds-Within traffic sends total_cnt)).run
        (at_connect sends incoming)
        (sym (append_assoc (layout.to_bytes (request_header sends)) _ _), refl)
