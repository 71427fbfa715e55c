-- ===== src/Client/Rounds.antt =====
-- The loop of RunConnection (asio_client/asio_client.cpp) against a server that sends packages whose
-- headers tell the length of their bodies, over a connection whose writes do not throw.
use asio_tcp.Base.{
  ℕ, zero, suc, ◌-◌, ◌+◌, ◌≡◌, refl, sym, ap, ◌∙◌, false, Option, none, List, [], ◌∷◌, ◌++◌,
  append_assoc, append-nil, subst, length, take, arith, Ensures,
}
use asio_tcp.Client.Round.{Package, next, stream, after, facing, write_lem, round_lem}
use asio_tcp.Client.{
  Layout, Conn, Outcome, ok, thrown, aborted, write_all, round, rounds, at_connect, frame,
  send_request, run_connection, request_header, max_length, total_cnt,
}

module _ ⦃layout : Layout⦄ where
  module _ (sends : ℕ → Option ℕ) (quiet : (k : ℕ) → sends k ≡ none) where
    -- The thread after `n` rounds.
    abbrev pub Served : Conn → ℕ → List Package → List ℕ → Conn → Type 0
    Served c n ps more c' =
        (c'.incoming ≡ more)
        × (c'.sent ≡ c.sent ++ stream ps)
        × (c'.pack_cnt ≡ c.pack_cnt + n)
        × (c'.header.pack_num ≡ c.header.pack_num + n)
        × (c'.buf ≡ [])
        × (c'.writes ≡ c.writes + (n + n))

    abbrev pub Succeeds : (Conn → Type 0) → Outcome → Type 0
    Succeeds P (ok c) = P c
    Succeeds P (thrown c) = ⊥
    Succeeds P aborted = ⊥

    pub Succeeds-mono :
        (P Q : Conn → Type 0)
        → ((c : Conn) → P c → Q c)
        → (o : Outcome) → Succeeds P o
        → Succeeds Q o
    Succeeds-mono P Q f (ok c) h = f c h
    Succeeds-mono P Q f (thrown c) h = absurd h
    Succeeds-mono P Q f aborted h = absurd h

    -- One package more, in front.
    one_more :
        (p : Package) (ps : List Package) (rest more : List ℕ) (n : ℕ) (c c' : Conn)
        → Served (after p rest c) n ps more c'
        → Served c (suc n) (p ∷ ps) more c'
    one_more p ps rest more n c c' (left, sent, packs, num, buf, writes) = (
      left,
      sent
          ∙ append_assoc (c.sent ++ layout.to_bytes p.head) p.content (stream ps)
          ∙ append_assoc c.sent (layout.to_bytes p.head) (p.content ++ stream ps),
      omega (arith, packs),
      omega (arith, num),
      buf,
      omega (arith, writes),
    )

    stream_cons :
        (p : Package) (ps : List Package) (more : List ℕ)
        → stream (p ∷ ps) ++ more ≡ layout.to_bytes p.head ++ (p.content ++ (stream ps ++ more))
    stream_cons p ps more =
        append_assoc (layout.to_bytes p.head) (p.content ++ stream ps) more
        ∙ ap (layout.to_bytes p.head ++◌) (append_assoc p.content (stream ps) more)

    pub rounds-Served :
        (n : ℕ) (ps : List Package) (more : List ℕ) (c : Conn)
        → length ps ≡ suc n
        → Succeeds (Served c (suc n) ps more) (rounds sends n (facing (stream ps ++ more) c))
    unfolding rounds
    rounds-Served n [] more c e = absurd (omega (arith, e))
    rounds-Served zero (p ∷ q ∷ ps) more c e = absurd (omega (arith, e))
    rounds-Served zero (p ∷ []) more c e =
        subst (Succeeds (Served c 1 (p ∷ []) more))
          (sym (
            ap (λ s. round sends (facing s c)) (stream_cons p [] more)
            ∙ round_lem sends quiet p more c))
          (one_more p [] more more 0 c (after p more c)
            (refl, sym (append-nil _), omega arith, omega arith, refl, omega arith))
    rounds-Served (suc n) (p ∷ ps) more c e =
        subst (Succeeds (Served c (suc (suc n)) (p ∷ ps) more))
          (sym (
            next (rounds sends n)
              (ap (λ s. round sends (facing s c)) (stream_cons p ps more)
                ∙ round_lem sends quiet p (stream ps ++ more) c)
              refl))
          (Succeeds-mono (Served (after p (stream ps ++ more) c) (suc n) ps more)
            (Served c (suc (suc n)) (p ∷ ps) more)
            (one_more p ps (stream ps ++ more) more (suc n) c) _
            (rounds-Served n ps more (after p (stream ps ++ more) c) (omega (arith, e))))

    -- If no write throws and the server sends 101 packages, the thread that is connected returns
    -- without an exception, after it has sent its request and each package as it came.
    pub run_connection-Served :
        (request : List ℕ) (ps : List Package) (more : List ℕ)
        → length ps ≡ suc total_cnt
        → Ensures
            (Succeeds (λ c.
              (c.sent ≡ frame sends request ++ stream ps)
              × (c.incoming ≡ more)
              × (c.pack_cnt ≡ suc total_cnt)))
            (run_connection sends false request (stream ps ++ more))
    unfolding run_connection send_request at_connect frame
    run_connection-Served request ps more e =
        subst (Succeeds Relayed)
          (sym (
            next (rounds sends total_cnt)
              (next (write_all sends body)
                (write_lem sends quiet (layout.to_bytes (request_header sends)) start)
                (write_lem sends quiet body
                  (record start { sent = layout.to_bytes (request_header sends); writes = 1 })))
              refl))
          (Succeeds-mono (Served requested (suc total_cnt) ps more) Relayed
            (λ c (left, sent, packs, _, _, _). (sent, left, packs)) _
            (rounds-Served total_cnt ps more requested e))
      where
        body : List ℕ
        body = take (max_length - layout.header_size) request

        start : Conn
        start = at_connect sends (stream ps ++ more)

        requested : Conn
        requested = record start { sent = frame sends request; writes = 2 }

        Relayed : Conn → Type 0
        Relayed c =
            (c.sent ≡ frame sends request ++ stream ps)
            × (c.incoming ≡ more)
            × (c.pack_cnt ≡ suc total_cnt)
