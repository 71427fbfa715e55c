-- ===== src/Client/Round.antt =====
-- One round of RunConnection (asio_client/asio_client.cpp) with a package whose header tells the length
-- of its body, over a connection whose writes do not throw.
use asio_tcp.Base.{
  ℕ, suc, ◌≡◌, refl, sym, ap, ◌∙◌, true, Option, none, List, [], ◌∷◌, ◌++◌, length, take, drop, leb,
  ==_iff, length-append, arith, le→leb, if◌then◌else◌, take-length, take-append, drop-append,
}
use asio_tcp.Message.{Hdr}
use asio_tcp.Client.{
  Layout, Conn, Outcome, ok, thrown, aborted, write_all, count_up, receive_header, receive_body,
  send_header, send_front, check_size, send_body, consume, round,
}

pub record Package : Type 0 where
  pub head : Hdr
  pub content : List ℕ
  pub sized : length content ≡ head.len

take_exact : (n : ℕ) (xs ys : List ℕ) → length xs ≡ n → take n (xs ++ ys) ≡ xs
take_exact n xs ys e = ap (λ k. take k (xs ++ ys)) (sym e) ∙ take-append xs ys

drop_exact : (n : ℕ) (xs ys : List ℕ) → length xs ≡ n → drop n (xs ++ ys) ≡ ys
drop_exact n xs ys e = ap (λ k. drop k (xs ++ ys)) (sym e) ∙ drop-append xs ys

enough : (n : ℕ) (xs ys : List ℕ) → length xs ≡ n → leb n (length (xs ++ ys)) ≡ true
enough n xs ys e = le→leb n (length (xs ++ ys)) (omega (arith, length-append xs ys, e))

pub next :
    {o o' : Outcome} {c : Conn} (g : Conn → Outcome)
    → o ≡ ok c
    → g c ≡ o'
    → elim o [ ok d ↦ g d | thrown d ↦ thrown d | aborted ↦ aborted ] ≡ o'
next g e k = ap (λ r. elim r [ ok d ↦ g d | thrown d ↦ thrown d | aborted ↦ aborted ]) e ∙ k

module _ ⦃layout : Layout⦄ where
  -- What the server sends: each header with its body.
  abbrev pub stream : List Package → List ℕ
  stream [] = []
  stream (p ∷ ps) = layout.to_bytes p.head ++ (p.content ++ stream ps)

  -- After a round: what the thread sent, counted and holds.
  abbrev pub after : Package → List ℕ → Conn → Conn
  after p more c = record {
    incoming = more;
    sent = (c.sent ++ layout.to_bytes p.head) ++ p.content;
    writes = suc (suc c.writes);
    header = record (c.header) { pack_num = suc c.header.pack_num };
    header_rcv = layout.to_bytes p.head;
    buf = [];
    pack_cnt = suc c.pack_cnt;
  }

  abbrev pub facing : List ℕ → Conn → Conn
  facing s c = record c { incoming = s; buf = [] }

  module _ (sends : ℕ → Option ℕ) (quiet : (k : ℕ) → sends k ≡ none) where
    pub write_lem :
        (bytes : List ℕ) (c : Conn)
        → write_all sends bytes c ≡ ok (record c { sent = c.sent ++ bytes; writes = suc c.writes })
    unfolding write_all
    write_lem bytes c = rw (quiet c.writes, write_all) refl

    read_header_lem :
        (h : Hdr) (tail : List ℕ) (c : Conn)
        → receive_header sends (facing (layout.to_bytes h ++ tail) c)
          ≡ ok (record c { incoming = tail; header_rcv = layout.to_bytes h; buf = [] })
    unfolding receive_header
    read_header_lem h tail c =
        rw
          (
            enough layout.header_size (layout.to_bytes h) tail (layout.length-to_bytes h),
            take_exact layout.header_size (layout.to_bytes h) tail (layout.length-to_bytes h),
            drop_exact layout.header_size (layout.to_bytes h) tail (layout.length-to_bytes h),
          )
          refl

    len_lem : (h : Hdr) → (layout.of_bytes (layout.to_bytes h)).len ≡ h.len
    len_lem h = ap (λ (g : Hdr). g.len) (layout.of_bytes-to_bytes h)

    read_body_lem :
        (p : Package) (more : List ℕ) (c : Conn)
        → receive_body sends (record c {
          incoming = p.content ++ more;
          header_rcv = layout.to_bytes p.head;
          buf = [];
        })
          ≡ ok (record c {
            incoming = more;
            header_rcv = layout.to_bytes p.head;
            buf = p.content;
            pack_cnt = suc c.pack_cnt;
          })
    unfolding receive_body
    read_body_lem p more c =
        rw
          (
            len_lem p.head,
            receive_body,
            enough p.head.len p.content more p.sized,
            take_exact p.head.len p.content more p.sized,
            drop_exact p.head.len p.content more p.sized,
          )
          refl

    write_front_lem :
        (p : Package) (c : Conn)
        → send_front sends (record c { header_rcv = layout.to_bytes p.head; buf = p.content })
          ≡ ok (record c {
            header_rcv = layout.to_bytes p.head;
            buf = p.content;
            sent = c.sent ++ p.content;
            writes = suc c.writes;
          })
    unfolding send_front
    write_front_lem p c =
        ap (λ n. write_all sends (take n p.content) sending) (len_lem p.head ∙ sym p.sized)
        ∙ ap (λ bytes. write_all sends bytes sending) (take-length p.content)
        ∙ write_lem p.content sending
      where
        sending : Conn
        sending = record c { header_rcv = layout.to_bytes p.head; buf = p.content }

    check_size_lem :
        (p : Package) (c : Conn)
        → check_size sends (record c { header_rcv = layout.to_bytes p.head; buf = p.content })
          ≡ ok (record c {
            header_rcv = layout.to_bytes p.head;
            buf = drop (layout.of_bytes (layout.to_bytes p.head)).len p.content;
          })
    unfolding check_size
    check_size_lem p c =
        ap
          (λ b.
            if b
            then ok (record c {
              header_rcv = layout.to_bytes p.head;
              buf = drop (layout.of_bytes (layout.to_bytes p.head)).len p.content;
            })
            else aborted)
          ((==_iff (length (take (layout.of_bytes (layout.to_bytes p.head)).len p.content)) _).1 (
            ap (λ n. length (take n p.content)) (len_lem p.head ∙ sym p.sized)
            ∙ ap length (take-length p.content)
            ∙ p.sized
            ∙ sym (len_lem p.head)))

    pub round_lem :
        (p : Package) (more : List ℕ) (c : Conn)
        → round sends (facing (layout.to_bytes p.head ++ (p.content ++ more)) c)
          ≡ ok (after p more c)
    unfolding round count_up send_header consume
    round_lem p more c =
        next (consume sends)
          (next (send_body sends)
            (next (send_header sends)
              (next (receive_body sends) (read_header_lem p.head (p.content ++ more) counted)
                (read_body_lem p more counted))
              (write_lem (layout.to_bytes p.head) read))
            (next (check_size sends) (write_front_lem p announced) (check_size_lem p sent)))
          refl
      where
        counted : Conn
        counted = record c { header = record (c.header) { pack_num = suc c.header.pack_num } }

        read : Conn
        read = record counted {
          incoming = more;
          header_rcv = layout.to_bytes p.head;
          buf = p.content;
          pack_cnt = suc c.pack_cnt;
        }

        announced : Conn
        announced = record read { sent = c.sent ++ layout.to_bytes p.head; writes = suc c.writes }

        sent : Conn
        sent = record announced { sent = announced.sent ++ p.content; writes = suc (suc c.writes) }
