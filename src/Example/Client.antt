-- ===== src/Example/Client.antt =====
-- A thread of asio_client/asio_client.cpp, with each field of a HDR in one place of its memory.
use asio_tcp.Base.{
  ◌++◌, ℕ, ◌≡◌, refl, false, Option, none, some, List, [], ◌∷◌, replicate, Ensures, if◌then◌else◌,
  ◌==◌,
}
use asio_tcp.Message.{Hdr}
use asio_tcp.Client.{Layout, run_connection, frame}
use asio_tcp.Client.Relay.{Within, Idle, traffic, run_connection-Within}
use asio_tcp.Client.Round.{Package, stream}
use asio_tcp.Client.Rounds.{Succeeds, run_connection-Served}

abbrev read_fields : List ℕ → Hdr
read_fields (a ∷ b ∷ c ∷ d ∷ _) = record { len = a; type = b; subtype = c; pack_num = d }
read_fields _ = record { len = 0; type = 0; subtype = 0; pack_num = 0 }

instance abbrev pub four_places : Layout
four_places = record {
  header_size = 4;
  to_bytes = λ h. h.len ∷ h.type ∷ h.subtype ∷ h.pack_num ∷ [];
  of_bytes = read_fields;
  length-to_bytes = λ h. refl;
  of_bytes-to_bytes = λ h. refl;
}

abbrev pub no_failure : ℕ → Option ℕ
no_failure k = none

-- The body of the first package is cut off after one byte.
abbrev third_fails : ℕ → Option ℕ
third_fails k = if k == 3 then some 1 else none

abbrev greeting : List ℕ
greeting = 104 ∷ 105 ∷ []

abbrev parcel : Package
parcel = record {
  head = record { len = 2; type = 7; subtype = 0; pack_num = 0 };
  content = greeting;
  sized = refl;
}

-- The thread throws in the write of the body of the first package.
run_connection-Within_example :
    Ensures
      (Within
        (traffic third_fails greeting (stream (parcel ∷ [])))
        (Idle (traffic third_fails greeting (stream (parcel ∷ [])))))
      (run_connection third_fails false greeting (stream (parcel ∷ [])))
run_connection-Within_example = run_connection-Within third_fails greeting (stream (parcel ∷ []))

-- 101 packages, and the start of another.
run_connection-Served_example :
    Ensures
      (Succeeds no_failure
        (λ k. refl)
        (λ c.
          (c.sent ≡ frame no_failure greeting ++ stream (replicate 101 parcel))
          × (c.incoming ≡ 2 ∷ 7 ∷ [])
          × (c.pack_cnt ≡ 101)))
      (run_connection no_failure false greeting (stream (replicate 101 parcel) ++ 2 ∷ 7 ∷ []))
run_connection-Served_example =
    run_connection-Served no_failure (λ k. refl) greeting (replicate 101 parcel) (2 ∷ 7 ∷ []) refl
