-- ===== src/Example/Signals.antt =====
-- A document with a view of each kind (test/test.cpp), over signals that are lists of slots.
use asio_tcp.Base.{
  ℕ, ◌≡◌, ◌≢◌, ◌↔◌, ◌⊎◌, refl, false, none, Option, List, [], ◌∷◌, ◌++◌, codes, drop, arith,
}
use asio_tcp.Signals.{
  Signal, text_view, hex_view, Op, create_op, append_op, reset_op, run_ops, new_document, hex_bytes,
  refresh,
}
use asio_tcp.Signals.Hex.{read_words, drop-read_words-hex_bytes}
use asio_tcp.Signals.Views.{observe, no_document, shown, shown-run_ops}
use asio_tcp.Signals.Resolve.{main, main_returns_iff}

instance abbrev list_signal : Signal
list_signal = record {
  Sig = List ℕ;
  slots = λ s. s;
  none_connected = [];
  connect = λ s v. s ++ v ∷ [];
  slots-none_connected = refl;
  slots-connect = λ s v. refl;
}

-- The commands that main once ran.
abbrev demo : List Op
demo =
    create_op text_view
    ∷ create_op hex_view
    ∷ append_op (codes "Hi")
    ∷ reset_op 1
    ∷ append_op (codes "!")
    ∷ []

shown-run_ops_example :
    shown 1 (run_ops demo new_document).output ≡ (observe 1 demo no_document).seen
shown-run_ops_example = shown-run_ops 1 demo

hex_seen : (observe 1 demo no_document).seen ≡ codes "HexView: 48 69" ∷ []
unfolding observe no_document hex_bytes refresh
hex_seen = refl

drop-read_words-hex_bytes_example : drop 1 (read_words 0 (hex_bytes (7 ∷ 200 ∷ []))) ≡ 7 ∷ 200 ∷ []
drop-read_words-hex_bytes_example =
    drop-read_words-hex_bytes (7 ∷ 200 ∷ []) (omega arith, (omega arith, tt))

abbrev found : List ℕ
found = 80 ∷ []

main_returns_iff_example :
    (main 4 false none found ≢ none) ↔ ((◌≢◌ {A = Option (List ℕ)} none none) ⊎ (found ≡ []))
main_returns_iff_example = main_returns_iff 3 false none found
