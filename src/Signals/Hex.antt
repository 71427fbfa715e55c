-- ===== src/Signals/Hex.antt =====
-- The line of a HexView (test/test.cpp) shows the text: it can be read back.
use asio_tcp.Base.{
  ℕ, zero, suc, ◌+◌, ◌-◌, ◌*◌, ◌/◌, ◌%◌, ◌<◌, ◌≡◌, refl, false, List, Bool-cases, inl, inr, drop,
  lt→ltb, ltb→lt, [], ◌∷◌, ◌++◌, ltb, ◌==◌, if◌then◌else◌, arith, ap, ◌∙◌, append_assoc,
}
use asio_tcp.Signals.{int_of_char, hex_digit, hex, hex_bytes}

abbrev digit_of_hex : ℕ → ℕ
digit_of_hex c = if ltb c 58 then c - 48 else c - 87

-- The numbers of the words of a line that are ended by a space or the end, each in eight bits.
unfoldable pub read_words : ℕ → List ℕ → List ℕ
read_words acc [] = acc % 256 ∷ []
read_words acc (c ∷ cs) =
    let next = acc % 256 ∷ read_words 0 cs in
    let more = read_words (acc * 16 + digit_of_hex c) cs in if c == 32 then next else more

abbrev pow16 : ℕ → ℕ
pow16 zero = 1
pow16 (suc n) = 16 * pow16 n

-- One digit is read.
read_words-digit :
    (acc d : ℕ) (rest : List ℕ)
    → d < 16
    → read_words acc (hex_digit d ∷ rest) ≡ read_words (acc * 16 + d) rest
unfolding read_words
read_words-digit acc d rest h = rw (not_space) (ap (λ k. read_words (acc * 16 + k) rest) same)
  where
    not_space : (hex_digit d == 32) ≡ false
    not_space = ground arith

    same : digit_of_hex (hex_digit d) ≡ d
    same = ground arith

read_words-hex :
    (n x : ℕ) (rest : List ℕ)
    → x < pow16 n
    → 0 < n
    → read_words 0 (hex n x ++ rest) ≡ read_words x rest
unfolding hex
read_words-hex zero x rest h pos = absurd (omega arith)
read_words-hex (suc zero) x rest h pos =
    rw (lt→ltb x 16 (omega arith))
      (read_words-digit 0 x rest (omega arith) ∙ ap (λ k. read_words k rest) (omega arith))
read_words-hex (suc (suc n)) x rest h pos = elim (Bool-cases (ltb x 16)) [
  | inl small ↦
      rw small
        (read_words-digit 0 x rest (ltb→lt x 16 small) ∙ ap (λ k. read_words k rest) (omega arith))
  | inr large ↦ rw large (
      ap (read_words 0) (append_assoc (hex (suc n) (x / 16)) (hex_digit (x % 16) ∷ []) rest)
      ∙ read_words-hex (suc n) (x / 16) (hex_digit (x % 16) ∷ rest) (omega arith) (omega arith)
      ∙ read_words-digit (x / 16) (x % 16) rest (omega arith)
      ∙ ap (λ k. read_words k rest) (omega arith))
]

abbrev pub AreChars : List ℕ → Type 0
AreChars [] = Unit {0}
AreChars (c ∷ cs) = (c < 256) × AreChars cs

words_lem :
    (acc : ℕ) (text : List ℕ) → AreChars text → read_words acc (hex_bytes text) ≡ acc % 256 ∷ text
unfolding hex_bytes read_words
words_lem acc [] h = refl
words_lem acc (c ∷ cs) h = ap (◌∷◌ (acc % 256)) (
    read_words-hex 8 (int_of_char c) (hex_bytes cs) (ground arith) (omega arith)
    ∙ words_lem (int_of_char c) cs h.1
    ∙ ap (λ k. k ∷ cs) low)
  where
    low : int_of_char c % 256 ≡ c
    low = ground (arith, h.0)

-- What a HexView shows of a text of bytes gives the text back, when the words after the first space
-- are read as numbers and each is cut to eight bits.
pub drop-read_words-hex_bytes :
    (text : List ℕ) → AreChars text → drop 1 (read_words 0 (hex_bytes text)) ≡ text
drop-read_words-hex_bytes text h = ap (drop 1) (words_lem 0 text h)
