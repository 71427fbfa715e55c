-- ===== src/Format.antt =====
-- std_string_format and output_console (asio_test/connection.cpp): a text is formatted into the
-- memory of a std::string. The number of characters is that of `_vscprintf`, `capacity` that of a new
-- string, and `resized n` the capacity after `resize(n)`; `vsprintf_s` writes the characters and a
-- terminating zero, and calls the invalid parameter handler, here `none`, if they do not fit.
use asio_tcp.Base.{
  ℕ, [], ◌∷◌, ◌>>=◌, ◌+◌, ◌≤◌, ◌≡◌, ◌≢◌, ◌↔◌, Option, none, some, List, length, ltb, if◌then◌else◌,
  arith,
}

module _ {A : Type 0} (capacity : ℕ) (resized : ℕ → ℕ) where
  -- `if (num_of_chars > tmp.capacity()) tmp.resize(num_of_chars + 1);`
  pub room : List A → ℕ
  room text = if ltb capacity (length text) then resized (length text + 1) else capacity

  -- vsprintf_s into `tmp.capacity()` bytes.
  unfoldable pub format : List A → Option (List A)
  unfolding room
  format text = if ltb (length text) (room text) then some text else none

  -- output_console: what is printed.
  unfoldable pub output_console : List A → Option (List (List A))
  output_console text = format text >>= λ t. some (t ∷ [])

  -- session_tcp::output_console(const char*, …), after a prefix.
  unfoldable pub session_output : List A → List A → Option (List (List A))
  session_output before text = do prefix ← format before; t ← format text; some (prefix ∷ t ∷ [])

  -- session_tcp::output_console(const std::string&): the text is not formatted again.
  unfoldable pub session_output_text : List A → List A → Option (List (List A))
  session_output_text before text = do prefix ← format before; some (prefix ∷ text ∷ [])

  -- Where `resize(n)` gives room for `n` characters, a text is formatted as it is exactly if it has
  -- not as many characters as a new string has room for: then there is no byte for the terminating
  -- zero.
  pub format_iff :
      ((n : ℕ) → n ≤ resized n)
      → (text : List A) → (format text ≡ some text) ↔ (length text ≢ capacity)
  unfolding format
  format_iff grows text = (
    λ e same. ground (arith, grows (length text + 1)),
    λ other. ground (arith, grows (length text + 1)),
  )

  -- Where `resize(n)` gives room for `n` characters, a line of a session is printed, as its prefix and
  -- its text, exactly if neither has as many characters as a new string has room for.
  pub session_output_iff :
      ((n : ℕ) → n ≤ resized n)
      → (before text : List A)
      → (session_output before text ≡ some (before ∷ text ∷ []))
        ↔ ((length before ≢ capacity) × (length text ≢ capacity))
  unfolding session_output format
  session_output_iff grows before text = (
    λ e. (
      λ same. ground (arith, grows (length before + 1)),
      λ same. ground (arith, grows (length before + 1), grows (length text + 1)),
    ),
    λ other. ground (arith, grows (length before + 1), grows (length text + 1)),
  )
