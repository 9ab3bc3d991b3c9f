-- ===== src/Lexer/Escape.antt =====
-- copyEscapedString of impl/lexer.l: a word of the input without its quotes and backslashes.
use operating_system_profoli.Base.{
  ℕ, ◌≤◌, ◌≡◌, ◌≢◌, refl, Bool, true, false, ◌||◌, [], ◌∷◌, ◌++◌, Text, All, ◌==◌, if◌then◌else◌,
  length, arith,
}

abbrev pub double_quote : ℕ
double_quote = b'"'

abbrev pub single_quote : ℕ
single_quote = 39

abbrev pub backslash : ℕ
backslash = b'\\'

abbrev pub is_quotes : ℕ → Bool
is_quotes c = c == double_quote || c == single_quote

-- `quotechar` of the loop, 0 where it is `unquoted`; `escaped` stands for the step `zSrc[++iSrc]`,
-- which takes the next byte as it is.
pub data Quoting : Type 0 where
  unquoted escaped : Quoting
  quoted : ℕ → Quoting

-- What a byte adds to `zDest`, and the mode behind it.
unfoldable pub copy_byte : Quoting → ℕ → Text × Quoting
copy_byte unquoted c =
    if is_quotes c
    then ([], quoted c)
    else if c == backslash
    then ([], escaped)
    else (c ∷ [], unquoted)
copy_byte escaped c = (c ∷ [], unquoted)
copy_byte (quoted q) c = if c == q then ([], unquoted) else (c ∷ [], quoted q)

-- The loop of copyEscapedString, which ends at the NUL behind the text.
unfoldable pub copy_from : Quoting → Text → Text
unfolding copy_byte
copy_from mode [] = []
copy_from mode (c ∷ t) = let (out, mode') = copy_byte mode c in out ++ copy_from mode' t

unfoldable pub copy_escaped_string : Text → Text
unfolding copy_from
copy_escaped_string t = copy_from unquoted t

-- Every byte of a text with a backslash before it.
abbrev pub escape : Text → Text
escape [] = []
escape (c ∷ t) = backslash ∷ c ∷ escape t

copy_from-length : (mode : Quoting) (t : Text) → length (copy_from mode t) ≤ length t
unfolding copy_from
copy_from-length mode [] = omega arith
copy_from-length unquoted (c ∷ t) =
    ground (
      arith,
      copy_from-length unquoted t,
      copy_from-length escaped t,
      copy_from-length (quoted c) t,
    )
copy_from-length escaped (c ∷ t) = ground (arith, copy_from-length unquoted t)
copy_from-length (quoted q) (c ∷ t) =
    ground (arith, copy_from-length unquoted t, copy_from-length (quoted q) t)

-- The copy is not longer than the word, so that it fits the buffer of strlen + 1 bytes that is
-- allocated for it.
pub copy_escaped_string-length : (t : Text) → length (copy_escaped_string t) ≤ length t
unfolding copy_escaped_string
copy_escaped_string-length t = copy_from-length unquoted t

-- A text with a backslash before every byte is copied as the text itself.
pub copy_escaped_string-escape : (t : Text) → copy_escaped_string (escape t) ≡ t
unfolding copy_escaped_string copy_from
copy_escaped_string-escape [] = refl
copy_escaped_string-escape (c ∷ t) = rw (copy_escaped_string-escape t)

copy_from-quoted :
    (q : ℕ) (t : Text) → All (λ c. c ≢ q) t → copy_from (quoted q) (t ++ (q ∷ [])) ≡ t
unfolding copy_from
copy_from-quoted q [] h = ground arith
copy_from-quoted q (c ∷ t) h = ground (arith, h.0, copy_from-quoted q t h.1)

-- A text between two equal quotes that do not occur in it is copied as the text itself: backslashes
-- and the other quotes too.
pub copy_escaped_string-quoted :
    (q : ℕ) (t : Text)
    → is_quotes q ≡ true
    → All (λ c. c ≢ q) t
    → copy_escaped_string (q ∷ (t ++ (q ∷ []))) ≡ t
unfolding copy_escaped_string copy_from
copy_escaped_string-quoted q t h free = rw h (copy_from-quoted q t free)

copy_from-plain :
    (t : Text) → All (λ c. (c == backslash || is_quotes c) ≡ false) t → copy_from unquoted t ≡ t
unfolding copy_from
copy_from-plain [] h = refl
copy_from-plain (c ∷ t) h = ground (arith, h.0, copy_from-plain t h.1)

-- A word without quotes and backslashes is copied as it is.
pub copy_escaped_string-plain :
    (t : Text) → All (λ c. (c == backslash || is_quotes c) ≡ false) t → copy_escaped_string t ≡ t
unfolding copy_escaped_string
copy_escaped_string-plain t h = copy_from-plain t h
