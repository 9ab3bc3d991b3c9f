-- ===== src/Lexer/Classes.antt =====
-- The character classes of impl/lexer.l.
use operating_system_profoli.Base.{ℕ, Bool, false, ◌&&◌, ◌||◌, [], ◌∷◌, Text, codes, ◌==◌, leb}
use operating_system_profoli.Lexer.Escape.{backslash, is_quotes}

abbrev pub among : Text → ℕ → Bool
among [] c = false
among (d ∷ ds) c = c == d || among ds c

abbrev pub is_separator : ℕ → Bool
is_separator = among (codes "&|;")

abbrev pub is_redirect : ℕ → Bool
is_redirect = among (codes "<>")

abbrev pub is_spaces : ℕ → Bool
is_spaces c = c == b' ' || c == b'\t'

abbrev pub is_eoln : ℕ → Bool
is_eoln c = c == b'\n'

abbrev pub is_alpha : ℕ → Bool
is_alpha c = (leb b'A' c && leb c b'Z') || (leb b'a' c && leb c b'z')

abbrev pub is_number : ℕ → Bool
is_number c = leb b'0' c && leb c b'9'

abbrev pub is_others : ℕ → Bool
is_others = among (codes "+,%_#@$.*/:!?-")

-- What may stand in a word by itself.
unfoldable pub is_plain : ℕ → Bool
is_plain c = is_alpha c || (is_number c || is_others c)

-- What may stand behind a backslash: `backspecial`.
unfoldable pub is_special : ℕ → Bool
unfolding is_plain
is_special c =
    is_separator c
    || (is_redirect c
        || (is_eoln c || (is_spaces c || (is_plain c || (c == backslash || is_quotes c)))))

-- What may stand between quotes by itself: `nonquotes` less its backslashes.
unfoldable pub is_nonquotes : ℕ → Bool
unfolding is_plain
is_nonquotes c = is_plain c || (is_spaces c || (is_eoln c || is_redirect c))
