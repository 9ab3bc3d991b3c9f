-- ===== src/Lexer.antt =====
-- The lexer of impl/lexer.l: the automaton of its pattern for a word, and its
-- rules. Of all rules that match, the one with the longest match is taken, and of these the first.
pub mod Classes
pub mod Escape
pub mod Words
pub mod Quotes
use operating_system_profoli.Base.{
  ℕ, zero, suc, ◌+◌, ◌-◌, ◌≤◌, ◌≡◌, refl, Bool, true, false, ◌&&◌, ◌||◌, Option, none, some, List,
  [], ◌∷◌, Text, codes, ◌==◌, leb, if◌then◌else◌,
}
use operating_system_profoli.Lexer.Escape.{
  single_quote, double_quote, backslash, is_quotes, copy_escaped_string,
}
use operating_system_profoli.Lexer.Classes.{
  is_separator, is_redirect, is_spaces, is_eoln, is_plain, is_special, is_nonquotes,
}

-- The automaton of the pattern `word`. It is at the end of a word in `between` alone.
pub data State : Type 0 where
  between behind_backslash : State
  in_quotes in_quotes_behind_backslash : ℕ → State

unfoldable pub next : State → ℕ → Option State
unfolding is_plain is_special is_nonquotes
next between c =
    if is_plain c
    then some between
    else if c == backslash
    then some behind_backslash
    else if is_quotes c
    then some (in_quotes c)
    else none
next behind_backslash c = if is_special c then some between else none
next (in_quotes q) c =
    if c == q
    then some between
    else if c == backslash
    then some (in_quotes_behind_backslash q)
    else if is_nonquotes c || is_quotes c
    then some (in_quotes q)
    else none
next (in_quotes_behind_backslash q) c = if is_special c then some (in_quotes q) else none

abbrev pub accepts : State → Option ℕ
accepts between = some 0
accepts behind_backslash = none
accepts (in_quotes q) = none
accepts (in_quotes_behind_backslash q) = none

-- One byte more, or the word that ends here.
abbrev pub longer : Option ℕ → Option ℕ → Option ℕ
longer (some n) here = some (suc n)
longer none here = here

-- The length of the longest word at the front of the text, from this state.
unfoldable pub longest : State → Text → Option ℕ
unfolding next
longest st [] = accepts st
longest st (c ∷ t) = elim (next st c) [
  | none ↦ accepts st
  | some st' ↦ longer (longest st' t) (accepts st)
]

-- The types of output redirections: `>`, `>&`, `>>` and `>>&`.
pub data Output : Type 0 where
  out error append append_error : Output

pub data Pipe : Type 0 where
  pipe pipe_error : Pipe

pub data Token : Type 0 where
  word command filename : Text → Token
  redirect_in : Token
  redirect_to : Output → Token
  pipe_to : Pipe → Token
  background semicolon logical_and logical_or eoln yeof : Token

-- What the scanner gives: a token to the parser, or a line on the screen.
pub data Lexeme : Type 0 where
  token : Token → Lexeme
  invalid : ℕ → Lexeme

-- The start conditions.
pub data Start : Type 0 where
  initial param fname : Start

-- The token for a word, and the start condition behind it.
abbrev pub word_token : Start → Text → Token
word_token initial t = command t
word_token fname t = filename t
word_token param t = word t

-- A match: what it gives, how many bytes it takes behind the first one, and the next start condition.
pub record Match : Type 0 where
  pub gives : List Lexeme
  pub more : ℕ
  pub start : Start

abbrev pub matched : Token → ℕ → Start → Match
matched k n s = record { gives = token k ∷ []; more = n; start = s }

-- The rules that begin with `>`, with `|` and with `&`, on what follows that byte.
unfoldable pub greater : Text → Match
greater [] = matched (redirect_to out) 0 fname
greater (c ∷ []) =
    if c == b'>'
    then matched (redirect_to append) 1 fname
    else if c == b'&'
    then matched (redirect_to error) 1 fname
    else matched (redirect_to out) 0 fname
greater (c ∷ d ∷ t) =
    if c == b'>'
    then (if d == b'&'
        then matched (redirect_to append_error) 2 fname
        else matched (redirect_to append) 1 fname)
    else if c == b'&'
    then matched (redirect_to error) 1 fname
    else matched (redirect_to out) 0 fname

unfoldable pub bar : Text → Match
bar [] = matched (pipe_to pipe) 0 initial
bar (c ∷ t) =
    if c == b'&'
    then matched (pipe_to pipe_error) 1 initial
    else if c == b'|'
    then matched logical_or 1 initial
    else matched (pipe_to pipe) 0 initial

unfoldable pub ampersand : Text → Match
ampersand [] = matched background 0 initial
ampersand (c ∷ t) =
    if c == b'&' then matched logical_and 1 initial else matched background 0 initial

-- The rules for a byte that no word begins with. Blanks are skipped one by one.
unfoldable pub operator : Start → ℕ → Text → Match
unfolding greater bar ampersand
operator s c t =
    if c == b'>'
    then greater t
    else if c == b'<'
    then matched redirect_in 0 fname
    else if c == b'|'
    then bar t
    else if c == b'&'
    then ampersand t
    else if c == b';'
    then matched semicolon 0 initial
    else if c == b'\n'
    then matched eoln 0 initial
    else if is_spaces c
    then record { gives = []; more = 0; start = s }
    else record { gives = invalid c ∷ []; more = 0; start = s }

-- The first bytes of a text.
unfoldable pub prefix : ℕ → Text → Text
prefix zero t = []
prefix (suc n) [] = []
prefix (suc n) (c ∷ t) = c ∷ prefix n t

-- A word at the front has a byte or more; `{word}` never wins with none, since every byte has a rule.
unfoldable pub word_or : Option ℕ → Start → ℕ → Text → Match
unfolding operator prefix
word_or none s c t = operator s c t
word_or (some zero) s c t = operator s c t
word_or (some (suc n)) s c t =
    matched (word_token s (copy_escaped_string (prefix (suc n) (c ∷ t)))) n
      (elim s [ initial ↦ param | fname ↦ param | param ↦ param ])

unfoldable pub rule : Start → ℕ → Text → Match
unfolding longest word_or
rule s c t = word_or (longest between (c ∷ t)) s c t

abbrev pub emit : List Lexeme → List Lexeme → List Lexeme
emit [] ls = ls
emit (l ∷ k) ls = l ∷ emit k ls

-- The scanner to the end of the input, where bytes of the last match are still to be passed over.
unfoldable pub scan_from : ℕ → Start → Text → List Lexeme
unfolding rule
scan_from n s [] = token yeof ∷ []
scan_from (suc n) s (c ∷ t) = scan_from n s t
scan_from zero s (c ∷ t) = let m = rule s c t in emit m.gives (scan_from m.more m.start t)

unfoldable pub scan : Text → List Lexeme
unfolding scan_from
scan t = scan_from 0 initial t

-- What yylex returns, one token after the other.
unfoldable pub returned : List Lexeme → List Token
returned [] = []
returned (token k ∷ ls) = k ∷ returned ls
returned (invalid c ∷ ls) = returned ls
