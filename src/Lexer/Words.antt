-- ===== src/Lexer/Words.antt =====
-- How the lexer reads a word: plain, or with each byte behind a backslash.
use operating_system_profoli.Base.{
  ℕ, ◌≡◌, ◌≢◌, refl, ap, ◌∙◌, inl, inr, true, false, ◌||◌, none, some, [], ◌∷◌, ◌++◌, Text, All,
  ◌==◌, length, Bool-cases, ==_iff,
}
use operating_system_profoli.Lexer.Escape.{
  backslash, is_quotes, escape, copy_escaped_string, copy_escaped_string-escape,
  copy_escaped_string-plain,
}
use operating_system_profoli.Lexer.Classes.{is_plain, is_special}
use operating_system_profoli.Lexer.{
  State, between, behind_backslash, next, longest, token, Start, initial, param, fname, word_token,
  prefix, scan_from,
}

-- The automaton goes through the text to the end of a word.
abbrev pub Runs : State → Text → Type 0
Runs st [] = st ≡ between
Runs st (c ∷ w) = (st' : State) × (next st c ≡ some st') × Runs st' w

-- Where the automaton cannot go on behind a word, that word is the longest.
longest-Runs :
    (st : State) (w : Text) (d : ℕ) (rest : Text)
    → Runs st w
    → next between d ≡ none
    → longest st (w ++ (d ∷ rest)) ≡ some (length w)
unfolding longest
longest-Runs st [] d rest h stop = rw h (rw (stop, longest))
longest-Runs st (c ∷ w) d rest (st', e, h) stop =
    rw (e, longest) (rw (longest-Runs st' w d rest h stop))

scan_from-append :
    (w rest : Text) (s : Start) → scan_from (length w) s (w ++ rest) ≡ scan_from 0 s rest
unfolding scan_from
scan_from-append [] rest s = refl
scan_from-append (c ∷ w) rest s = scan_from-append w rest s

prefix-append : (w rest : Text) → prefix (length w) (w ++ rest) ≡ w
unfolding prefix
prefix-append [] rest = refl
prefix-append (c ∷ w) rest = ap (λ u. c ∷ u) (prefix-append w rest)

-- A word that is not empty, with a byte behind it that no word goes on with, is read as one token,
-- whose text is the word without its quotes and backslashes.
pub scan_from-Runs :
    (s : Start) (c : ℕ) (w : Text) (d : ℕ) (rest : Text)
    → Runs between (c ∷ w)
    → next between d ≡ none
    → scan_from 0 s (c ∷ (w ++ (d ∷ rest)))
      ≡ token (word_token s (copy_escaped_string (c ∷ w))) ∷ scan_from 0 param (d ∷ rest)
unfolding scan_from
scan_from-Runs initial c w d rest h stop =
    rw (longest-Runs between (c ∷ w) d rest h stop, prefix-append w (d ∷ rest))
      (ap (λ ls. token (word_token initial (copy_escaped_string (c ∷ w))) ∷ ls)
        (scan_from-append w (d ∷ rest) param))
scan_from-Runs param c w d rest h stop =
    rw (longest-Runs between (c ∷ w) d rest h stop, prefix-append w (d ∷ rest))
      (ap (λ ls. token (word_token param (copy_escaped_string (c ∷ w))) ∷ ls)
        (scan_from-append w (d ∷ rest) param))
scan_from-Runs fname c w d rest h stop =
    rw (longest-Runs between (c ∷ w) d rest h stop, prefix-append w (d ∷ rest))
      (ap (λ ls. token (word_token fname (copy_escaped_string (c ∷ w))) ∷ ls)
        (scan_from-append w (d ∷ rest) param))

Runs-escape : (t : Text) → All (λ c. is_special c ≡ true) t → Runs between (escape t)
unfolding next
Runs-escape [] h = refl
Runs-escape (c ∷ t) h = (behind_backslash, refl, (between, rw (h.0), Runs-escape t h.1))

-- Any text of bytes that may stand behind a backslash, not empty, is read back as one token from its
-- bytes with a backslash before each, where no word goes on behind it.
pub scan_from-escape :
    (s : Start) (c : ℕ) (t : Text) (d : ℕ) (rest : Text)
    → All (λ c. is_special c ≡ true) (c ∷ t)
    → next between d ≡ none
    → scan_from 0 s (escape (c ∷ t) ++ (d ∷ rest))
      ≡ token (word_token s (c ∷ t)) ∷ scan_from 0 param (d ∷ rest)
scan_from-escape s c t d rest h stop =
    scan_from-Runs s backslash (c ∷ escape t) d rest (Runs-escape (c ∷ t) h) stop
    ∙ ap (λ u. token (word_token s u) ∷ scan_from 0 param (d ∷ rest))
        (copy_escaped_string-escape (c ∷ t))

Runs-plain : (t : Text) → All (λ c. is_plain c ≡ true) t → Runs between t
unfolding next
Runs-plain [] h = refl
Runs-plain (c ∷ t) h = (between, rw (h.0), Runs-plain t h.1)

-- No plain byte is a backslash or a quote.
pub plain-ne : (c k : ℕ) → is_plain c ≡ true → is_plain k ≡ false → (c == k) ≡ false
plain-ne c k h e = elim (Bool-cases (c == k)) [
  | inr ne ↦ ne
  | inl eq ↦ let same = (==_iff c k).0 eq in cc
]

plain-unquoted : (c : ℕ) → is_plain c ≡ true → (c == backslash || is_quotes c) ≡ false
unfolding is_plain
plain-unquoted c h = rw (plain-ne c backslash h refl, plain-ne c b'"' h refl, plain-ne c 39 h refl)

All-plain :
    (t : Text)
    → All (λ c. is_plain c ≡ true) t
    → All (λ c. (c == backslash || is_quotes c) ≡ false) t
All-plain [] h = tt
All-plain (c ∷ t) h = (plain-unquoted c h.0, All-plain t h.1)

-- A word of plain bytes, not empty.
abbrev pub IsPlain : Text → Type 0
IsPlain w = (w ≢ []) × All (λ c. is_plain c ≡ true) w

-- A plain word is read as itself, with the blank behind it.
pub scan_from-plain :
    (s : Start) (w rest : Text)
    → IsPlain w
    → scan_from 0 s (w ++ (b' ' ∷ rest)) ≡ token (word_token s w) ∷ scan_from 0 param rest
unfolding scan_from
scan_from-plain s [] rest h = absurd (h.0 refl)
scan_from-plain s (c ∷ w) rest h =
    scan_from-Runs s c w b' ' rest (Runs-plain (c ∷ w) h.1) refl
    ∙ ap (λ u. token (word_token s u) ∷ scan_from 0 param rest)
        (copy_escaped_string-plain (c ∷ w) (All-plain (c ∷ w) h.1))
