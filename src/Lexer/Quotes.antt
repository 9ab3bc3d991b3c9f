-- ===== src/Lexer/Quotes.antt =====
-- A backslash between quotes: the lexer's pattern takes it with the byte behind it, and
-- copyEscapedString does not.
use mathlib.Core.Option
use operating_system_profoli.Base.{
  ℕ, ◌≡◌, ◌≢◌, refl, ap, ◌∙◌, false, inl, inr, none, some, [], ◌∷◌, ◌++◌, Text, All, ◌==◌,
  Bool-cases,
}
use operating_system_profoli.Lexer.Escape.{
  double_quote, backslash, quoted, copy_from, copy_escaped_string,
}
use operating_system_profoli.Lexer.{
  between, in_quotes, in_quotes_behind_backslash, next, token, Start, param, word_token, scan_from,
}
use operating_system_profoli.Lexer.Words.{Runs, scan_from-Runs}

-- A byte that the pattern takes between double quotes on its own.
abbrev pub IsInside : ℕ → Type 0
IsInside c = next (in_quotes double_quote) c ≡ some (in_quotes double_quote)

Runs-in_quotes :
    (u x : Text)
    → All IsInside u
    → Runs (in_quotes double_quote) x
    → Runs (in_quotes double_quote) (u ++ x)
Runs-in_quotes [] x h run = run
Runs-in_quotes (c ∷ u) x h run = (in_quotes double_quote, h.0, Runs-in_quotes u x h.1 run)

between-ne : between ≢ in_quotes double_quote
between-ne h = cc

IsInside-ne : (c : ℕ) → IsInside c → (c == double_quote) ≡ false
unfolding next
IsInside-ne c h = elim (Bool-cases (c == double_quote)) [
  | inl e ↦ absurd (between-ne (Option.some-injective _ _ (rw e at h)))
  | inr e ↦ e
]

copy_from-in_quotes :
    (u x : Text)
    → All IsInside u
    → copy_from (quoted double_quote) (u ++ x) ≡ u ++ copy_from (quoted double_quote) x
unfolding copy_from
copy_from-in_quotes [] x h = refl
copy_from-in_quotes (c ∷ u) x h =
    rw (IsInside-ne c h.0) (ap (λ t. c ∷ t) (copy_from-in_quotes u x h.1))

-- An escaped quote between other bytes, in double quotes.
abbrev pub with_quote : Text → Text → Text
with_quote u v = u ++ (backslash ∷ double_quote ∷ (v ++ (double_quote ∷ [])))

Runs-with_quote :
    (u v : Text) → All IsInside u → All IsInside v → Runs between (double_quote ∷ with_quote u v)
unfolding next
Runs-with_quote u v hu hv = (
  in_quotes double_quote,
  refl,
  Runs-in_quotes u (backslash ∷ double_quote ∷ (v ++ (double_quote ∷ []))) hu (
    in_quotes_behind_backslash double_quote,
    refl,
    (in_quotes double_quote, refl, Runs-in_quotes v (double_quote ∷ []) hv (between, refl, refl)),
  ),
)

-- The lexer reads `"u\"v"` as one word, where u and v are bytes that its pattern takes between double
-- quotes on their own. But the text that it makes of it begins with u and the backslash, and `v"` goes on
-- as copyEscapedString copies it from its start, outside quotes: the escaped quote ends the quotes.
pub scan_from-with_quote :
    (s : Start) (u v : Text) (d : ℕ) (rest : Text)
    → All IsInside u
    → All IsInside v
    → next between d ≡ none
    → scan_from 0 s (double_quote ∷ (with_quote u v ++ (d ∷ rest)))
      ≡ token (word_token s (u ++ (backslash ∷ copy_escaped_string (v ++ (double_quote ∷ [])))))
        ∷ scan_from 0 param (d ∷ rest)
unfolding copy_escaped_string copy_from
scan_from-with_quote s u v d rest hu hv stop =
    scan_from-Runs s double_quote (with_quote u v) d rest (Runs-with_quote u v hu hv) stop
    ∙ ap (λ t. token (word_token s t) ∷ scan_from 0 param (d ∷ rest))
        (copy_from-in_quotes u (backslash ∷ double_quote ∷ (v ++ (double_quote ∷ []))) hu)
