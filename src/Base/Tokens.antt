-- ===== src/Base/Tokens.antt =====
-- The C library's `strtok` as the list of all its tokens, and its inverse on paths.
use Prim.Native.Nat.{ℕ, suc, ◌≤◌}
use mathlib.Core.Path.{◌≡◌, refl, ap, ◌∙◌}
use mathlib.Core.Logic.{◌≢◌, inl, inr}
use mathlib.Core.List.{List, [], ◌∷◌, ◌++◌, append_assoc}
use native.Mathlib.Omega.{arith}
use operating_system_profoli.Base.Tests.{
  ◌==◌, if◌then◌else◌, ==_self, ==_ne, ne_of_==_false, Bool-cases,
}
use operating_system_profoli.Base.Lists.{length, All}
use operating_system_profoli.Base.Strings.{Text}

-- The byte goes to the front of the first token.
abbrev pub extend : ℕ → List Text → List Text
extend c [] = (c ∷ []) ∷ []
extend c (w ∷ ws) = (c ∷ w) ∷ ws

-- The byte belongs to the token that the rest begins with, or is a token by itself.
abbrev pub attach : ℕ → ℕ → Text → List Text → List Text
attach sep c [] ws = (c ∷ []) ∷ ws
attach sep c (d ∷ t) ws = if d == sep then (c ∷ []) ∷ ws else extend c ws

-- The longest runs of bytes other than the separator, in order.
unfoldable pub tokens : ℕ → Text → List Text
tokens sep [] = []
tokens sep (c ∷ t) = if c == sep then tokens sep t else attach sep c t (tokens sep t)

-- Each word with a separator behind it.
unfoldable pub join : ℕ → List Text → Text
join sep [] = []
join sep (w ∷ ws) = w ++ (sep ∷ join sep ws)

-- A token: not empty, and without the separator.
abbrev pub IsWord : ℕ → Text → Type 0
IsWord sep w = (w ≢ []) × All (λ c. c ≢ sep) w

tokens-word :
    (sep c : ℕ) (w t : Text)
    → All (λ c. c ≢ sep) (c ∷ w)
    → tokens sep ((c ∷ w) ++ (sep ∷ t)) ≡ (c ∷ w) ∷ tokens sep t
unfolding tokens
tokens-word sep c [] t h = rw (==_ne c sep h.0, ==_self sep)
tokens-word sep c (d ∷ w) t h = rw (==_ne c sep h.0, tokens-word sep d w t h.1, ==_ne d sep h.1.0)

-- The tokens of joined words are the words.
pub tokens-join : (sep : ℕ) (ws : List Text) → All (IsWord sep) ws → tokens sep (join sep ws) ≡ ws
unfolding join tokens
tokens-join sep [] h = refl
tokens-join sep ([] ∷ ws) h = absurd (h.0.0 refl)
tokens-join sep ((c ∷ w) ∷ ws) h =
    tokens-word sep c w (join sep ws) h.0.1 ∙ ap (λ l. (c ∷ w) ∷ l) (tokens-join sep ws h.1)

-- A separator in front changes nothing.
pub tokens-sep : (sep : ℕ) (t : Text) → tokens sep (sep ∷ t) ≡ tokens sep t
unfolding tokens
tokens-sep sep t = rw (==_self sep)

All-attach :
    (P : Text → Type 0) (sep c : ℕ) (t : Text) (ws : List Text)
    → All P ws
    → P (c ∷ [])
    → ((w : Text) → P w → P (c ∷ w))
    → All P (attach sep c t ws)
All-attach P sep c [] ws h one more = (one, h)
All-attach P sep c (d ∷ t) ws h one more = elim (Bool-cases (d == sep)) [
  | inl e ↦ rw e (one, h)
  | inr e ↦ rw e (extended ws h)
]
  where
    extended : (ws : List Text) → All P ws → All P (extend c ws)
    extended [] h = (one, tt)
    extended (w ∷ ws) h = (more w h.0, h.1)

-- Every token is a word.
pub tokens-IsWord : (sep : ℕ) (t : Text) → All (IsWord sep) (tokens sep t)
unfolding tokens
tokens-IsWord sep [] = tt
tokens-IsWord sep (c ∷ t) = elim (Bool-cases (c == sep)) [
  | inl e ↦ rw e (tokens-IsWord sep t)
  | inr e ↦
      let ne = ne_of_==_false c sep e in
      rw e (
        All-attach (IsWord sep) sep c t (tokens sep t) (tokens-IsWord sep t) (λ q. cc, (ne, tt))
          (λ w h. (λ q. cc, (ne, h.1))))
]

length-attach :
    (sep c : ℕ) (t : Text) (ws : List Text) → length (attach sep c t ws) ≤ suc (length ws)
length-attach sep c [] ws = omega arith
length-attach sep c (d ∷ t) [] = ground arith
length-attach sep c (d ∷ t) (w ∷ ws) = ground arith

-- A text has no more tokens than bytes.
pub length-tokens : (sep : ℕ) (t : Text) → length (tokens sep t) ≤ length t
unfolding tokens
length-tokens sep [] = omega arith
length-tokens sep (c ∷ t) = elim (Bool-cases (c == sep)) [
  | inl e ↦ rw e (omega (arith, length-tokens sep t))
  | inr e ↦ rw e (omega (arith, length-tokens sep t, length-attach sep c t (tokens sep t)))
]

All-weaken : (n : ℕ) (ws : List Text) → All (λ w. length w ≤ n) ws → All (λ w. length w ≤ suc n) ws
All-weaken n [] h = tt
All-weaken n (w ∷ ws) h = (omega (arith, h.0), All-weaken n ws h.1)

short-attach :
    (sep c n : ℕ) (t : Text) (ws : List Text)
    → All (λ w. length w ≤ n) ws
    → All (λ w. length w ≤ suc n) (attach sep c t ws)
short-attach sep c n [] ws h = (omega arith, All-weaken n ws h)
short-attach sep c n (d ∷ t) ws h = elim (Bool-cases (d == sep)) [
  | inl e ↦ rw e (omega arith, All-weaken n ws h)
  | inr e ↦ rw e (extended ws h)
]
  where
    extended :
        (ws : List Text) → All (λ w. length w ≤ n) ws → All (λ w. length w ≤ suc n) (extend c ws)
    extended [] h = (omega arith, tt)
    extended (w ∷ ws) h = (omega (arith, h.0), All-weaken n ws h.1)

-- No token is longer than the text.
pub tokens-short : (sep : ℕ) (t : Text) → All (λ w. length w ≤ length t) (tokens sep t)
unfolding tokens
tokens-short sep [] = tt
tokens-short sep (c ∷ t) = elim (Bool-cases (c == sep)) [
  | inl e ↦ rw e (All-weaken (length t) (tokens sep t) (tokens-short sep t))
  | inr e ↦ rw e (short-attach sep c (length t) t (tokens sep t) (tokens-short sep t))
]

-- The tokens of joined words before a text, and of a text with a separator behind it.
pub tokens-join_append :
    (sep : ℕ) (ws : List Text) (t : Text)
    → All (IsWord sep) ws
    → tokens sep (join sep ws ++ t) ≡ ws ++ tokens sep t
unfolding join tokens
tokens-join_append sep [] t h = refl
tokens-join_append sep ([] ∷ ws) t h = absurd (h.0.0 refl)
tokens-join_append sep ((c ∷ w) ∷ ws) t h =
    ap (tokens sep) (append_assoc (c ∷ w) (sep ∷ join sep ws) t)
    ∙ tokens-word sep c w (join sep ws ++ t) h.0.1
    ∙ ap (λ l. (c ∷ w) ∷ l) (tokens-join_append sep ws t h.1)

pub tokens-snoc_sep : (sep : ℕ) (t : Text) → tokens sep (t ++ (sep ∷ [])) ≡ tokens sep t
unfolding tokens
tokens-snoc_sep sep [] = rw (==_self sep)
tokens-snoc_sep sep (c ∷ []) = elim (Bool-cases (c == sep)) [
  | inl e ↦ rw (e, ==_self sep)
  | inr e ↦ rw (e, ==_self sep)
]
tokens-snoc_sep sep (c ∷ d ∷ t) = rw (tokens-snoc_sep sep (d ∷ t))
