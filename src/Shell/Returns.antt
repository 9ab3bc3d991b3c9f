-- ===== src/Shell/Returns.antt =====
-- Total correctness of a run: it returns, and the result and the state satisfy a postcondition.
use operating_system_profoli.Base.{ℕ, ◌<◌, ◌≤◌, ◌≡◌, refl, true, some, Text}
use operating_system_profoli.Command.{Command, pa, n_args}
use operating_system_profoli.Shell.{
  Shell, Outcome, done, exits, blocked, fault, Cmd, and_then, fits,
}

abbrev pub Returns : {A : Type 0} → (A → Shell → Type 0) → Outcome A → Type 0
Returns P (done a s) = P a s
Returns P (exits n s) = ⊥
Returns P (blocked s) = ⊥
Returns P fault = ⊥

pub Returns-and_then :
    {A B : Type 0} (P : A → Shell → Type 0) (Q : B → Shell → Type 0) (m : Outcome A) (k : A → Cmd B)
    → Returns P m
    → ((a : A) (s : Shell) → P a s → Returns Q (k a s))
    → Returns Q (and_then m k)
Returns-and_then P Q (done a s) k p next = next a s p
Returns-and_then P Q (exits n s) k p next = absurd p
Returns-and_then P Q (blocked s) k p next = absurd p
Returns-and_then P Q fault k p next = absurd p

pub Returns-mono :
    {A : Type 0} (P Q : A → Shell → Type 0) (m : Outcome A)
    → Returns P m
    → ((a : A) (s : Shell) → P a s → Q a s)
    → Returns Q m
Returns-mono P Q (done a s) p weaken = weaken a s p
Returns-mono P Q (exits n s) p weaken = absurd p
Returns-mono P Q (blocked s) p weaken = absurd p
Returns-mono P Q fault p weaken = absurd p

-- A run that returns, with what it returns.
pub Returns-done :
    {A : Type 0} (P : A → Shell → Type 0) (m : Outcome A)
    → Returns P m
    → (a : A) × (s : Shell) × (m ≡ done a s) × P a s
Returns-done P (done a s) p = (a, s, refl, p)
Returns-done P (exits n s) p = absurd p
Returns-done P (blocked s) p = absurd p
Returns-done P fault p = absurd p

-- The arguments behind the name are there, and fit a buffer of WORD_SIZE bytes.
abbrev pub ArgsFit : Command → Type 0
ArgsFit pc =
    (i : ℕ) → 1 ≤ i → i < n_args pc → (t : Text) × ((pa pc).az_args i ≡ some t) × (fits t ≡ true)

-- What holds of a run if it returns.
abbrev pub IfReturns : {A : Type 0} → (A → Shell → Type 0) → Outcome A → Type 0
IfReturns P (done a s) = P a s
IfReturns P (exits n s) = Unit {0}
IfReturns P (blocked s) = Unit {0}
IfReturns P fault = Unit {0}

pub IfReturns-and_then :
    {A B : Type 0} (P : A → Shell → Type 0) (Q : B → Shell → Type 0) (m : Outcome A) (k : A → Cmd B)
    → IfReturns P m
    → ((a : A) (s : Shell) → P a s → IfReturns Q (k a s))
    → IfReturns Q (and_then m k)
IfReturns-and_then P Q (done a s) k p next = next a s p
IfReturns-and_then P Q (exits n s) k p next = tt
IfReturns-and_then P Q (blocked s) k p next = tt
IfReturns-and_then P Q fault k p next = tt

pub Returns-IfReturns :
    {A : Type 0} (P Q : A → Shell → Type 0) (m : Outcome A)
    → Returns P m
    → IfReturns Q m
    → Returns Q m
Returns-IfReturns P Q (done a s) p q = q
Returns-IfReturns P Q (exits n s) p q = absurd p
Returns-IfReturns P Q (blocked s) p q = absurd p
Returns-IfReturns P Q fault p q = absurd p

pub IfReturns-mono :
    {A : Type 0} (P Q : A → Shell → Type 0) (m : Outcome A)
    → IfReturns P m
    → ((a : A) (s : Shell) → P a s → Q a s)
    → IfReturns Q m
IfReturns-mono P Q (done a s) p weaken = weaken a s p
IfReturns-mono P Q (exits n s) p weaken = tt
IfReturns-mono P Q (blocked s) p weaken = tt
IfReturns-mono P Q fault p weaken = tt
