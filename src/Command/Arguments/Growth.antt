-- ===== src/Command/Arguments/Growth.antt =====
-- How many arguments an argument vector holds.
use mathlib.Core.Path.{ap₂}
use operating_system_profoli.Base.{
  ℕ, suc, ◌+◌, ◌≤◌, ◌<◌, ◌≡◌, refl, ◌∙◌, ap, ◌⊎◌, inl, inr, none, some, List, [], ◌∷◌, Text, write,
  write_self, write_ne, ◌==◌, slice, length, map, arith, Bool-cases, ==_iff, ne_of_==_false,
}
use operating_system_profoli.Command.{Args}
use operating_system_profoli.Command.Arguments.{create_arguments, append_argument, append_all}

-- The vector as it was created, or after it grew once.
pub record IsArgs (pa : Args) : Type 0 where
  pub sized :
      ((pa.n_max_args ≡ 8) × (pa.bytes ≡ 72) × (pa.n_args ≤ 8))
      ⊎ ((pa.n_max_args ≡ 16) × (pa.bytes ≡ 129) × (pa.n_args ≤ 15))

-- The vector with one more argument, in a block of this size.
abbrev pushed : Args → Text → (n_max bytes : ℕ) → Args
pushed pa t m b = record {
  n_args = pa.n_args + 1;
  n_max_args = m;
  az_args = write (write pa.az_args pa.n_args (some t)) (pa.n_args + 1) none;
  bytes = b;
}

-- What one append does, whatever the size afterwards.
abbrev pub Appends : Args → Text → Type 0
Appends pa t =
    (pa' : Args) × (append_argument pa t ≡ some pa')
    × IsArgs pa'
    × (pa'.n_args ≡ pa.n_args + 1)
    × (pa'.az_args ≡ write (write pa.az_args pa.n_args (some t)) (pa.n_args + 1) none)

-- One more argument, while there are fewer than 15 entries.
append_argument-Appends : (pa : Args) (t : Text) → IsArgs pa → pa.n_args < 15 → Appends pa t
unfolding append_argument
append_argument-Appends pa t is few = elim is.sized [
  | inl small ↦ elim (Bool-cases (pa.n_args == 8)) [
    | inl e ↦ (pushed pa t 16 129, ground arith, record { sized = inr (ground arith) }, refl, refl)
    | inr e ↦ (pushed pa t 8 72, ground arith, record { sized = inl (ground arith) }, refl, refl)
  ]
  | inr large ↦
      (pushed pa t 16 129, ground arith, record { sized = inr (ground arith) }, refl, refl)
]

-- The 16th entry does not fit: the NULL behind it lies outside the block.
append_argument-full :
    (pa : Args) (t : Text) → IsArgs pa → pa.n_args ≡ 15 → append_argument pa t ≡ none
unfolding append_argument
append_argument-full pa t is full = elim is.sized [
  | inl small ↦ absurd (omega arith)
  | inr large ↦ ground arith
]

-- The vector holds the list from this entry on, NULL ends it, and the entries below are as before.
pub record Holds (pa pa' : Args) (ts : List Text) : Type 0 where
  pub count : pa'.n_args ≡ pa.n_args + length ts
  pub entries : slice pa'.az_args pa.n_args (length ts) ≡ map some ts
  pub ended : pa'.az_args pa'.n_args ≡ none
  pub below : (k : ℕ) → k < pa.n_args → pa'.az_args k ≡ pa.az_args k

append_all-Holds :
    (pa : Args) (ts : List Text)
    → IsArgs pa
    → pa.az_args pa.n_args ≡ none
    → pa.n_args + length ts ≤ 15
    → (pa' : Args) × (append_all pa ts ≡ some pa') × Holds pa pa' ts × IsArgs pa'
unfolding append_all slice
append_all-Holds pa [] is ended small = (
  pa,
  refl,
  record { count = omega arith; entries = refl; ended = ended; below = λ k h. refl },
  is,
)
append_all-Holds pa (t ∷ ts) is ended small =
    let (one, run, is', count, written) = append_argument-Appends pa t is (omega arith) in
    let ended' : one.az_args one.n_args ≡ none =
      rw (written, count) (write_self (write pa.az_args pa.n_args (some t)) (pa.n_args + 1) none) in
    let (last, run', holds, is'') = append_all-Holds one ts is' ended' (omega arith) in
    let old = λ (k : ℕ) (h : k < pa.n_args). keep k h holds count written in
    (
      last,
      rw run run',
      record {
        count = omega (arith, holds.count, count);
        entries = ap₂ ◌∷◌ (first holds count written) (rest holds count);
        ended = holds.ended;
        below = old;
      },
      is'',
    )
  where
    keep :
        {one last : Args} (k : ℕ)
        → k < pa.n_args
        → Holds one last ts
        → one.n_args ≡ pa.n_args + 1
        → one.az_args ≡ write (write pa.az_args pa.n_args (some t)) (pa.n_args + 1) none
        → last.az_args k ≡ pa.az_args k
    keep k h holds count written =
        holds.below k (omega (arith, count))
        ∙ rw written (
            write_ne (write pa.az_args pa.n_args (some t)) (pa.n_args + 1) none k (λ e. omega arith)
            ∙ write_ne pa.az_args pa.n_args (some t) k (λ e. omega arith))

    first :
        {one last : Args}
        → Holds one last ts
        → one.n_args ≡ pa.n_args + 1
        → one.az_args ≡ write (write pa.az_args pa.n_args (some t)) (pa.n_args + 1) none
        → last.az_args pa.n_args ≡ some t
    first holds count written =
        holds.below pa.n_args (omega (arith, count))
        ∙ rw written (
            write_ne (write pa.az_args pa.n_args (some t)) (pa.n_args + 1) none pa.n_args
              (λ e. omega arith)
            ∙ write_self pa.az_args pa.n_args (some t))

    rest :
        {one last : Args}
        → Holds one last ts
        → one.n_args ≡ pa.n_args + 1
        → slice last.az_args (suc pa.n_args) (length ts) ≡ map some ts
    rest {one} {last} holds count =
        let next : suc pa.n_args ≡ one.n_args = omega (arith, count) in
        ap (λ i. slice last.az_args i (length ts)) next ∙ holds.entries

append_all-full :
    (pa : Args) (ts : List Text)
    → IsArgs pa
    → pa.n_args ≤ 15
    → 15 < pa.n_args + length ts
    → append_all pa ts ≡ none
unfolding append_all
append_all-full pa [] is low high = absurd (omega arith)
append_all-full pa (t ∷ ts) is low high = elim (Bool-cases (pa.n_args == 15)) [
  | inl e ↦ rw (append_argument-full pa t is ((==_iff pa.n_args 15).0 e))
  | inr e ↦
      let below : pa.n_args < 15 = omega (arith, ne_of_==_false pa.n_args 15 e) in
      let (one, run, is', count, written) = append_argument-Appends pa t is below in
      rw run (append_all-full one ts is' (omega (arith, count)) (omega (arith, count)))
]

create_arguments-IsArgs : IsArgs create_arguments
unfolding create_arguments
create_arguments-IsArgs = record { sized = inl (omega arith) }

pub append_all-IsArgs :
    (ts : List Text)
    → length ts ≤ 14
    → (pa : Args) × (append_all create_arguments ts ≡ some pa)
      × Holds create_arguments pa ts
      × IsArgs pa
append_all-IsArgs ts h =
    append_all-Holds create_arguments ts create_arguments-IsArgs (unfold create_arguments in refl)
      (unfold create_arguments in omega arith)

-- A fresh argument vector takes up to 14 parameters: slot 0 stays NULL for the name, the parameters
-- stand behind it in order, and NULL ends them. With the 15th parameter appendArgument writes
-- outside its block.
pub append_all-create_arguments :
    (ts : List Text)
    → (length ts ≤ 14
        → (pa : Args) × (append_all create_arguments ts ≡ some pa) × Holds create_arguments pa ts)
      × (14 < length ts → append_all create_arguments ts ≡ none)
append_all-create_arguments ts = (
  λ h. let (pa, run, holds, _) = append_all-IsArgs ts h in (pa, run, holds),
  λ h.
      append_all-full create_arguments ts create_arguments-IsArgs
        (unfold create_arguments in omega arith) (unfold create_arguments in omega arith),
)
