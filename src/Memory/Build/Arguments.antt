-- ===== src/Memory/Build/Arguments.antt =====
-- The blocks of an argument vector as it grows.
use mathlib.Core.Option
use operating_system_profoli.Base.{
  ℕ, ◌≡◌, refl, ap, inl, inr, Option, none, some, List, [], ◌∷◌, ◌++◌, Text, ◌==◌, set, arith,
  Bool-cases,
}
use operating_system_profoli.Command.{Args}
use operating_system_profoli.Command.Arguments as ArgumentVector
use operating_system_profoli.Memory.{occurrences, use_block, free_unless_null, malloc}
use operating_system_profoli.Memory.Owned.{Same, Makes, occurrences-append, Frees-free, head-live}
use operating_system_profoli.Memory.Blocks.{HeapArgs, present, args_blocks}
use operating_system_profoli.Memory.Build.{
  create_arguments, set_argument, grown, append_argument, build_words,
}

-- The vector of parameters, before the short name is set.
abbrev pub IsVector : Args → HeapArgs → Type 0
IsVector args pa = (pa.args ≡ args) × ((ss : List (Option ℕ)) × (pa.strings ≡ none ∷ ss))

present-append :
    (ss : List (Option ℕ)) (s : ℕ) → present (ss ++ (some s ∷ [])) ≡ present ss ++ (s ∷ [])
present-append [] s = refl
present-append (none ∷ ss) s = present-append ss s
present-append (some x ∷ ss) s = ap (λ l. x ∷ l) (present-append ss s)

-- A block that is owned is in use.
pub owned-live :
    (b : ℕ) (live rest : List ℕ) → Same live (b ∷ rest) → use_block b live ≡ some (tt, live)
unfolding use_block
owned-live b live rest h = rw (head-live b live rest h) refl

-- A run that succeeds, in its two parts.
pub >>=-some :
    {A B : Type 0} (o : Option A) (f : A → Option B) (b : B)
    → ArgumentVector.◌>>=◌ o f ≡ some b
    → (a : A) × (o ≡ some a) × (f a ≡ some b)
>>=-some none f b h = cc
>>=-some (some a) f b h = (a, refl, h)

module _ (alloc : List ℕ → ℕ) where
  pub create_arguments-Makes :
      (live rest : List ℕ)
      → Same live rest
      → Makes
          (IsVector ArgumentVector.create_arguments)
          args_blocks
          rest
          (create_arguments alloc live)
  unfolding create_arguments malloc occurrences
  create_arguments-Makes live rest h = (_, _, refl, (refl, ([], refl)), λ c. omega (arith, h c))

  grown-Makes :
      (pa : HeapArgs) (live rest : List ℕ)
      → Same live (pa.array ∷ rest)
      → Makes (λ _. Unit {0}) (λ array. array ∷ []) rest (grown alloc pa live)
  unfolding grown malloc occurrences
  grown-Makes pa live rest h = elim (Bool-cases (pa.args.n_args == pa.args.n_max_args)) [
    | inl e ↦
        let (less, run, left) = Frees-free pa.array live rest h in
        (alloc less, alloc less ∷ less, rw (e, run) refl, tt, λ c. omega (arith, left c))
    | inr e ↦ (pa.array, live, rw (e, owned-live pa.array live rest h) refl, tt, h)
  ]

  append_argument-Makes :
      (pa : HeapArgs) (w : Text) (args' : Args) (live rest : List ℕ)
      → IsVector pa.args pa
      → ArgumentVector.append_argument pa.args w ≡ some args'
      → Same live (args_blocks pa ++ rest)
      → Makes (IsVector args') args_blocks rest (append_argument alloc pa w live)
  unfolding append_argument malloc occurrences
  append_argument-Makes pa w args' live rest (_, (ss, start)) run h =
      let (array, less, grew, _, left) =
        grown-Makes pa live (pa.block ∷ (present pa.strings ++ rest)) (λ c. omega (arith, h c)) in
      (
        record {
          args = args';
          block = pa.block;
          array = array;
          strings = pa.strings ++ (some (alloc less) ∷ []);
        },
        alloc less ∷ less,
        rw (owned-live pa.block live (pa.array ∷ (present pa.strings ++ rest)) h, grew, run) refl,
        (refl, (ss ++ (some (alloc less) ∷ []), ap (λ l. l ++ (some (alloc less) ∷ [])) start)),
        λ c. rw (present-append pa.strings (alloc less)) (
            omega (
              arith,
              left c,
              occurrences-append c (present pa.strings ++ (alloc less ∷ [])) rest,
              occurrences-append c (present pa.strings) (alloc less ∷ []),
              occurrences-append c (present pa.strings) rest,
            )),
      )

  pub build_words-Makes :
      (pa : HeapArgs) (ws : List Text) (args' : Args) (live rest : List ℕ)
      → IsVector pa.args pa
      → ArgumentVector.append_all pa.args ws ≡ some args'
      → Same live (args_blocks pa ++ rest)
      → Makes (IsVector args') args_blocks rest (build_words alloc pa ws live)
  unfolding build_words malloc occurrences ArgumentVector.append_all
  build_words-Makes pa [] args' live rest is run h =
      (pa, live, refl, (Option.some-injective pa.args args' run, is.1), h)
  build_words-Makes pa (w ∷ ws) args' live rest is run h =
      let (mid, first, later) =
        >>=-some (ArgumentVector.append_argument pa.args w) (λ a. ArgumentVector.append_all a ws)
          args' run in
      let word = alloc live in
      let (pa', less, made, (e, start), left) =
        append_argument-Makes pa w mid (word ∷ live) (word ∷ rest) is first (λ c. omega (
          arith,
          h c,
          occurrences-append c (present pa.strings) rest,
          occurrences-append c (present pa.strings) (word ∷ rest),
        )) in
      let (fewer, freed, kept) = Frees-free word less (args_blocks pa' ++ rest) (λ c. omega (
        arith,
        left c,
        occurrences-append c (present pa'.strings) rest,
        occurrences-append c (present pa'.strings) (word ∷ rest),
      )) in
      let (pa'', live', made', is', left') =
        build_words-Makes pa' ws args' fewer rest (refl, start) (rw e later) kept in
      (pa'', live', rw (made, freed, made'), is', left')

  -- The name is put in front of the parameters.
  pub set_argument-Makes :
      (pa : HeapArgs) (z : Text) (args args' : Args) (live rest : List ℕ)
      → IsVector args pa
      → ArgumentVector.set_argument args 0 (some z) ≡ some args'
      → Same live (args_blocks pa ++ rest)
      → Makes (λ pa'. pa'.args ≡ args') args_blocks rest (set_argument alloc pa 0 z live)
  unfolding set_argument malloc occurrences free_unless_null
  set_argument-Makes pa z args args' live rest (e, (ss, start)) run h =
      let slots : present pa.strings ≡ present ss = ap present start in
      let set_run : ArgumentVector.set_argument pa.args 0 (some z) ≡ some args' = rw e run in
      (
        record pa { args = args'; strings = set pa.strings 0 (some (alloc live)) },
        alloc live ∷ live,
        rw
            (
              owned-live pa.block live (pa.array ∷ (present pa.strings ++ rest)) h,
              owned-live pa.array live (pa.block ∷ (present pa.strings ++ rest))
                  (λ c. omega (arith, h c)),
              set_run,
              start,
            )
            refl,
        refl,
        λ c. rw start (omega (arith, h c, ap (λ l. occurrences c (l ++ rest)) slots)),
      )
