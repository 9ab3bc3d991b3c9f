-- ===== src/Command/Arguments.antt =====
-- The argument vectors of impl/command.c. Allocation succeeds; `none` is an access outside the
-- block behind `azArgs`, or an assertion that fails.
pub mod Growth
use operating_system_profoli.Base.{
  ℕ, zero, suc, ◌+◌, ◌-◌, ◌*◌, Bool, true, false, Option, none, some, List, [], ◌∷◌, ◌++◌, Text,
  codes, write, leb, ltb, ◌==◌, if◌then◌else◌,
}
use operating_system_profoli.Command.{Args}

-- `sizeof(char *)`
abbrev pub pointer_size : ℕ
pointer_size = 8

abbrev pub default_maxargs : ℕ
default_maxargs = 8

infixl 5 ◌>>=◌
abbrev pub ◌>>=◌ : {A B : Type 0} → Option A → (A → Option B) → Option B
none >>= f = none
some a >>= f = f a

-- `pa->azArgs[i] = value`
abbrev pub write_arg : Args → ℕ → Option Text → Option Args
write_arg pa i value =
    if leb ((i + 1) * pointer_size) pa.bytes
    then some (record pa { az_args = write pa.az_args i value })
    else none

-- The block is cleared, so that slot 0 is NULL when it is tested, and stays NULL until
-- setArgument writes it.
unfoldable pub create_arguments : Args
create_arguments = record {
  n_args = 1;
  n_max_args = default_maxargs;
  az_args = λ _. none;
  bytes = (default_maxargs + 1) * pointer_size;
}

unfoldable pub set_argument : Args → ℕ → Option Text → Option Args
set_argument pa n value = if leb n pa.n_max_args then write_arg pa n value else none

-- The entry, which may be NULL.
unfoldable pub get_argument : Args → ℕ → Option (Option Text)
get_argument pa n =
    if leb n pa.n_max_args
    then (if leb ((n + 1) * pointer_size) pa.bytes then some (pa.az_args n) else none)
    else none

-- `realloc` to twice the entries, which asks for one byte more, not for one entry more.
grow : Args → Option Args
grow pa =
    if pa.n_args == pa.n_max_args
    then some (record pa {
      n_max_args = pa.n_max_args * 2;
      bytes = pointer_size * (pa.n_max_args * 2) + 1;
    })
    else if ltb pa.n_args pa.n_max_args
    then some pa
    else none

unfoldable pub append_argument : Args → Text → Option Args
unfolding grow
append_argument pa z_arg = do
  pa ← grow pa
  pa ← write_arg pa pa.n_args (some z_arg)
  write_arg (record pa { n_args = pa.n_args + 1 }) (pa.n_args + 1) none

-- The entries from `i` on, each with a blank behind it.
unfoldable pub print_from : (ℕ → Option Text) → (i rounds : ℕ) → Option Text
print_from a i zero = some []
print_from a i (suc rounds) = do
  t ← a i
  rest ← print_from a (suc i) rounds
  some (t ++ (codes " " ++ rest))

-- The arguments behind the name, and the assertion that NULL ends them.
unfoldable pub print_arguments : Args → Option Text
unfolding print_from
print_arguments pa = do
  text ← print_from pa.az_args 1 (pa.n_args - 1)
  elim (pa.az_args pa.n_args) [ none ↦ some text | some _ ↦ none ]

-- The parser's loop over the parameters of a command.
unfoldable pub append_all : Args → List Text → Option Args
append_all pa [] = some pa
append_all pa (t ∷ ts) = append_argument pa t >>= λ pa'. append_all pa' ts
