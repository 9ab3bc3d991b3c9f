-- ===== src/Env.antt =====
-- The environment table of impl/ish.c: func_setenv, func_unsetenv and EnvGetVars.
pub mod Update
pub mod Vars
pub mod Keeps
use operating_system_profoli.Base.{
  ℕ, zero, suc, ◌+◌, ◌-◌, ◌≡◌, Bool, true, false, Option, none, some, List, [], ◌∷◌, ◌++◌, Text,
  codes, ◌==◌, ltb, if◌then◌else◌, write, slice, shift_down,
}
use operating_system_profoli.Command.{Command, pa, n_args}
use operating_system_profoli.Shell.{
  Shell, Cmd, UnixEnv, env_line, too_few_arguments, too_many_arguments, limit_reached, ◌>>=◌, ◌>>◌,
  pure, undefined, say, complain, strcpy_word, some_or_fault, word_limit,
}
use operating_system_profoli.Table.{find}

-- The entries of the table, in order.
abbrev pub unix_envs : Shell → List UnixEnv
unix_envs s = slice s.unix_env 0 s.num_env

-- Where the key stands in the table.
abbrev pub find_env : Text → Shell → Option ℕ
find_env k s = find (λ i. (s.unix_env i).key) k 0 s.num_env

-- The loop of `setenv` with no argument.
print_env : (ℕ → UnixEnv) → (i rounds : ℕ) → Cmd (Unit {0})
print_env a i zero = pure tt
print_env a i (suc rounds) = do say (env_line (a i).key (a i).value); print_env a (suc i) rounds

-- The entry behind the others. Outside the array it cannot be written.
append_env : Text → Text → Cmd (Unit {0})
append_env k v s =
    if ltb s.num_env word_limit
    then (do
      key' ← strcpy_word k
      value' ← strcpy_word v
      λ s. pure tt (record s {
        unix_env = write s.unix_env s.num_env (record { key = key'; value = value' });
        num_env = s.num_env + 1;
      }))
        s
    else undefined s

-- `setenv name`: there is no test against WORD_LIMIT here.
pub clear_env : Text → Cmd (Unit {0})
unfolding append_env
clear_env k s = elim (find_env k s) [
  | some i ↦
      pure tt (record s { unix_env = write s.unix_env i (record (s.unix_env i) { value = [] }) })
  | none ↦ append_env k [] s
]

-- `setenv name text`
pub set_env : Text → Text → Cmd (Unit {0})
unfolding append_env
set_env k v s = elim (find_env k s) [
  | some i ↦
      (do
        value' ← strcpy_word v
        λ s.
            pure tt (record s {
              unix_env = write s.unix_env i (record (s.unix_env i) { value = value' });
            }))
        s
  | none ↦
      if s.num_env == word_limit
      then complain (limit_reached (codes "setenv")) s
      else append_env k v s
]

unfoldable pub func_setenv : Command → Cmd (Unit {0})
unfolding print_env clear_env set_env
func_setenv pc s =
    if n_args pc == 1
    then print_env s.unix_env 0 s.num_env s
    else if n_args pc == 2
    then (do k ← some_or_fault ((pa pc).az_args 1); clear_env k) s
    else if n_args pc == 3
    then (do
      k ← some_or_fault ((pa pc).az_args 1)
      v ← some_or_fault ((pa pc).az_args 2)
      set_env k v)
        s
    else complain (too_many_arguments (codes "setenv")) s

-- The hit is taken out by moving the later entries down.
pub remove_env : Text → Cmd (Unit {0})
remove_env k s = elim (find_env k s) [
  | some i ↦
      pure tt (record s {
        unix_env = shift_down s.unix_env i (s.num_env - suc i);
        num_env = s.num_env - 1;
      })
  | none ↦ pure tt s
]

unfoldable pub func_unsetenv : Command → Cmd (Unit {0})
unfolding remove_env
func_unsetenv pc =
    if n_args pc == 1
    then complain (too_few_arguments (codes "unsetenv"))
    else if n_args pc == 2
    then (do k ← some_or_fault ((pa pc).az_args 1); remove_env k)
    else complain (too_many_arguments (codes "unsetenv"))

-- The loop of EnvGetVars: each line is built in a buffer of WORD_SIZE bytes, by strcpy and two
-- times strcat, and the value passes through another one. Each copy may run over.
env_get_vars_from : (ℕ → UnixEnv) → (i rounds : ℕ) → Cmd (List Text)
env_get_vars_from a i zero = pure []
env_get_vars_from a i (suc rounds) = do
  name ← strcpy_word (a i).key
  name' ← strcpy_word (name ++ codes "=")
  val ← strcpy_word (a i).value
  line ← strcpy_word (name' ++ val)
  rest ← env_get_vars_from a (suc i) rounds
  pure (line ∷ rest)

-- The lines `key=value` for execve, without the NULL behind them.
unfoldable pub env_get_vars : Cmd (List Text)
unfolding env_get_vars_from
env_get_vars s = env_get_vars_from s.unix_env 0 s.num_env s
