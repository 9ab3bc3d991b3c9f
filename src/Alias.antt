-- ===== src/Alias.antt =====
-- The alias table of impl/ish.c: func_alias, func_unalias and func_aliasing. An argument that should
-- be there and is NULL is a fault, also where the table is empty and the code would not read it.
pub mod Update
pub mod Invariant
pub mod Meaning
pub mod Keeps
use operating_system_profoli.Base.{
  ℕ, zero, suc, ◌+◌, ◌-◌, ◌≡◌, Bool, true, false, Option, none, some, List, [], ◌∷◌, Text, codes,
  ◌==◌, if◌then◌else◌, write, slice, shift_down,
}
use operating_system_profoli.Command.{
  Command, command, Redirects, Commands, Args, z_cmd, pa, n_args,
}
use operating_system_profoli.Shell.{
  Shell, Cmd, Alias, aliasing, too_few_arguments, too_many_arguments, limit_reached, ◌>>=◌, ◌>>◌,
  pure, undefined, say, complain, strcpy_word, some_or_fault, word_limit,
}
use operating_system_profoli.Table.{find}

-- The entries of the table, in order.
abbrev pub aliases : Shell → List Alias
aliases s = slice s.arr_aliases 0 s.num_alias

-- Where the key stands in the table.
abbrev pub find_alias : Text → Shell → Option ℕ
find_alias k s = find (λ i. (s.arr_aliases i).from) k 0 s.num_alias

-- The loop of `alias` with no argument.
print_aliases : (ℕ → Alias) → (i rounds : ℕ) → Cmd (Unit {0})
print_aliases a i zero = pure tt
print_aliases a i (suc rounds) = do
  say (aliasing (a i).from (a i).to)
  print_aliases a (suc i) rounds

-- `alias name`
show_alias : Text → Cmd (Unit {0})
show_alias k s = elim (find_alias k s) [
  | some i ↦ say (aliasing (s.arr_aliases i).from (s.arr_aliases i).to) s
  | none ↦ pure tt s
]

-- `alias name text`
pub set_alias : Text → Text → Cmd (Unit {0})
set_alias k v s = elim (find_alias k s) [
  | some i ↦
      (do
        to' ← strcpy_word v
        λ s. pure tt (record s {
          arr_aliases = write s.arr_aliases i (record (s.arr_aliases i) { to = to' });
        }))
        s
  | none ↦
      (if s.num_alias == word_limit then complain (limit_reached (codes "aliasing")) else do
        from' ← strcpy_word k
        to' ← strcpy_word v
        λ s. pure tt (record s {
          arr_aliases = write s.arr_aliases s.num_alias (record { from = from'; to = to' });
          num_alias = s.num_alias + 1;
        }))
        s
]

unfoldable pub func_alias : Command → Cmd (Unit {0})
unfolding print_aliases show_alias set_alias
func_alias pc s =
    if n_args pc == 1
    then print_aliases s.arr_aliases 0 s.num_alias s
    else if n_args pc == 2
    then (do k ← some_or_fault ((pa pc).az_args 1); show_alias k) s
    else if n_args pc == 3
    then (do
      k ← some_or_fault ((pa pc).az_args 1)
      v ← some_or_fault ((pa pc).az_args 2)
      set_alias k v)
        s
    else complain (too_many_arguments (codes "aliasing")) s

-- The hit is taken out by moving the later entries down.
remove_alias : Text → Cmd (Unit {0})
remove_alias k s = elim (find_alias k s) [
  | some i ↦ pure tt (record s {
    arr_aliases = shift_down s.arr_aliases i (s.num_alias - suc i);
    num_alias = s.num_alias - 1;
  })
  | none ↦ pure tt s
]

unfoldable pub func_unalias : Command → Cmd (Unit {0})
unfolding remove_alias
func_unalias pc =
    if n_args pc == 1
    then complain (too_few_arguments (codes "unaliasing"))
    else if n_args pc == 2
    then (do k ← some_or_fault ((pa pc).az_args 1); remove_alias k)
    else complain (too_many_arguments (codes "unaliasing"))

-- The command with another name, its arguments as they were.
abbrev pub with_name : Text → Command → Command
with_name t (command z b a r n) = command t b a r n

-- The name of the command is replaced by what it is an alias of.
unfoldable pub func_aliasing : Command → Cmd Command
func_aliasing pc s = elim (find_alias (z_cmd pc) s) [
  | some i ↦ (do t ← strcpy_word (s.arr_aliases i).to; pure (with_name t pc)) s
  | none ↦ pure pc s
]
