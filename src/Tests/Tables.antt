-- ===== src/Tests/Tables.antt =====
-- Examples for the alias table, the environment and the arguments of a command.
use operating_system_profoli.Base.{
  ℕ, zero, suc, ◌≡◌, refl, inr, none, some, List, [], ◌∷◌, Text, codes, map, arith, if◌then◌else◌,
  str_eq, slice,
}
use operating_system_profoli.Command.{Command, pa, n_args}
use operating_system_profoli.Command.Arguments.{create_arguments, append_all}
use operating_system_profoli.Command.Arguments.Growth.{append_all-create_arguments}
use operating_system_profoli.Shell.{
  Shell, UnixEnv, done, fault, complain, limit_reached, word_limit,
}
use operating_system_profoli.Shell.Returns.{Returns, ArgsFit}
use operating_system_profoli.Table.{find, insert, delete}
use operating_system_profoli.Alias.{func_alias, func_unalias, func_aliasing, with_name}
use operating_system_profoli.Alias.Update.{AliasTable}
use operating_system_profoli.Alias.Invariant.{Keeps, func_alias-AliasTable, func_unalias-AliasTable}
use operating_system_profoli.Alias.Meaning.{
  by_table, func_alias-func_aliasing, func_unalias-func_aliasing,
}
use operating_system_profoli.Env.{func_setenv, func_unsetenv, env_get_vars, unix_envs}
use operating_system_profoli.Env.Update.{
  binding, Inserts, func_setenv-insert, func_setenv_full, func_unsetenv-delete,
}
use operating_system_profoli.Env.Vars.{
  line, all_lines_fit, env_get_vars_lem, func_setenv-env_get_vars,
}
use operating_system_profoli.Tests.{simple, shell}

-- The fifteenth parameter of a command does not fit.
abbrev fifteen : List Text
fifteen =
    codes "1"
    ∷ codes "2"
    ∷ codes "3"
    ∷ codes "4"
    ∷ codes "5"
    ∷ codes "6"
    ∷ codes "7"
    ∷ codes "8"
    ∷ codes "9"
    ∷ codes "10"
    ∷ codes "11"
    ∷ codes "12"
    ∷ codes "13"
    ∷ codes "14"
    ∷ codes "15"
    ∷ []

append_all-create_arguments_example : append_all create_arguments fifteen ≡ none
append_all-create_arguments_example = (append_all-create_arguments fifteen).1 (omega arith)

abbrev alias_la : Command
alias_la = simple (codes "alias") (codes "la" ∷ codes "ls -a" ∷ [])

abbrev unalias_ll : Command
unalias_ll = simple (codes "unalias") (codes "ll" ∷ [])

abbrev la : Command
la = simple (codes "la") []

alias_la-ArgsFit : ArgsFit alias_la
alias_la-ArgsFit zero h k = absurd (omega (arith, h))
alias_la-ArgsFit (suc zero) h k = (codes "la", refl, refl)
alias_la-ArgsFit (suc (suc zero)) h k = (codes "ls -a", refl, refl)
alias_la-ArgsFit (suc (suc (suc i))) h k = absurd (omega (arith, k))

unalias_ll-ArgsFit : ArgsFit unalias_ll
unalias_ll-ArgsFit zero h k = absurd (omega (arith, h))
unalias_ll-ArgsFit (suc zero) h k = (codes "ll", refl, refl)
unalias_ll-ArgsFit (suc (suc i)) h k = absurd (omega (arith, k))

shell-AliasTable : AliasTable shell
unfolding slice
shell-AliasTable = record {
  within = omega arith;
  distinct = (tt, tt);
  from_fits = (refl, tt);
  to_fits = (refl, tt);
}

func_alias-AliasTable_example : Keeps (func_alias alias_la shell)
func_alias-AliasTable_example =
    func_alias-AliasTable alias_la shell shell-AliasTable alias_la-ArgsFit

func_unalias-AliasTable_example : Keeps (func_unalias unalias_ll shell)
func_unalias-AliasTable_example =
    func_unalias-AliasTable unalias_ll shell shell-AliasTable unalias_ll-ArgsFit

func_alias-func_aliasing_example :
    Returns
      (λ _ s'.
        func_aliasing la s'
        ≡ done
            (if str_eq (codes "la") (codes "la")
              then with_name (codes "ls -a") la
              else by_table shell la)
            s')
      (func_alias alias_la shell)
func_alias-func_aliasing_example =
    func_alias-func_aliasing alias_la la (codes "la") (codes "ls -a") shell shell-AliasTable
      alias_la-ArgsFit (record { three = refl; name = refl; text = refl }) refl refl
      (inr λ q. omega (arith, q))

func_unalias-func_aliasing_example :
    Returns
      (λ _ s'.
        func_aliasing la s'
        ≡ done (if str_eq (codes "ll") (codes "la") then la else by_table shell la) s')
      (func_unalias unalias_ll shell)
func_unalias-func_aliasing_example =
    func_unalias-func_aliasing unalias_ll la (codes "ll") shell shell-AliasTable unalias_ll-ArgsFit
      refl refl

abbrev setenv_home : Command
setenv_home = simple (codes "setenv") (codes "HOME" ∷ codes "/home/me" ∷ [])

abbrev setenv_empty : Command
setenv_empty = simple (codes "setenv") (codes "HOME" ∷ [])

abbrev unsetenv_path : Command
unsetenv_path = simple (codes "unsetenv") (codes "PATH" ∷ [])

-- The table is full of one variable.
abbrev full_shell : Shell
full_shell = record shell { num_env = word_limit }

func_setenv-insert_example :
    Inserts (func_setenv setenv_home shell) (binding (codes "HOME") (codes "/home/me")) shell
func_setenv-insert_example =
    func_setenv-insert setenv_home (codes "HOME") (codes "/home/me") shell refl refl refl refl refl
      (inr (omega arith))

func_unsetenv-delete_example :
    (a : ℕ → UnixEnv) × (n : ℕ) × (func_unsetenv unsetenv_path shell
      ≡ done tt (record shell { unix_env = a; num_env = n }))
    × (slice a 0 n ≡ delete UnixEnv.key (codes "PATH") (unix_envs shell))
func_unsetenv-delete_example = func_unsetenv-delete unsetenv_path (codes "PATH") shell refl refl

env_get_vars_lem_example :
    env_get_vars shell
    ≡ (if all_lines_fit (unix_envs shell) then done (map line (unix_envs shell)) shell else fault)
env_get_vars_lem_example = env_get_vars_lem shell

func_setenv-env_get_vars_example :
    Returns
      (λ _ s'.
        env_get_vars s'
        ≡ done
            (map line
              (insert UnixEnv.key (binding (codes "HOME") (codes "/home/me")) (unix_envs shell)))
            s')
      (func_setenv setenv_home shell)
unfolding insert slice str_eq
func_setenv-env_get_vars_example =
    func_setenv-env_get_vars setenv_home (codes "HOME") (codes "/home/me") shell refl refl refl refl
      refl (inr (omega arith)) refl

func_setenv_full_example :
    (n_args setenv_empty ≡ 2 → func_setenv setenv_empty full_shell ≡ fault)
    × ((v : Text)
        → n_args setenv_empty ≡ 3
        → (pa setenv_empty).az_args 2 ≡ some v
        → func_setenv setenv_empty full_shell
          ≡ complain (limit_reached (codes "setenv")) full_shell)
unfolding find str_eq
func_setenv_full_example = func_setenv_full setenv_empty (codes "HOME") full_shell refl refl refl
