-- ===== src/Alias/Meaning.antt =====
-- What a command is called after an alias is set or taken back.
use mathlib.Core.Path.{subst}
use operating_system_profoli.Base.{
  ◌≡◌, refl, ◌∙◌, ap, Bool, true, false, none, some, Text, if◌then◌else◌, str_eq,
}
use operating_system_profoli.Command.{Command, pa, n_args, z_cmd}
use operating_system_profoli.Shell.{Shell, done, Alias, fits}
use operating_system_profoli.Shell.Returns.{Returns, ArgsFit}
use operating_system_profoli.Table.{lookup}
use operating_system_profoli.Table.Laws.{lookup-insert, lookup-delete}
use operating_system_profoli.Alias.{aliases, func_alias, func_unalias, func_aliasing, with_name}
use operating_system_profoli.Alias.Update.{
  AliasTable, Sets, HasRoom, renamed, func_alias-insert, func_unalias-delete, func_aliasing-lookup,
}
use operating_system_profoli.Alias.Invariant.{func_alias-AliasTable, func_unalias-AliasTable}

-- What the table of `s` makes of the command.
abbrev pub by_table : Shell → Command → Command
by_table s c = renamed (lookup Alias.from (z_cmd c) (aliases s)) c

-- From a well-formed table, `alias k v` with room for it and arguments that fit their buffers
-- returns, and afterwards `func_aliasing` gives a command called `k` the name `v`, and any other
-- command the name that it would have had before.
pub func_alias-func_aliasing :
    (pc c : Command) (k v : Text) (s : Shell)
    → AliasTable s
    → ArgsFit pc
    → Sets pc k v
    → fits k ≡ true
    → fits v ≡ true
    → HasRoom k s
    → Returns
        (λ _ s'.
          func_aliasing c s' ≡ done (if str_eq k (z_cmd c) then with_name v c else by_table s c) s')
        (func_alias pc s)
func_alias-func_aliasing pc c k v s t fit h hk hv room =
    let (a, n, run, view) = func_alias-insert pc k v s h hk hv room in
    let kept = subst (Returns λ _ s'. AliasTable s') run (func_alias-AliasTable pc s t fit) in
    rw run (
      func_aliasing-lookup c (record s { arr_aliases = a; num_alias = n }) kept
      ∙ ap (λ o. done (renamed o c) (record s { arr_aliases = a; num_alias = n }))
          (ap (lookup Alias.from (z_cmd c)) view
            ∙ lookup-insert Alias.from (z_cmd c) (record { from = k; to = v }) (aliases s))
      ∙ branch (str_eq k (z_cmd c)))
  where
    branch :
        {s' : Shell} (b : Bool)
        → done
            (renamed
              (if b
                then some (record { from = k; to = v })
                else lookup Alias.from (z_cmd c) (aliases s))
              c)
            s'
          ≡ done (if b then with_name v c else by_table s c) s'
    branch true = refl
    branch false = refl

-- From a well-formed table, `unalias k` with an argument that fits its buffer returns, and
-- afterwards `func_aliasing` leaves a command called `k` as it is, and gives any other command the
-- name that it would have had before.
pub func_unalias-func_aliasing :
    (pc c : Command) (k : Text) (s : Shell)
    → AliasTable s
    → ArgsFit pc
    → n_args pc ≡ 2
    → (pa pc).az_args 1 ≡ some k
    → Returns
        (λ _ s'. func_aliasing c s' ≡ done (if str_eq k (z_cmd c) then c else by_table s c) s')
        (func_unalias pc s)
func_unalias-func_aliasing pc c k s t fit two name =
    let (a, n, run, view) = func_unalias-delete pc k s two name in
    let kept = subst (Returns λ _ s'. AliasTable s') run (func_unalias-AliasTable pc s t fit) in
    rw run (
      func_aliasing-lookup c (record s { arr_aliases = a; num_alias = n }) kept
      ∙ ap (λ o. done (renamed o c) (record s { arr_aliases = a; num_alias = n }))
          (ap (lookup Alias.from (z_cmd c)) view
            ∙ lookup-delete Alias.from k (z_cmd c) (aliases s) t.distinct)
      ∙ branch (str_eq k (z_cmd c)))
  where
    branch :
        {s' : Shell} (b : Bool)
        → done (renamed (if b then none else lookup Alias.from (z_cmd c) (aliases s)) c) s'
          ≡ done (if b then c else by_table s c) s'
    branch true = refl
    branch false = refl
