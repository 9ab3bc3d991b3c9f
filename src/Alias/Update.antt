-- ===== src/Alias/Update.antt =====
-- What the alias commands do to the entries of the table, and what a command is then called.
use mathlib.Core.Path.{subst}
use mathlib.Core.Option
use native.Mathlib.Numerals.{add-one}
use operating_system_profoli.Base.{
  ℕ, zero, suc, ◌+◌, ◌-◌, ◌≤◌, ◌≡◌, ◌≢◌, sym, ◌∙◌, ap, ◌⊎◌, inl, inr, true, Option, none, some,
  Text, All, write, slice, shift_down, arith, str_eq, Option-cases, Bool-cases, ==_ne,
}
use operating_system_profoli.Command.{Command, z_cmd, pa, n_args}
use operating_system_profoli.Shell.{Shell, done, Alias, word_limit, fits}
use operating_system_profoli.Table.{find, lookup, insert, delete, Distinct}
use operating_system_profoli.Table.Refine.{
  find-some, lookup-slice, insert-hit, insert-miss, delete-found, delete-miss,
}
use operating_system_profoli.Alias.{
  aliases, find_alias, func_alias, func_unalias, func_aliasing, with_name, set_alias, remove_alias,
}

-- The command name, text pair of an `alias name text`.
pub record Sets (pc : Command) (k v : Text) : Type 0 where
  pub three : n_args pc ≡ 3
  pub name : (pa pc).az_args 1 ≡ some k
  pub text : (pa pc).az_args 2 ≡ some v

-- There is room for the key: it is bound already, or the table is not full.
abbrev pub HasRoom : Text → Shell → Type 0
HasRoom k s = (find_alias k s ≢ none) ⊎ (s.num_alias ≢ word_limit)

-- What the two writes of `set_alias` do to the entries.
module _ (k v : Text) (s : Shell) where
  pub hit-view :
      (i : ℕ)
      → find_alias k s ≡ some i
      → slice (write s.arr_aliases i (record (s.arr_aliases i) { to = v })) 0 s.num_alias
        ≡ insert Alias.from (record { from = k; to = v }) (aliases s)
  hit-view i e =
      ap (λ t. slice (write s.arr_aliases i (record { from = t; to = v })) 0 s.num_alias)
        (find-some (λ j. (s.arr_aliases j).from) k 0 s.num_alias e).2
      ∙ insert-hit Alias.from s.arr_aliases (record { from = k; to = v }) 0 s.num_alias e

  pub miss-view :
      find_alias k s ≡ none
      → slice (write s.arr_aliases s.num_alias (record { from = k; to = v })) 0 (s.num_alias + 1)
        ≡ insert Alias.from (record { from = k; to = v }) (aliases s)
  miss-view e = rw add-one (
      insert-miss Alias.from s.arr_aliases (record { from = k; to = v }) 0 s.num_alias s.num_alias
        (omega arith) e)

-- `set_alias` inserts the pair, and changes nothing but the table.
pub set_alias-insert :
    (k v : Text) (s : Shell)
    → fits k ≡ true
    → fits v ≡ true
    → HasRoom k s
    → (a : ℕ → Alias) × (n : ℕ) × (set_alias k v s
        ≡ done tt (record s { arr_aliases = a; num_alias = n }))
      × (slice a 0 n ≡ insert Alias.from (record { from = k; to = v }) (aliases s))
unfolding set_alias
set_alias-insert k v s hk hv room = elim (Option-cases (find_alias k s)) [
  | inr (i, e) ↦ (
    write s.arr_aliases i (record (s.arr_aliases i) { to = v }),
    s.num_alias,
    rw (e, set_alias, hv),
    hit-view k v s i e,
  )
  | inl e ↦ (
    write s.arr_aliases s.num_alias (record { from = k; to = v }),
    s.num_alias + 1,
    rw (e, set_alias, ==_ne s.num_alias word_limit (not_full e room), hk, hv),
    miss-view k v s e,
  )
]
  where
    not_full : find_alias k s ≡ none → HasRoom k s → s.num_alias ≢ word_limit
    not_full e (inl h) = absurd (h e)
    not_full e (inr h) = h

-- What every function here keeps: the table is within its array, no name is bound twice, and each
-- text fits its buffer.
pub record IsAliasTable (a : ℕ → Alias) (n : ℕ) : Type 0 where
  pub within : n ≤ word_limit
  pub distinct : Distinct Alias.from (slice a 0 n)
  pub from_fits : All (λ x. fits x.from ≡ true) (slice a 0 n)
  pub to_fits : All (λ x. fits x.to ≡ true) (slice a 0 n)

abbrev pub AliasTable : Shell → Type 0
AliasTable s = IsAliasTable s.arr_aliases s.num_alias

-- `alias name text`, with room for it, inserts the pair and changes nothing but the table.
pub func_alias-insert :
    (pc : Command) (k v : Text) (s : Shell)
    → Sets pc k v
    → fits k ≡ true
    → fits v ≡ true
    → HasRoom k s
    → (a : ℕ → Alias) × (n : ℕ) × (func_alias pc s
        ≡ done tt (record s { arr_aliases = a; num_alias = n }))
      × (slice a 0 n ≡ insert Alias.from (record { from = k; to = v }) (aliases s))
unfolding func_alias
func_alias-insert pc k v s h hk hv room =
    let (a, n, run, view) = set_alias-insert k v s hk hv room in
    (a, n, rw (h.three, h.name, h.text) run, view)

-- The command is called what the first entry with its name says, if there is one.
abbrev pub renamed : Option Alias → Command → Command
renamed none pc = pc
renamed (some a) pc = with_name a.to pc

hit-fits :
    (a : ℕ → Alias) (k : Text) (i n : ℕ) {m : ℕ}
    → All (λ a. fits a.to ≡ true) (slice a i n)
    → find (λ j. (a j).from) k i n ≡ some m
    → fits (a m).to ≡ true
unfolding slice find
hit-fits a k i zero all h = cc
hit-fits a k i (suc n) {m} all h = elim (Bool-cases (str_eq (a i).from k)) [
  | inl e ↦ subst (λ j. fits (a j).to ≡ true) (Option.some-injective i m (rw e at h)) all.0
  | inr e ↦ hit-fits a k (suc i) n all.1 (rw e at h)
]

-- Where every text of the table fits its buffer, `func_aliasing` renames the command by the table,
-- and changes nothing else.
pub func_aliasing-lookup :
    (pc : Command) (s : Shell)
    → AliasTable s
    → func_aliasing pc s ≡ done (renamed (lookup Alias.from (z_cmd pc) (aliases s)) pc) s
unfolding func_aliasing
func_aliasing-lookup pc s t =
    rw (lookup-slice Alias.from s.arr_aliases (z_cmd pc) 0 s.num_alias)
      (elim (Option-cases (find_alias (z_cmd pc) s)) [
        | inl e ↦ rw (e, func_aliasing)
        | inr (i, e) ↦
            rw (e, func_aliasing, hit-fits s.arr_aliases (z_cmd pc) 0 s.num_alias t.to_fits e)
      ])

-- `unalias name` deletes the name, and changes nothing but the table.
pub func_unalias-delete :
    (pc : Command) (k : Text) (s : Shell)
    → n_args pc ≡ 2
    → (pa pc).az_args 1 ≡ some k
    → (a : ℕ → Alias) × (n : ℕ) × (func_unalias pc s
        ≡ done tt (record s { arr_aliases = a; num_alias = n }))
      × (slice a 0 n ≡ delete Alias.from k (aliases s))
unfolding func_unalias
func_unalias-delete pc k s two name = elim (Option-cases (find_alias k s)) [
  | inl e ↦ (
    s.arr_aliases,
    s.num_alias,
    rw (two, name, e, remove_alias),
    sym (delete-miss Alias.from s.arr_aliases k 0 s.num_alias e),
  )
  | inr (i, e) ↦ (
    shift_down s.arr_aliases i (s.num_alias - suc i),
    s.num_alias - 1,
    rw (two, name, e, remove_alias),
    delete-found Alias.from s.arr_aliases k s.num_alias i e,
  )
]
