-- ===== src/Alias/Invariant.antt =====
-- The alias commands keep the table well-formed, and never fail, on arguments that fit.
use operating_system_profoli.Base.{
  ℕ, zero, suc, ◌+◌, ◌≤◌, ◌≡◌, inl, inr, true, Text, ◌==◌, slice, arith, Option-cases, Bool-cases,
  ==_iff, ne_of_==_false,
}
use operating_system_profoli.Command.{Command, n_args}
use operating_system_profoli.Shell.{Shell, Outcome, Alias, word_limit, fits}
use operating_system_profoli.Shell.Returns.{Returns, ArgsFit}
use operating_system_profoli.Table.{insert}
use operating_system_profoli.Table.Laws.{insert-Distinct, delete-Distinct, All-insert, All-delete}
use operating_system_profoli.Table.Refine.{delete-found}
use operating_system_profoli.Alias.{
  aliases, find_alias, func_alias, func_unalias, set_alias, show_alias, print_aliases, remove_alias,
}
use operating_system_profoli.Alias.Update.{AliasTable, IsAliasTable, hit-view, miss-view}

abbrev pub Keeps : Outcome (Unit {0}) → Type 0
Keeps = Returns λ _ s. AliasTable s

print_aliases-Keeps :
    (a : ℕ → Alias) (i n : ℕ) (s : Shell) → AliasTable s → Keeps (print_aliases a i n s)
unfolding print_aliases
print_aliases-Keeps a i zero s t = t
print_aliases-Keeps a i (suc n) s t = print_aliases-Keeps a (suc i) n _ t

show_alias-Keeps : (k : Text) (s : Shell) → AliasTable s → Keeps (show_alias k s)
unfolding show_alias
show_alias-Keeps k s t = elim (Option-cases (find_alias k s)) [
  | inl e ↦ rw (e, show_alias) t
  | inr (i, e) ↦ rw (e, show_alias) t
]

-- Inserting a pair that fits keeps a table well-formed.
insert-IsAliasTable :
    (a b : ℕ → Alias) (m n : ℕ) (x : Alias)
    → IsAliasTable a m
    → n ≤ word_limit
    → fits x.from ≡ true
    → fits x.to ≡ true
    → slice b 0 n ≡ insert Alias.from x (slice a 0 m)
    → IsAliasTable b n
insert-IsAliasTable a b m n x t le hf ht view = record {
  within = le;
  distinct = rw view (insert-Distinct Alias.from x (slice a 0 m) t.distinct);
  from_fits =
      rw view (All-insert Alias.from (λ y. fits y.from ≡ true) x (slice a 0 m) hf t.from_fits);
  to_fits = rw view (All-insert Alias.from (λ y. fits y.to ≡ true) x (slice a 0 m) ht t.to_fits);
}

set_alias-Keeps :
    (k v : Text) (s : Shell)
    → AliasTable s
    → fits k ≡ true
    → fits v ≡ true
    → Keeps (set_alias k v s)
unfolding set_alias
set_alias-Keeps k v s t hk hv = elim (Option-cases (find_alias k s)) [
  | inr (i, e) ↦
      rw (e, set_alias, hv)
        (insert-IsAliasTable s.arr_aliases _ s.num_alias s.num_alias (record { from = k; to = v }) t
          t.within hk hv (hit-view k v s i e))
  | inl e ↦ elim (Bool-cases (s.num_alias == word_limit)) [
    | inl full ↦ rw (e, set_alias, full) t
    | inr free ↦
        rw (e, set_alias, free, hk, hv)
          (insert-IsAliasTable s.arr_aliases _ s.num_alias (s.num_alias + 1)
            (record { from = k; to = v }) t
            (omega (arith, t.within, ne_of_==_false s.num_alias word_limit free)) hk hv
            (miss-view k v s e))
  ]
]

remove_alias-Keeps : (k : Text) (s : Shell) → AliasTable s → Keeps (remove_alias k s)
unfolding remove_alias
remove_alias-Keeps k s t = elim (Option-cases (find_alias k s)) [
  | inl e ↦ rw (e, remove_alias) t
  | inr (i, e) ↦
      rw (e, remove_alias)
        (let view = delete-found Alias.from s.arr_aliases k s.num_alias i e in
          record {
            within = omega (arith, t.within);
            distinct = rw view (delete-Distinct Alias.from k (aliases s) t.distinct);
            from_fits =
                rw view (All-delete Alias.from (λ y. fits y.from ≡ true) k (aliases s) t.from_fits);
            to_fits =
                rw view (All-delete Alias.from (λ y. fits y.to ≡ true) k (aliases s) t.to_fits);
          })
]

-- From a well-formed table and arguments that fit their buffers, `alias` returns, and the table is
-- well-formed again, whatever the number of arguments.
pub func_alias-AliasTable :
    (pc : Command) (s : Shell) → AliasTable s → ArgsFit pc → Keeps (func_alias pc s)
unfolding func_alias
func_alias-AliasTable pc s t fit = elim (Bool-cases (n_args pc == 1)) [
  | inl e ↦ rw e (print_aliases-Keeps s.arr_aliases 0 s.num_alias s t)
  | inr e ↦ elim (Bool-cases (n_args pc == 2)) [
    | inl f ↦
        let (k, got, _) = fit 1 (omega arith) (omega (arith, (==_iff (n_args pc) 2).0 f)) in
        rw (e, f, got) (show_alias-Keeps k s t)
    | inr f ↦ elim (Bool-cases (n_args pc == 3)) [
      | inl g ↦
          let three = (==_iff (n_args pc) 3).0 g in
          let (k, got_k, fit_k) = fit 1 (omega arith) (omega (arith, three)) in
          let (v, got_v, fit_v) = fit 2 (omega arith) (omega (arith, three)) in
          rw (e, f, g, got_k, got_v) (set_alias-Keeps k v s t fit_k fit_v)
      | inr g ↦ rw (e, f, g) t
    ]
  ]
]

-- The same for `unalias`.
pub func_unalias-AliasTable :
    (pc : Command) (s : Shell) → AliasTable s → ArgsFit pc → Keeps (func_unalias pc s)
unfolding func_unalias
func_unalias-AliasTable pc s t fit = elim (Bool-cases (n_args pc == 1)) [
  | inl e ↦ rw e t
  | inr e ↦ elim (Bool-cases (n_args pc == 2)) [
    | inl f ↦
        let (k, got, _) = fit 1 (omega arith) (omega (arith, (==_iff (n_args pc) 2).0 f)) in
        rw (e, f, got) (remove_alias-Keeps k s t)
    | inr f ↦ rw (e, f) t
  ]
]
