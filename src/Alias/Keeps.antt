-- ===== src/Alias/Keeps.antt =====
-- func_alias and func_unalias, and the descriptors.
use operating_system_profoli.Base.{ℕ, zero, suc, refl, Text, codes, ◌==◌}
use operating_system_profoli.Command.{Command, pa, n_args}
use operating_system_profoli.Shell.{
  Os, Alias, aliasing, too_few_arguments, too_many_arguments, limit_reached, say, complain,
  strcpy_word, some_or_fault, word_limit,
}
use operating_system_profoli.Shell.Descriptors.{
  files, Keeps, Keeps-pure, Keeps-then, Keeps-if, Keeps-say, Keeps-complain, Keeps-some,
  Keeps-strcpy, KeptBy-if, KeptBy-option,
}
use operating_system_profoli.Alias.{
  find_alias, print_aliases, show_alias, set_alias, func_alias, remove_alias, func_unalias,
}

module _ (os : Os) where
  print_aliases-Keeps : (a : ℕ → Alias) (i rounds : ℕ) → Keeps os (print_aliases a i rounds)
  unfolding print_aliases
  print_aliases-Keeps a i zero = Keeps-pure os tt
  print_aliases-Keeps a i (suc rounds) =
      Keeps-then os (say (aliasing (a i).from (a i).to)) _
        (Keeps-say os (aliasing (a i).from (a i).to)) λ _. print_aliases-Keeps a (suc i) rounds

  show_alias-Keeps : (k : Text) → Keeps os (show_alias k)
  unfolding show_alias files
  show_alias-Keeps k s = KeptBy-option os s (find_alias k s) _ _ (λ fd. refl) λ i fd. refl

  set_alias-Keeps : (k v : Text) → Keeps os (set_alias k v)
  unfolding set_alias
  set_alias-Keeps k v s =
      KeptBy-option os s (find_alias k s) _ _
        (Keeps-if os (s.num_alias == word_limit) (complain (limit_reached (codes "aliasing"))) _
          (Keeps-complain os (limit_reached (codes "aliasing")))
          (Keeps-then os (strcpy_word k) _ (Keeps-strcpy os k)
            λ k'. Keeps-then os (strcpy_word v) _ (Keeps-strcpy os v) λ v' t fd. refl)
          s)
        λ i. Keeps-then os (strcpy_word v) _ (Keeps-strcpy os v) (λ v' t fd. refl) s

  pub func_alias-Keeps : (pc : Command) → Keeps os (func_alias pc)
  unfolding func_alias
  func_alias-Keeps pc s =
      KeptBy-if os s (n_args pc == 1) (print_aliases s.arr_aliases 0 s.num_alias s) _
        (print_aliases-Keeps s.arr_aliases 0 s.num_alias s)
        (KeptBy-if os s (n_args pc == 2) _ _
          (Keeps-then os (some_or_fault ((pa pc).az_args 1)) _ (Keeps-some os ((pa pc).az_args 1))
            show_alias-Keeps s)
          (KeptBy-if os s (n_args pc == 3) _ _
            (Keeps-then os (some_or_fault ((pa pc).az_args 1)) _ (Keeps-some os ((pa pc).az_args 1))
              (λ k.
                Keeps-then os (some_or_fault ((pa pc).az_args 2)) _
                  (Keeps-some os ((pa pc).az_args 2)) (set_alias-Keeps k))
              s)
            (Keeps-complain os (too_many_arguments (codes "aliasing")) s)))

  remove_alias-Keeps : (k : Text) → Keeps os (remove_alias k)
  unfolding remove_alias
  remove_alias-Keeps k s = KeptBy-option os s (find_alias k s) _ _ (λ fd. refl) λ i fd. refl

  pub func_unalias-Keeps : (pc : Command) → Keeps os (func_unalias pc)
  unfolding func_unalias
  func_unalias-Keeps pc =
      Keeps-if os (n_args pc == 1) _ _ (Keeps-complain os (too_few_arguments (codes "unaliasing")))
        (Keeps-if os (n_args pc == 2) _ _
          (Keeps-then os (some_or_fault ((pa pc).az_args 1)) _ (Keeps-some os ((pa pc).az_args 1))
            remove_alias-Keeps)
          (Keeps-complain os (too_many_arguments (codes "unaliasing"))))
