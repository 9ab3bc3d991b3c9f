-- ===== src/Env/Keeps.antt =====
-- func_setenv and func_unsetenv, and the descriptors.
use operating_system_profoli.Base.{ℕ, zero, suc, refl, [], Text, codes, ◌==◌, ltb}
use operating_system_profoli.Command.{Command, pa, n_args}
use operating_system_profoli.Shell.{
  Os, UnixEnv, env_line, too_few_arguments, too_many_arguments, limit_reached, say, strcpy_word,
  some_or_fault, word_limit,
}
use operating_system_profoli.Shell.Descriptors.{
  Keeps, Keeps-pure, Keeps-then, Keeps-if, Keeps-say, Keeps-complain, Keeps-some, Keeps-strcpy,
  KeptBy-if, KeptBy-option,
}
use operating_system_profoli.Env.{
  find_env, print_env, append_env, clear_env, set_env, func_setenv, remove_env, func_unsetenv,
}

module _ (os : Os) where
  print_env-Keeps : (a : ℕ → UnixEnv) (i rounds : ℕ) → Keeps os (print_env a i rounds)
  unfolding print_env
  print_env-Keeps a i zero = Keeps-pure os tt
  print_env-Keeps a i (suc rounds) =
      Keeps-then os (say (env_line (a i).key (a i).value)) _
        (Keeps-say os (env_line (a i).key (a i).value)) λ _. print_env-Keeps a (suc i) rounds

  append_env-Keeps : (k v : Text) → Keeps os (append_env k v)
  unfolding append_env
  append_env-Keeps k v s =
      KeptBy-if os s (ltb s.num_env word_limit) _ _
        (Keeps-then os (strcpy_word k) _ (Keeps-strcpy os k)
          (λ k'. Keeps-then os (strcpy_word v) _ (Keeps-strcpy os v) λ v' t fd. refl) s)
        tt

  clear_env-Keeps : (k : Text) → Keeps os (clear_env k)
  unfolding clear_env
  clear_env-Keeps k s = KeptBy-option os s (find_env k s) _ _ (append_env-Keeps k [] s) λ i fd. refl

  set_env-Keeps : (k v : Text) → Keeps os (set_env k v)
  unfolding set_env
  set_env-Keeps k v s =
      KeptBy-option os s (find_env k s) _ _
        (KeptBy-if os s (s.num_env == word_limit) _ _
          (Keeps-complain os (limit_reached (codes "setenv")) s) (append_env-Keeps k v s))
        λ i. Keeps-then os (strcpy_word v) _ (Keeps-strcpy os v) (λ v' t fd. refl) s

  pub func_setenv-Keeps : (pc : Command) → Keeps os (func_setenv pc)
  unfolding func_setenv
  func_setenv-Keeps pc s =
      KeptBy-if os s (n_args pc == 1) _ _ (print_env-Keeps s.unix_env 0 s.num_env s) (
        KeptBy-if os s (n_args pc == 2) _ _
          (Keeps-then os (some_or_fault ((pa pc).az_args 1)) _ (Keeps-some os ((pa pc).az_args 1))
            clear_env-Keeps s)
          (KeptBy-if os s (n_args pc == 3) _ _
            (Keeps-then os (some_or_fault ((pa pc).az_args 1)) _ (Keeps-some os ((pa pc).az_args 1))
              (λ k.
                Keeps-then os (some_or_fault ((pa pc).az_args 2)) _
                  (Keeps-some os ((pa pc).az_args 2)) (set_env-Keeps k))
              s)
            (Keeps-complain os (too_many_arguments (codes "setenv")) s)))

  remove_env-Keeps : (k : Text) → Keeps os (remove_env k)
  unfolding remove_env
  remove_env-Keeps k s = KeptBy-option os s (find_env k s) _ _ (λ fd. refl) λ i fd. refl

  pub func_unsetenv-Keeps : (pc : Command) → Keeps os (func_unsetenv pc)
  unfolding func_unsetenv
  func_unsetenv-Keeps pc =
      Keeps-if os (n_args pc == 1) _ _ (Keeps-complain os (too_few_arguments (codes "unsetenv"))) (
        Keeps-if os (n_args pc == 2) _ _
          (Keeps-then os (some_or_fault ((pa pc).az_args 1)) _ (Keeps-some os ((pa pc).az_args 1))
            remove_env-Keeps)
          (Keeps-complain os (too_many_arguments (codes "unsetenv"))))
