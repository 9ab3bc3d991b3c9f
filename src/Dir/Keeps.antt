-- ===== src/Dir/Keeps.antt =====
-- func_cd and FixDirPath, and the descriptors.
use operating_system_profoli.Base.{
  ℕ, zero, suc, refl, List, [], ◌∷◌, ◌++◌, Text, codes, ◌==◌, ltb, str_eq, tokens,
}
use operating_system_profoli.Command.{Command, pa, n_args}
use operating_system_profoli.Shell.{
  Os, too_many_arguments, chdir, pure, undefined, record_call, strcpy_word, some_or_fault,
  word_size,
}
use operating_system_profoli.Shell.Descriptors.{
  files, Keeps, Keeps-pure, Keeps-then, Keeps-if, Keeps-complain, Keeps-some, Keeps-strcpy,
  KeptBy-if,
}
use operating_system_profoli.Dir.{
  slash, ℤ, pos, negsuc, pred_ℤ, push_token, fix_loop, rebuild, rounds_of, fix_dir_path,
  ends_in_slash, starts_with_slash, slashed_path, cd_path, change_dir, func_cd,
}

module _ (os : Os) where
  push_token-Keeps : (t : Text) (a : ℕ → Text) (c : ℤ) → Keeps os (push_token t a c)
  unfolding push_token
  push_token-Keeps t a (negsuc n) s = tt
  push_token-Keeps t a (pos n) s =
      Keeps-if os (ltb n word_size) _ undefined
        (Keeps-then os (strcpy_word t) _ (Keeps-strcpy os t) λ row t fd. refl) (λ s. tt) s

  fix_loop-Keeps : (ts : List Text) (a : ℕ → Text) (c : ℤ) → Keeps os (fix_loop ts a c)
  unfolding fix_loop
  fix_loop-Keeps [] a c s = λ fd. refl
  fix_loop-Keeps (t ∷ ts) a c s =
      Keeps-if os (str_eq t (codes "..")) _ _ (fix_loop-Keeps ts a (pred_ℤ c))
        (Keeps-then os (push_token t a c) _ (push_token-Keeps t a c)
          λ r. fix_loop-Keeps ts (r.0) (r.1))
        s

  rebuild-Keeps : (a : ℕ → Text) (i rounds : ℕ) (path : Text) → Keeps os (rebuild a i rounds path)
  unfolding rebuild
  rebuild-Keeps a i zero path = Keeps-pure os path
  rebuild-Keeps a i (suc rounds) path =
      Keeps-then os (strcpy_word (path ++ a i)) _ (Keeps-strcpy os (path ++ a i)) λ named.
        Keeps-then os (strcpy_word (named ++ codes "/")) _ (Keeps-strcpy os (named ++ codes "/"))
          λ slashed. rebuild-Keeps a (suc i) rounds slashed

  fix_dir_path-Keeps : (rows : ℕ → Text) → Keeps os (fix_dir_path rows)
  unfolding fix_dir_path
  fix_dir_path-Keeps rows s =
      Keeps-then os (fix_loop (tokens slash s.curr_directory) rows (pos 0)) _
        (fix_loop-Keeps (tokens slash s.curr_directory) rows (pos 0))
        (λ r.
          Keeps-then os (rebuild (r.0) 0 (rounds_of (r.1)) (codes "/")) _
            (rebuild-Keeps (r.0) 0 (rounds_of (r.1)) (codes "/")) λ path t fd. refl)
        s

  slashed_path-Keeps : (t : Text) → Keeps os (slashed_path t)
  unfolding slashed_path
  slashed_path-Keeps [] s = tt
  slashed_path-Keeps (c ∷ t) s =
      Keeps-then os (strcpy_word (c ∷ t)) _ (Keeps-strcpy os (c ∷ t))
        (λ path.
          Keeps-if os (ends_in_slash path) _ _ (Keeps-pure os path)
            (Keeps-strcpy os (path ++ codes "/")))
        s

  cd_path-Keeps : (t : Text) → Keeps os (cd_path t)
  unfolding cd_path
  cd_path-Keeps t = Keeps-if os (starts_with_slash t) _ _ (Keeps-strcpy os t) (
      Keeps-then os (slashed_path t) _ (slashed_path-Keeps t)
        λ update_path s. Keeps-strcpy os (s.curr_directory ++ update_path) s)

  change_dir-Keeps :
      (rows : ℕ → Text) (pc : Command) (path : Text) → Keeps os (change_dir os rows pc path)
  unfolding change_dir files
  change_dir-Keeps rows pc path s =
      KeptBy-if os s (os.chdir_ok s.calls path) _ _
        (Keeps-then os (record_call (chdir path)) _ (λ t fd. refl)
          (λ _.
            Keeps-then os (λ t. pure tt (record t { curr_directory = path })) _ (λ t fd. refl)
              λ _. fix_dir_path-Keeps rows)
          s)
        (λ fd. refl)

  pub func_cd-Keeps : (rows : ℕ → Text) (pc : Command) → Keeps os (func_cd os rows pc)
  unfolding func_cd files
  func_cd-Keeps rows pc =
      Keeps-if os (n_args pc == 1) _ _ (λ s fd. refl)
        (Keeps-if os (ltb 2 (n_args pc)) _ _ (Keeps-complain os (too_many_arguments (codes "cd"))) (
          Keeps-then os (some_or_fault ((pa pc).az_args 1)) _ (Keeps-some os ((pa pc).az_args 1))
            λ t.
              Keeps-then os (cd_path t) _ (cd_path-Keeps t) λ path. change_dir-Keeps rows pc path))
