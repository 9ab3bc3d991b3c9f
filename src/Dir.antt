-- ===== src/Dir.antt =====
-- The working directory of impl/ish.c: FixDirPath and func_cd.
pub mod Fix
pub mod Normal
pub mod Escape
pub mod Cd
pub mod Keeps
use operating_system_profoli.Base.{
  ℕ, zero, suc, Bool, true, false, Option, none, some, List, [], ◌∷◌, ◌++◌, Text, codes, ◌==◌, ltb,
  if◌then◌else◌, str_eq, write, tokens,
}
use operating_system_profoli.Command.{Command, pa, n_args, z_cmd}
use operating_system_profoli.Shell.{
  Shell, Cmd, Os, chdir, too_many_arguments, system_error, ◌>>=◌, ◌>>◌, pure, undefined, complain,
  record_call, strcpy_word, some_or_fault, word_size,
}

-- '/'
abbrev pub slash : ℕ
slash = b'/'

-- The counter of FixDirPath, which may fall below 0; `negsuc n` is -(n + 1).
pub data ℤ : Type 0 where
  pos : ℕ → ℤ
  negsuc : ℕ → ℤ

abbrev pub pred_ℤ : ℤ → ℤ
pred_ℤ (pos zero) = negsuc 0
pred_ℤ (pos (suc n)) = pos n
pred_ℤ (negsuc n) = negsuc (suc n)

-- `strcpy(tokens[counter++], token)`, into one of WORD_SIZE rows.
pub push_token : Text → (ℕ → Text) → ℤ → Cmd ((ℕ → Text) × ℤ)
push_token t a (negsuc n) = undefined
push_token t a (pos n) =
    if ltb n word_size
    then (do row ← strcpy_word t; pure (write a n row, pos (suc n)))
    else undefined

-- The `while` loop over the tokens.
pub fix_loop : List Text → (ℕ → Text) → ℤ → Cmd ((ℕ → Text) × ℤ)
fix_loop [] a counter = pure (a, counter)
fix_loop (t ∷ ts) a counter =
    let up = fix_loop ts a (pred_ℤ counter) in
    if str_eq t (codes "..")
    then up
    else do (a, counter) ← push_token t a counter; fix_loop ts a counter

-- The `for` loop that puts the path together again, by two times `strcat`.
rebuild : (ℕ → Text) → (i rounds : ℕ) → Text → Cmd Text
rebuild a i zero path = pure path
rebuild a i (suc rounds) path = do
  named ← strcpy_word (path ++ a i)
  slashed ← strcpy_word (named ++ codes "/")
  rebuild a (suc i) rounds slashed

-- Its number of rounds: none for a counter below 0.
abbrev pub rounds_of : ℤ → ℕ
rounds_of (pos n) = n
rounds_of (negsuc n) = 0

-- The rows of `tokens` hold what the stack held, which no round reads before it is written.
unfoldable pub fix_dir_path : (ℕ → Text) → Cmd (Unit {0})
unfolding push_token fix_loop rebuild
fix_dir_path rows s =
    (do
      (a, counter) ← fix_loop (tokens slash s.curr_directory) rows (pos 0)
      path ← rebuild a 0 (rounds_of counter) (codes "/")
      λ s. pure tt (record s { curr_directory = path }))
      s

abbrev pub ends_in_slash : Text → Bool
ends_in_slash [] = false
ends_in_slash (c ∷ []) = c == slash
ends_in_slash (c ∷ d ∷ t) = ends_in_slash (d ∷ t)

abbrev pub starts_with_slash : Text → Bool
starts_with_slash [] = false
starts_with_slash (c ∷ t) = c == slash

-- `update_path`: the argument with a slash at its end. Of the empty text the code reads the byte
-- before the buffer.
slashed_path : Text → Cmd Text
slashed_path [] = undefined
slashed_path (c ∷ t) = do
  path ← strcpy_word (c ∷ t)
  if ends_in_slash path then pure path else strcpy_word (path ++ codes "/")

-- `file_path`
unfoldable pub cd_path : Text → Cmd Text
unfolding slashed_path
cd_path t =
    if starts_with_slash t
    then strcpy_word t
    else do update_path ← slashed_path t; λ s. strcpy_word (s.curr_directory ++ update_path) s

module _ (os : Os) where
  -- `if (chdir(file_path) == 0) … else …`
  change_dir : (ℕ → Text) → Command → Text → Cmd (Unit {0})
  change_dir rows pc path s =
      if os.chdir_ok s.calls path
      then (do
        record_call (chdir path)
        λ s. pure tt (record s { curr_directory = path })
        fix_dir_path rows)
          s
      else (do record_call (chdir path); complain (system_error (z_cmd pc))) s

  -- `rows` is what the rows of FixDirPath's `tokens` held.
  unfoldable pub func_cd : (ℕ → Text) → Command → Cmd (Unit {0})
  unfolding change_dir
  func_cd rows pc =
      if n_args pc == 1
      then (do
        λ s. pure tt (record s { curr_directory = s.home_directory })
        λ s. record_call (chdir s.curr_directory) s)
      else if ltb 2 (n_args pc)
      then complain (too_many_arguments (codes "cd"))
      else do t ← some_or_fault ((pa pc).az_args 1); path ← cd_path t; change_dir rows pc path
