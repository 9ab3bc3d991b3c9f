-- ===== src/ExecPath.antt =====
-- Where impl/ish.c looks for a program: GetExecPath and func_CheckFilePermission.
pub mod Search
pub mod First
use operating_system_profoli.Base.{
  ℕ, zero, suc, Bool, true, false, Option, none, some, List, [], ◌∷◌, ◌++◌, ◌&&◌, Text, codes, ◌==◌,
  if◌then◌else◌, tokens,
}
use operating_system_profoli.Command.{Command, z_cmd}
use operating_system_profoli.Shell.{
  Shell, Cmd, Os, access, system_error, command_not_found, ◌>>=◌, ◌>>◌, pure, undefined, complain,
  record_call, strcpy_word,
}
use operating_system_profoli.Env.{find_env}
use operating_system_profoli.Dir.{ends_in_slash, starts_with_slash}

-- ':'
abbrev pub colon : ℕ
colon = b':'

-- `zCmd[0] == '.' && zCmd[1] == '/'`, and the bytes behind these two.
abbrev pub behind_dot_slash : Text → Option Text
behind_dot_slash [] = none
behind_dot_slash (c ∷ []) = none
behind_dot_slash (c ∷ d ∷ t) = if (c == b'.') && (d == b'/') then some t else none

-- The working directory with a slash at its end. Of the empty text the code reads the byte before
-- the buffer.
abbrev pub dir_with_slash : Text → Cmd Text
dir_with_slash [] = undefined
dir_with_slash (c ∷ t) = if ends_in_slash (c ∷ t) then pure (c ∷ t) else pure ((c ∷ t) ++ codes "/")

-- The path of a command that begins with `./`.
local_path : Text → Cmd Text
local_path name = do
  dir ← λ s. strcpy_word s.curr_directory s
  dir' ← dir_with_slash dir
  strcpy_word (dir' ++ name)

-- The buffer PATH: the value of the variable, or empty.
pub path_variable : Cmd Text
path_variable s = elim (find_env (codes "PATH") s) [
  | none ↦ pure [] s
  | some i ↦ strcpy_word (s.unix_env i).value s
]

-- The buffer PATH of func_CheckFilePermission.
unfoldable pub check_variable : Cmd Text
check_variable s = elim (find_env (codes "PATH") s) [
  | none ↦ pure [] s
  | some i ↦ strcpy_word (s.unix_env i).value s
]

-- `tmp_path`: the directory with a slash, and the command.
pub candidate : Text → Text → Cmd Text
candidate token name = do
  dir ← strcpy_word token
  dir' ← if ends_in_slash dir then pure dir else strcpy_word (dir ++ codes "/")
  name' ← strcpy_word name
  strcpy_word (dir' ++ name')

module _ (os : Os) where
  -- `access(path, X_OK) == 0`
  pub access_call : Text → Cmd Bool
  access_call p s = (do record_call (access p); pure (os.access_ok s.calls p)) s

  -- The loop over the entries of PATH: the first candidate that may be executed.
  pub search_path : List Text → Text → Cmd (Option Text)
  unfolding candidate access_call
  search_path [] name = pure none
  search_path (token ∷ tokens) name = do
    p ← candidate token name
    found ← access_call p
    let rest = search_path tokens name
    if found then pure (some p) else rest

  -- The path of the program, or `none` where the code returns FAIL.
  unfoldable pub get_exec_path : Command → Cmd (Option Text)
  unfolding local_path path_variable search_path
  get_exec_path pc =
      if starts_with_slash (z_cmd pc)
      then (do p ← strcpy_word (z_cmd pc); pure (some p))
      else elim (behind_dot_slash (z_cmd pc)) [
        | some name ↦ (do p ← local_path name; pure (some p))
        | none ↦ (do
          path ← path_variable
          elim path [ [] ↦ pure none | c ∷ t ↦ search_path (tokens colon (c ∷ t)) (z_cmd pc) ])
      ]

  -- func_CheckFilePermission has its own code for each of these steps.

  -- `access` with the error printed on failure.
  checked : Command → Text → Cmd (Option Text)
  unfolding access_call
  checked pc p = do
    fine ← access_call p
    if fine then pure (some p) else (do complain (system_error (z_cmd pc)); pure none)

  pub not_found : Command → Cmd (Option Text)
  not_found pc = do complain (command_not_found (z_cmd pc)); pure none

  -- The branch of a command that begins with `./`.
  check_local : Command → Text → Cmd (Option Text)
  unfolding checked
  check_local pc name = do
    dir ← λ s. strcpy_word s.curr_directory s
    dir' ← dir_with_slash dir
    file_path ← strcpy_word (dir' ++ name)
    checked pc file_path

  -- Its loop over the entries of PATH, with `tmp_path` and `tmp_cmd` of each round.
  unfoldable pub check_tokens : List Text → Text → Cmd (Option Text)
  unfolding access_call
  check_tokens [] z_cmd = pure none
  check_tokens (token ∷ tokens) z_cmd = do
    tmp_path ← strcpy_word token
    tmp_path' ←
        if ends_in_slash tmp_path then pure tmp_path else strcpy_word (tmp_path ++ codes "/")
    tmp_cmd ← strcpy_word z_cmd
    file_path ← strcpy_word (tmp_path' ++ tmp_cmd)
    found ← access_call file_path
    let rest = check_tokens tokens z_cmd
    if found then pure (some file_path) else rest

  unfoldable pub func_check_file_permission : Command → Cmd (Option Text)
  unfolding checked not_found check_local check_variable check_tokens
  func_check_file_permission pc =
      if starts_with_slash (z_cmd pc)
      then (do
        found ← checked pc (z_cmd pc)
        elim found [ none ↦ pure none | some p ↦ (do p' ← strcpy_word p; pure (some p')) ])
      else elim (behind_dot_slash (z_cmd pc)) [
        | some name ↦ check_local pc name
        | none ↦ (do
          path ← check_variable
          elim path [
            | [] ↦ not_found pc
            | c ∷ t ↦ (do
              found ← check_tokens (tokens colon (c ∷ t)) (z_cmd pc)
              elim found [ none ↦ not_found pc | some p ↦ pure (some p) ])
          ])
      ]
