-- ===== src/ExecPath/First.antt =====
-- GetExecPath finds the first entry of PATH that has the program.
use operating_system_profoli.Base.{
  ℕ, ◌≡◌, refl, inl, inr, Bool, true, false, Option, none, some, List, [], ◌∷◌, ◌++◌, map, All,
  Text, codes, if◌then◌else◌, tokens, Bool-cases,
}
use operating_system_profoli.Command.{Command, z_cmd}
use operating_system_profoli.Shell.{Shell, Call, Os, Cmd, done, pure, fits, access}
use operating_system_profoli.Shell.Buffers.{fits-prefix, fits-suffix}
use operating_system_profoli.Env.{find_env}
use operating_system_profoli.Dir.{ends_in_slash, starts_with_slash}
use operating_system_profoli.ExecPath.{
  behind_dot_slash, colon, candidate, search_path, get_exec_path, path_variable,
}

-- The name in a directory.
abbrev with_slash : Text → Text
with_slash dir = if ends_in_slash dir then dir else dir ++ codes "/"

abbrev pub in_dir : Text → Text → Text
in_dir name dir = with_slash dir ++ name

abbrev pub first_that : (Text → Bool) → List Text → Option Text
first_that may [] = none
first_that may (p ∷ ps) = if may p then some p else first_that may ps

-- The files that are asked for, up to the first that may be executed.
abbrev pub asked : (Text → Bool) → List Text → List Call → List Call
asked may [] calls = calls
asked may (p ∷ ps) calls = if may p then access p ∷ calls else asked may ps (access p ∷ calls)

candidate_lem :
    (dir name : Text) (s : Shell)
    → fits (in_dir name dir) ≡ true
    → candidate dir name s ≡ done (in_dir name dir) s
unfolding candidate
candidate_lem dir name s h = elim (Bool-cases (ends_in_slash dir)) [
  | inl e ↦
      let whole : fits (dir ++ name) ≡ true = rw e at h in
      rw (fits-prefix dir name whole, e, fits-suffix dir name whole, whole)
  | inr e ↦
      let whole : fits ((dir ++ codes "/") ++ name) ≡ true = rw e at h in
      let small = fits-prefix (dir ++ codes "/") name whole in
      rw (
        fits-prefix dir (codes "/") small,
        e,
        small,
        fits-suffix (dir ++ codes "/") name whole,
        whole,
      )
]

path_variable-at :
    (i : ℕ) (s : Shell)
    → find_env (codes "PATH") s ≡ some i
    → fits (s.unix_env i).value ≡ true
    → path_variable s ≡ done (s.unix_env i).value s
unfolding path_variable
path_variable-at i s at small = rw (at, small, path_variable)

module _ (os : Os) (may : Text → Bool)
    (steady : (calls : List Call) (p : Text) → os.access_ok calls p ≡ may p) where
  search_path-first :
      (dirs : List Text) (name : Text) (s : Shell)
      → All (λ dir. fits (in_dir name dir) ≡ true) dirs
      → search_path os dirs name s
        ≡ done
            (first_that may (map (in_dir name) dirs))
            (record s { calls = asked may (map (in_dir name) dirs) s.calls })
  unfolding search_path
  search_path-first [] name s small = refl
  search_path-first (dir ∷ dirs) name s small = elim (Bool-cases (may (in_dir name dir))) [
    | inl e ↦ rw (candidate_lem dir name s small.0, steady s.calls (in_dir name dir), e)
    | inr e ↦
        rw (candidate_lem dir name s small.0, steady s.calls (in_dir name dir), e)
          (search_path-first dirs name (record s { calls = access (in_dir name dir) ∷ s.calls })
            small.1)
  ]

  -- The search where PATH has this value, which may be empty.
  search_entries :
      (path name : Text) (s : Shell)
      → All (λ dir. fits (in_dir name dir) ≡ true) (tokens colon path)
      → (elim path as (λ _. Cmd (Option Text)) [
        | [] ↦ pure none
        | c ∷ t ↦ search_path os (tokens colon (c ∷ t)) name
      ])
          s
        ≡ done
            (first_that may (map (in_dir name) (tokens colon path)))
            (record s { calls = asked may (map (in_dir name) (tokens colon path)) s.calls })
  unfolding tokens
  search_entries [] name s small = refl
  search_entries (c ∷ t) name s small = search_path-first (tokens colon (c ∷ t)) name s small

  -- Where a file may be executed or not throughout, and the name in each directory of PATH fits a
  -- buffer, GetExecPath of a name without `/` in front and without `./` gives the first of these files
  -- that may be executed, or FAIL where none may; it asks for the files in order up to that one, and
  -- changes nothing else.
  pub get_exec_path-first :
      (pc : Command) (i : ℕ) (s : Shell)
      → starts_with_slash (z_cmd pc) ≡ false
      → behind_dot_slash (z_cmd pc) ≡ none
      → find_env (codes "PATH") s ≡ some i
      → fits (s.unix_env i).value ≡ true
      → All (λ dir. fits (in_dir (z_cmd pc) dir) ≡ true) (tokens colon (s.unix_env i).value)
      → get_exec_path os pc s
        ≡ done
            (first_that may (map (in_dir (z_cmd pc)) (tokens colon (s.unix_env i).value)))
            (record s {
              calls =
                  asked may (map (in_dir (z_cmd pc)) (tokens colon (s.unix_env i).value)) s.calls;
            })
  unfolding get_exec_path
  get_exec_path-first pc i s plain plain' at small smalls =
      rw (plain, plain', path_variable-at i s at small)
        (search_entries (s.unix_env i).value (z_cmd pc) s smalls)
