-- ===== src/ExecPath/Search.antt =====
-- The two searches for a program, which ish.c writes twice, agree.
use operating_system_profoli.Base.{
  ◌≡◌, refl, sym, ◌∙◌, Bool, true, false, Option, none, some, List, [], ◌∷◌, ◌++◌, Text, codes,
  if◌then◌else◌, tokens,
}
use operating_system_profoli.Command.{Command, z_cmd}
use operating_system_profoli.Shell.{
  Shell, Outcome, Os, done, exits, blocked, fault, and_then, Cmd, pure, ◌>>=◌, strcpy_word,
}
use operating_system_profoli.Dir.{starts_with_slash, ends_in_slash}
use operating_system_profoli.ExecPath.{
  behind_dot_slash, colon, get_exec_path, func_check_file_permission, not_found, search_path,
  path_variable, candidate, access_call, check_variable, check_tokens,
}

-- Steps that do the same from every state.
and_then_same :
    {A B : Type 0} (m : Outcome A) (k l : A → Cmd B)
    → ((a : A) (s : Shell) → k a s ≡ l a s)
    → and_then m k ≡ and_then m l
and_then_same (done a s) k l same = same a s
and_then_same (exits n s) k l same = refl
and_then_same (blocked s) k l same = refl
and_then_same fault k l same = refl

and_then_nested :
    {A B C : Type 0} (m : Outcome A) (k : A → Cmd B) (l : B → Cmd C)
    → and_then (and_then m k) l ≡ and_then m (λ a s. and_then (k a s) l)
and_then_nested (done a s) k l = refl
and_then_nested (exits n s) k l = refl
and_then_nested (blocked s) k l = refl
and_then_nested fault k l = refl

-- The two ways to build a candidate, with what follows.
candidate_then :
    {B : Type 0} (token name : Text) (k : Text → Cmd B) (s : Shell)
    → and_then (candidate token name s) k
      ≡ (do
        tmp_path ← strcpy_word token
        tmp_path' ←
            if ends_in_slash tmp_path then pure tmp_path else strcpy_word (tmp_path ++ codes "/")
        tmp_cmd ← strcpy_word name
        file_path ← strcpy_word (tmp_path' ++ tmp_cmd)
        k file_path)
          s
unfolding candidate
candidate_then token name k s =
    and_then_nested (strcpy_word token s) _ k
    ∙ and_then_same (strcpy_word token s) _ _ λ dir s1.
      and_then_nested ((if ends_in_slash dir then pure dir else strcpy_word (dir ++ codes "/")) s1)
        _ k
      ∙ and_then_same ((if ends_in_slash dir then pure dir else strcpy_word (dir ++ codes "/")) s1)
          _ _ λ dir' s2. and_then_nested (strcpy_word name s2) _ k

check_variable_lem : (s : Shell) → check_variable s ≡ path_variable s
unfolding check_variable path_variable
check_variable_lem s = refl

module _ (os : Os) (pc : Command) where
  -- `none` is printed as "Command not found".
  abbrev pub or_not_found : Option Text → Cmd (Option Text)
  or_not_found none = not_found os pc
  or_not_found (some p) = pure (some p)

  same_rest :
      (p : Text) (k l : Cmd (Option Text)) (found : Bool) (s : Shell)
      → ((t : Shell) → k t ≡ l t)
      → (if found then pure (some p) else k) s ≡ (if found then pure (some p) else l) s
  same_rest p k l true s same = refl
  same_rest p k l false s same = same s

  -- The loop of func_CheckFilePermission does what the loop of GetExecPath does.
  check_tokens_lem :
      (ts : List Text) (name : Text) (s : Shell)
      → check_tokens os ts name s ≡ search_path os ts name s
  unfolding check_tokens search_path
  check_tokens_lem [] name s = refl
  check_tokens_lem (token ∷ ts) name s =
      sym (candidate_then token name _ s)
      ∙ and_then_same (candidate token name s) _ _ λ p s1.
        and_then_same (access_call os p s1)
          (λ found. if found then pure (some p) else check_tokens os ts name)
          (λ found. if found then pure (some p) else search_path os ts name)
          λ found s2.
            same_rest p (check_tokens os ts name) (search_path os ts name) found s2
              (check_tokens_lem ts name)

  after_search :
      (m : Outcome (Option Text))
      → and_then m (λ found. elim found [ none ↦ not_found os pc | some p ↦ pure (some p) ])
        ≡ and_then m or_not_found
  after_search (done none s) = refl
  after_search (done (some p) s) = refl
  after_search (exits n s) = refl
  after_search (blocked s) = refl
  after_search fault = refl

  after_path :
      (m : Outcome Text)
      → and_then m (λ path. elim path [
        | [] ↦ not_found os pc
        | c ∷ t ↦ (do
          found ← check_tokens os (tokens colon (c ∷ t)) (z_cmd pc)
          elim found [ none ↦ not_found os pc | some p ↦ pure (some p) ])
      ])
        ≡ and_then
            (and_then m (λ path. elim path [
              | [] ↦ pure none
              | c ∷ t ↦ search_path os (tokens colon (c ∷ t)) (z_cmd pc)
            ]))
            or_not_found
  after_path (done [] s) = refl
  after_path (done (c ∷ t) s) =
      rw (check_tokens_lem (tokens colon (c ∷ t)) (z_cmd pc) s)
        (after_search (search_path os (tokens colon (c ∷ t)) (z_cmd pc) s))
  after_path (exits n s) = refl
  after_path (blocked s) = refl
  after_path fault = refl

  -- For a command without `/` in front and without `./`, func_CheckFilePermission finds the path
  -- that GetExecPath finds, after the same calls, and prints "Command not found" where
  -- GetExecPath returns FAIL.
  pub func_check_file_permission_lem :
      (s : Shell)
      → starts_with_slash (z_cmd pc) ≡ false
      → behind_dot_slash (z_cmd pc) ≡ none
      → func_check_file_permission os pc s ≡ and_then (get_exec_path os pc s) or_not_found
  unfolding func_check_file_permission get_exec_path
  func_check_file_permission_lem s plain plain' =
      rw (plain, plain', check_variable_lem s) (after_path (path_variable s))
