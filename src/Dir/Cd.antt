-- ===== src/Dir/Cd.antt =====
-- func_cd against the meaning of paths.
use mathlib.Core.List.{reverse_aux}
use operating_system_profoli.Base.{
  ℕ, ◌≡◌, ◌≢◌, refl, ◌∙◌, ap, inl, inr, true, false, some, List, [], ◌∷◌, ◌++◌, reverse, Text,
  codes, All, if◌then◌else◌, str_eq_ne, Bool-cases, tokens, join, tokens-join_append,
  tokens-snoc_sep, tokens-sep,
}
use operating_system_profoli.Command.{Command, pa, n_args, z_cmd}
use operating_system_profoli.Shell.{Shell, Os, done, fits, chdir, print_err, system_error}
use operating_system_profoli.Dir.{slash, func_cd, cd_path, ends_in_slash, starts_with_slash}
use operating_system_profoli.Dir.Fix.{
  dot, dot_dot, counted, counted-walk, walk, fix_dir_path-counted,
}
use operating_system_profoli.Dir.Normal.{
  IsDir, words_of, All-reverse_aux, walk-All, counted-tokens-IsDir,
}

-- A directory of a path without `.`.
abbrev pub IsName : Text → Type 0
IsName w = IsDir w × (w ≢ dot)

names_IsDir : (ws : List Text) → All IsName ws → All IsDir ws
names_IsDir [] h = tt
names_IsDir (w ∷ ws) h = (h.0.0, names_IsDir ws h.1)

without_dot : (ws : List Text) → All IsName ws → All (λ w. w ≢ dot) ws
without_dot [] h = tt
without_dot (w ∷ ws) h = (h.0.1, without_dot ws h.1)

both : (ws : List Text) → All IsDir ws → All (λ w. w ≢ dot) ws → All IsName ws
both [] h k = tt
both (w ∷ ws) h k = ((h.0, k.0), both ws h.1 k.1)

-- The text with a slash at its end.
abbrev pub slashed : Text → Text
slashed t = if ends_in_slash t then t else t ++ codes "/"

-- After names alone the count goes on from the directories entered.
counted-names_append :
    (st ws ts : List Text) → All IsDir ws → counted st (ws ++ ts) ≡ counted (reverse_aux ws st) ts
unfolding counted
counted-names_append st [] ts h = refl
counted-names_append st (w ∷ ws) ts h =
    rw (str_eq_ne w dot_dot h.0.1) (counted-names_append (w ∷ st) ws ts h.1)

tokens-slashed : (t : Text) → tokens slash (slashed t) ≡ tokens slash t
tokens-slashed t = elim (Bool-cases (ends_in_slash t)) [
  | inl e ↦ rw e
  | inr e ↦ rw e (tokens-snoc_sep slash t)
]

cd_path_relative :
    (t : Text) (s : Shell)
    → t ≢ []
    → starts_with_slash t ≡ false
    → fits t ≡ true
    → fits (slashed t) ≡ true
    → fits (s.curr_directory ++ slashed t) ≡ true
    → cd_path t s ≡ done (s.curr_directory ++ slashed t) s
unfolding cd_path
cd_path_relative [] s named relative small small' small'' = absurd (named refl)
cd_path_relative (c ∷ t) s named relative small small' small'' =
    elim (Bool-cases (ends_in_slash (c ∷ t))) [
      | inl e ↦ rw (relative, small, e, rw e at small'')
      | inr e ↦ rw (relative, small, e, rw e at small', rw e at small'')
    ]

-- From a normal working directory (names, each neither `.` nor `..`, with a slash behind each), `cd t` with
-- a t that is not empty, is relative, has no `.` in it, stays below the root and fits the buffers asks the
-- system for the directory and t behind it, and a slash. If it agrees, the working directory is again
-- normal, and is what t leads to from the old one. If it does not, the error is printed and the working
-- directory stays.
pub func_cd_relative :
    (os : Os) (rows : ℕ → Text) (pc : Command) (t : Text) (ws st : List Text) (s : Shell)
    → s.curr_directory ≡ slash ∷ join slash ws
    → All IsName ws
    → n_args pc ≡ 2
    → (pa pc).az_args 1 ≡ some t
    → t ≢ []
    → starts_with_slash t ≡ false
    → fits t ≡ true
    → fits (slashed t) ≡ true
    → fits (s.curr_directory ++ slashed t) ≡ true
    → All (λ w. w ≢ dot) (tokens slash t)
    → walk (reverse ws) (tokens slash t) ≡ some st
    → fits (slash ∷ join slash (reverse st)) ≡ true
    → let path = s.curr_directory ++ slashed t in
      All IsName (reverse st)
      × (func_cd os rows pc s ≡ (
          if os.chdir_ok s.calls path
          then done tt (record s {
            curr_directory = slash ∷ join slash (reverse st);
            calls = chdir path ∷ s.calls;
          })
          else done tt
              (record s { calls = print_err (system_error (z_cmd pc)) ∷ chdir path ∷ s.calls })))
unfolding func_cd
func_cd_relative os rows pc t ws st s home named_dirs two got named relative small small' small''
      names leads fit =
    let dirs = names_IsDir ws named_dirs in
    let path = s.curr_directory ++ slashed t in
    let follows : counted [] (tokens slash path) ≡ some st =
      ap (λ d. counted [] (tokens slash (d ++ slashed t))) home
      ∙ ap (counted []) (
          tokens-sep slash (join slash ws ++ slashed t)
          ∙ tokens-join_append slash ws (slashed t) (words_of ws dirs)
          ∙ ap (λ l. ws ++ l) (tokens-slashed t))
      ∙ counted-names_append [] ws (tokens slash t) dirs
      ∙ counted-walk (reverse ws) (tokens slash t) names
      ∙ leads in
    let normal : All IsName (reverse st) =
      both (reverse st) (counted-tokens-IsDir path st follows) (
        All-reverse_aux (λ w. w ≢ dot) st []
          (walk-All (λ w. w ≢ dot) (reverse ws) (tokens slash t) st
            (All-reverse_aux (λ w. w ≢ dot) ws [] (without_dot ws named_dirs) tt) names leads)
          tt) in
    (
      normal,
      rw (two, got, cd_path_relative t s named relative small small' small'')
          (elim (Bool-cases (os.chdir_ok s.calls path)) [
            | inl e ↦ rw e (
                fix_dir_path-counted rows st
                  (record s { curr_directory = path; calls = chdir path ∷ s.calls }) small'' follows
                  fit)
            | inr e ↦ rw e
          ]),
    )
