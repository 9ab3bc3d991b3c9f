-- ===== src/Env/Vars.antt =====
-- EnvGetVars, and what a child sees of the environment.
use operating_system_profoli.Base.{
  ℕ, zero, suc, ◌≡◌, refl, ◌∙◌, inl, inr, Bool, true, false, some, List, [], ◌∷◌, ◌++◌, ◌&&◌, map,
  Text, codes, if◌then◌else◌, slice, length, length-append, arith, Bool-cases, ltb→lt, lt→ltb,
}
use operating_system_profoli.Command.{Command, pa, n_args}
use operating_system_profoli.Shell.{Shell, Cmd, and_then, done, fault, UnixEnv, word_size, fits}
use operating_system_profoli.Shell.Returns.{Returns}
use operating_system_profoli.Table.{insert}
use operating_system_profoli.Env.{unix_envs, func_setenv, env_get_vars, env_get_vars_from}
use operating_system_profoli.Env.Update.{binding, HasRoom, func_setenv-insert}

-- The line of a variable, `key=value`.
abbrev pub line : UnixEnv → Text
line e = (e.key ++ codes "=") ++ e.value

-- A line that fits its buffer, so do its parts.
parts-fit :
    (e : UnixEnv)
    → fits (line e) ≡ true
    → (fits e.key ≡ true) × (fits (e.key ++ codes "=") ≡ true) × (fits e.value ≡ true)
parts-fit e h =
    let small = ltb→lt (length (line e)) word_size h in
    let long = length-append (e.key ++ codes "=") e.value in
    let name = length-append e.key (codes "=") in
    (lt→ltb _ _ (omega arith), lt→ltb _ _ (omega arith), lt→ltb _ _ (omega arith))

-- Every line fits its buffer.
abbrev pub all_lines_fit : List UnixEnv → Bool
all_lines_fit [] = true
all_lines_fit (e ∷ es) = fits (line e) && all_lines_fit es

abbrev vars_or_fault : List UnixEnv → Cmd (List Text)
vars_or_fault l s = if all_lines_fit l then done (map line l) s else fault

env_get_vars_from_lem :
    (a : ℕ → UnixEnv) (i n : ℕ) (s : Shell)
    → env_get_vars_from a i n s ≡ vars_or_fault (slice a i n) s
unfolding env_get_vars_from slice
env_get_vars_from_lem a i zero s = refl
env_get_vars_from_lem a i (suc n) s = elim (Bool-cases (fits (line (a i)))) [
  | inl h ↦
      let (name, name', val) = parts-fit (a i) h in
      rw (name, name', val, h, env_get_vars_from_lem a (suc i) n s)
        (rest (all_lines_fit (slice a (suc i) n)))
  | inr h ↦ elim (Bool-cases (fits (a i).key)) [
    | inr p ↦ rw (h, p)
    | inl p ↦ elim (Bool-cases (fits ((a i).key ++ codes "="))) [
      | inr q ↦ rw (h, p, q)
      | inl q ↦ elim (Bool-cases (fits (a i).value)) [
        | inr r ↦ rw (h, p, q, r)
        | inl r ↦ rw (p, q, r, h)
      ]
    ]
  ]
]
  where
    rest :
        (b : Bool)
        → and_then
            (if b then done (map line (slice a (suc i) n)) s else fault)
            (λ l. done (line (a i) ∷ l))
          ≡ (if b then done (line (a i) ∷ map line (slice a (suc i) n)) s else fault)
    rest true = refl
    rest false = refl

-- EnvGetVars gives the lines `key=value` of the table in order and changes nothing, where each of
-- them fits a buffer of WORD_SIZE bytes; where one does not, it writes behind a buffer.
pub env_get_vars_lem :
    (s : Shell)
    → env_get_vars s
      ≡ (if all_lines_fit (unix_envs s) then done (map line (unix_envs s)) s else fault)
unfolding env_get_vars
env_get_vars_lem s = env_get_vars_from_lem s.unix_env 0 s.num_env s

-- What a child sees: after `setenv k v` with room for it, if each line of the new table fits its
-- buffer, EnvGetVars gives the old lines with `k=v` in place of the one for `k`, or behind them.
pub func_setenv-env_get_vars :
    (pc : Command) (k v : Text) (s : Shell)
    → n_args pc ≡ 3
    → (pa pc).az_args 1 ≡ some k
    → (pa pc).az_args 2 ≡ some v
    → fits k ≡ true
    → fits v ≡ true
    → HasRoom k s
    → all_lines_fit (insert UnixEnv.key (binding k v) (unix_envs s)) ≡ true
    → Returns
        (λ _ s'.
          env_get_vars s' ≡ done (map line (insert UnixEnv.key (binding k v) (unix_envs s))) s')
        (func_setenv pc s)
func_setenv-env_get_vars pc k v s three got_k got_v hk hv room small =
    let (a, n, run, view) = func_setenv-insert pc k v s three got_k got_v hk hv room in
    rw run (env_get_vars_lem (record s { unix_env = a; num_env = n }) ∙ rw (view, small))
