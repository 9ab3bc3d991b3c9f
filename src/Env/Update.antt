-- ===== src/Env/Update.antt =====
-- What setenv and unsetenv do to the entries of the environment.
use native.Mathlib.Numerals.{add-one}
use operating_system_profoli.Base.{
  ℕ, suc, ◌+◌, ◌-◌, ◌<◌, ◌≡◌, ◌≢◌, sym, ◌∙◌, ap, ◌⊎◌, inl, inr, true, none, some, [], Text, codes,
  write, slice, shift_down, arith, Option-cases, ==_ne, lt→ltb,
}
use operating_system_profoli.Command.{Command, pa, n_args}
use operating_system_profoli.Shell.{
  Shell, Outcome, done, fault, UnixEnv, word_limit, fits, complain, limit_reached,
}
use operating_system_profoli.Table.{insert, delete}
use operating_system_profoli.Table.Refine.{
  find-some, insert-hit, insert-miss, delete-found, delete-miss,
}
use operating_system_profoli.Env.{
  unix_envs, find_env, func_setenv, func_unsetenv, set_env, clear_env, remove_env,
}

-- A variable with its value.
abbrev pub binding : Text → Text → UnixEnv
binding k v = record { key = k; value = v }

-- What the writes of the functions do to the entries.
module _ (k v : Text) (s : Shell) where
  pub hit-view :
      (i : ℕ)
      → find_env k s ≡ some i
      → slice (write s.unix_env i (record (s.unix_env i) { value = v })) 0 s.num_env
        ≡ insert UnixEnv.key (binding k v) (unix_envs s)
  hit-view i e =
      ap (λ t. slice (write s.unix_env i (binding t v)) 0 s.num_env)
        (find-some (λ j. (s.unix_env j).key) k 0 s.num_env e).2
      ∙ insert-hit UnixEnv.key s.unix_env (binding k v) 0 s.num_env e

  pub miss-view :
      find_env k s ≡ none
      → slice (write s.unix_env s.num_env (binding k v)) 0 (s.num_env + 1)
        ≡ insert UnixEnv.key (binding k v) (unix_envs s)
  miss-view e =
      rw add-one
        (insert-miss UnixEnv.key s.unix_env (binding k v) 0 s.num_env s.num_env (omega arith) e)

-- There is room for the key: it is bound already, or the table is not full.
abbrev pub HasRoom : Text → Shell → Type 0
HasRoom k s = (find_env k s ≢ none) ⊎ (s.num_env < word_limit)

room_left : (k : Text) (s : Shell) → find_env k s ≡ none → HasRoom k s → s.num_env < word_limit
room_left k s e (inl h) = absurd (h e)
room_left k s e (inr h) = h

-- The run inserts the binding, and changes nothing but the table.
abbrev pub Inserts : Outcome (Unit {0}) → UnixEnv → Shell → Type 0
Inserts run b s =
    (a : ℕ → UnixEnv) × (n : ℕ) × (run ≡ done tt (record s { unix_env = a; num_env = n }))
    × (slice a 0 n ≡ insert UnixEnv.key b (unix_envs s))

set_env-insert :
    (k v : Text) (s : Shell)
    → fits k ≡ true
    → fits v ≡ true
    → HasRoom k s
    → Inserts (set_env k v s) (binding k v) s
unfolding set_env
set_env-insert k v s hk hv room = elim (Option-cases (find_env k s)) [
  | inr (i, e) ↦ (
    write s.unix_env i (record (s.unix_env i) { value = v }),
    s.num_env,
    rw (e, set_env, hv),
    hit-view k v s i e,
  )
  | inl e ↦
      let free = room_left k s e room in
      (
        write s.unix_env s.num_env (binding k v),
        s.num_env + 1,
        rw (
          e,
          set_env,
          ==_ne s.num_env word_limit (λ q. omega (arith, free, q)),
          lt→ltb s.num_env word_limit free,
          hk,
          hv,
        ),
        miss-view k v s e,
      )
]

-- `setenv k v` with room for it, and texts that fit their buffers, inserts the binding, and changes
-- nothing but the table.
pub func_setenv-insert :
    (pc : Command) (k v : Text) (s : Shell)
    → n_args pc ≡ 3
    → (pa pc).az_args 1 ≡ some k
    → (pa pc).az_args 2 ≡ some v
    → fits k ≡ true
    → fits v ≡ true
    → HasRoom k s
    → Inserts (func_setenv pc s) (binding k v) s
unfolding func_setenv
func_setenv-insert pc k v s three got_k got_v hk hv room =
    let (a, n, run, view) = set_env-insert k v s hk hv room in
    (a, n, rw (three, got_k, got_v) run, view)

-- `setenv k` with room for it binds the name to the empty text, and changes nothing but the table.
pub func_setenv-clear :
    (pc : Command) (k : Text) (s : Shell)
    → n_args pc ≡ 2
    → (pa pc).az_args 1 ≡ some k
    → fits k ≡ true
    → HasRoom k s
    → Inserts (func_setenv pc s) (binding k []) s
unfolding func_setenv
func_setenv-clear pc k s two got hk room = elim (Option-cases (find_env k s)) [
  | inr (i, e) ↦ (
    write s.unix_env i (record (s.unix_env i) { value = [] }),
    s.num_env,
    rw (two, got, e, clear_env),
    hit-view k [] s i e,
  )
  | inl e ↦ (
    write s.unix_env s.num_env (binding k []),
    s.num_env + 1,
    rw (two, got, e, clear_env, lt→ltb s.num_env word_limit (room_left k s e room), hk),
    miss-view k [] s e,
  )
]

-- On a full table `setenv k v` with a new name prints that the limit is reached and leaves the
-- table as it is, while `setenv k` writes behind the array.
pub func_setenv_full :
    (pc : Command) (k : Text) (s : Shell)
    → (pa pc).az_args 1 ≡ some k
    → find_env k s ≡ none
    → s.num_env ≡ word_limit
    → (n_args pc ≡ 2 → func_setenv pc s ≡ fault)
      × ((v : Text)
          → n_args pc ≡ 3
          → (pa pc).az_args 2 ≡ some v
          → func_setenv pc s ≡ complain (limit_reached (codes "setenv")) s)
unfolding func_setenv
func_setenv_full pc k s got e full = (
  λ two. rw (two, got, e, clear_env, full),
  λ v three got_v. rw (three, got, got_v, e, set_env, full),
)

-- `unsetenv k` deletes the name, and changes nothing but the table.
pub func_unsetenv-delete :
    (pc : Command) (k : Text) (s : Shell)
    → n_args pc ≡ 2
    → (pa pc).az_args 1 ≡ some k
    → (a : ℕ → UnixEnv) × (n : ℕ) × (func_unsetenv pc s
        ≡ done tt (record s { unix_env = a; num_env = n }))
      × (slice a 0 n ≡ delete UnixEnv.key k (unix_envs s))
unfolding func_unsetenv
func_unsetenv-delete pc k s two name = elim (Option-cases (find_env k s)) [
  | inl e ↦ (
    s.unix_env,
    s.num_env,
    rw (two, name, e, remove_env),
    sym (delete-miss UnixEnv.key s.unix_env k 0 s.num_env e),
  )
  | inr (i, e) ↦ (
    shift_down s.unix_env i (s.num_env - suc i),
    s.num_env - 1,
    rw (two, name, e, remove_env),
    delete-found UnixEnv.key s.unix_env k s.num_env i e,
  )
]
