-- ===== src/Jobs/Commands.antt =====
-- The built-in commands fg, bg and kill: func_fg, func_bg and func_kill.
pub mod Foreground
pub mod Keeps
use operating_system_profoli.Base.{
  ℕ, zero, suc, ◌+◌, ◌-◌, ◌*◌, Bool, true, false, Option, none, some, List, [], ◌∷◌, ◌&&◌, ◌||◌,
  map, Text, codes, ◌==◌, ltb, leb, if◌then◌else◌,
}
use operating_system_profoli.Command.{Command, pa, n_args}
use operating_system_profoli.Shell.{
  Cmd, Os, Process, Job, sigterm, job_started, job_line, no_job, too_few_arguments,
  too_many_arguments, pure, undefined, ◌>>=◌, ◌>>◌, say, complain, some_or_fault,
}
use operating_system_profoli.Jobs.Update.{job_at, put_job, is_stopped_job}
use operating_system_profoli.Jobs.Control.{
  display_process_ids, kill_group, make_job_background, make_job_foreground,
}

abbrev is_space : ℕ → Bool
is_space c = c == 32 || (leb 9 c && leb c 13)

-- The digits at the front, behind a number.
digits_from : ℕ → Text → ℕ
digits_from n [] = n
digits_from n (c ∷ t) =
    let rest = digits_from (n * 10 + (c - 48)) t in if leb 48 c && leb c 57 then rest else n

-- `none` for a number below 0.
negated : ℕ → Option ℕ
negated zero = some 0
negated (suc n) = none

-- `atoi`
unfoldable pub atoi : Text → Option ℕ
unfolding digits_from negated
atoi [] = some 0
atoi (c ∷ t) =
    let rest = atoi t in
    if is_space c
    then rest
    else if c == b'-'
    then negated (digits_from 0 t)
    else if c == b'+'
    then some (digits_from 0 t)
    else some (digits_from 0 (c ∷ t))

abbrev same_number : Option ℕ → ℕ → Bool
same_number none n = false
same_number (some m) n = n == m

-- `atoi(arg + 1)`: of the empty text the code reads behind the end, and a number that is no `int`
-- is undefined.
pub job_arg : Text → Cmd (Option ℕ)
unfolding atoi
job_arg [] = undefined
job_arg (c ∷ t) = elim (atoi t) [
  | none ↦ pure none
  | some n ↦ (if ltb n 2147483648 then pure (some n) else undefined)
]

-- The place of the first job that passes the test.
unfoldable pub find_job : (Job → Bool) → List Job → Option ℕ
find_job test [] = none
find_job test (j ∷ js) =
    let rest = find_job test js in
    if test j then some 0 else elim rest [ none ↦ none | some i ↦ some (suc i) ]

-- The loop `while (job != NULL) { if (job->job_num == atoi(azArgs[i] + 1)) break; … }`, which reads
-- the argument only if there is a job.
pub find_job_arg : Command → ℕ → Cmd (Option ℕ)
unfolding job_arg
find_job_arg pc i s = elim s.job_head [
  | [] ↦ pure none s
  | _ ∷ _ ↦
      (do
        t ← some_or_fault ((pa pc).az_args i)
        n ← job_arg t
        λ s. pure (find_job (λ j. same_number n j.job_num) s.job_head) s)
        s
]

abbrev pub continued : Process → Process
continued p = record p { is_stopped = false }

-- `p->stopped = 0` for every process, and `notified`.
abbrev pub wake : Bool → Job → Job
wake told job = record job { process = map continued job.process; notified = told }

module _ (os : Os) where
  unfoldable pub func_fg : Command → Cmd (Unit {0})
  unfolding find_job_arg
  func_fg pc =
      if n_args pc == 1
      then complain (too_few_arguments (codes "fg"))
      else if ltb 2 (n_args pc)
      then complain (too_many_arguments (codes "fg"))
      else do
        found ← find_job_arg pc 1
        elim found [
          | none ↦ complain (no_job (codes "fg"))
          | some j ↦ (do
            job ← job_at j
            put_job j (wake true job)
            say (job_line job.job_name)
            make_job_foreground os j true)
        ]

  -- The job that `bg` means: the first stopped one, or the one with the number.
  bg_job : Command → Cmd (Option ℕ)
  unfolding find_job_arg
  bg_job pc =
      if n_args pc == 1
      then (λ s. pure (find_job (λ j. is_stopped_job j.run_status) s.job_head) s)
      else find_job_arg pc 1

  unfoldable pub func_bg : Command → Cmd (Unit {0})
  unfolding bg_job
  func_bg pc = if ltb 2 (n_args pc) then complain (too_many_arguments (codes "bg")) else do
    found ← bg_job pc
    elim found [
      | none ↦ complain (no_job (codes "bg"))
      | some j ↦ (do
        job ← job_at j
        put_job j (wake false job)
        say (job_started job.job_num (display_process_ids job.process))
        make_job_background os j true)
    ]

  -- One round of the loop of func_kill: whether the loop goes on.
  kill_round : Command → ℕ → Cmd Bool
  unfolding find_job_arg
  kill_round pc i = do
    found ← find_job_arg pc i
    elim found [
      | none ↦ pure true
      | some j ↦ (do
        job ← job_at j
        put_job j (wake false job)
        make_job_background os j true
        kill_group os job.process_group_id sigterm)
    ]

  kill_loop : Command → (i rounds : ℕ) → Cmd (Unit {0})
  kill_loop pc i zero = pure tt
  kill_loop pc i (suc rounds) = do
    again ← kill_round pc i
    let rest = kill_loop pc (suc i) rounds
    if again then rest else pure tt

  unfoldable pub func_kill : Command → Cmd (Unit {0})
  unfolding kill_round kill_loop
  func_kill pc =
      if n_args pc == 1
      then complain (too_few_arguments (codes "kill"))
      else kill_loop pc 1 (n_args pc - 1)
