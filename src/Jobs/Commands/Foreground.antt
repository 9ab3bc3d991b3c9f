-- ===== src/Jobs/Commands/Foreground.antt =====
-- The job that `fg` brings to the foreground.
use mathlib.Core.Option
use operating_system_profoli.Base.{
  ℕ, suc, ◌≡◌, ◌≢◌, ◌⊎◌, refl, sym, ◌∙◌, get_elem?-set_self, ap, inl, inr, true, Option, none, some,
  List, [], ◌∷◌, map, All, Text, codes, ◌==◌, ltb, get_elem?, set, Bool-cases, ==_iff,
}
use operating_system_profoli.Command.{Command, pa, n_args}
use operating_system_profoli.Shell.{
  Shell, Call, done, Job, Process, Os, print_err, print_out, no_job, job_line,
}
use operating_system_profoli.Jobs.Notify.Survivors.{HasProcess}
use operating_system_profoli.Jobs.Control.{make_job_foreground}
use operating_system_profoli.Jobs.Control.Places.{Waited, at-map, All-at, put-Waited}
use operating_system_profoli.Jobs.Control.Waits.{Ends, Ends-mono, IsStuck, map-at}
use operating_system_profoli.Jobs.Control.Terminal.{
  GivenBack, GivenBack-after, handed, make_job_foreground-GivenBack,
}
use operating_system_profoli.Jobs.Commands.{
  atoi, find_job, job_arg, find_job_arg, same_number, continued, wake, func_fg,
}

-- The first job with a number, or no job has it.
abbrev Sought : ℕ → List Job → Option ℕ → Type 0
Sought m js none = All (λ job. job.job_num ≢ m) js
Sought m js (some j) = get_elem? (map Job.job_num js) j ≡ some m

Sought-behind :
    (m : ℕ) (job : Job) (js : List Job)
    → job.job_num ≢ m
    → (o : Option ℕ) → Sought m js o
    → Sought m (job ∷ js) (elim o [ none ↦ none | some i ↦ some (suc i) ])
Sought-behind m job js ne none all = (ne, all)
Sought-behind m job js ne (some i) here = here

find_job-Sought :
    (m : ℕ) (js : List Job) → Sought m js (find_job (λ job. same_number (some m) job.job_num) js)
unfolding find_job
find_job-Sought m [] = tt
find_job-Sought m (job ∷ js) = elim (Bool-cases (job.job_num == m)) [
  | inl e ↦ rw e (ap some ((==_iff job.job_num m).0 e))
  | inr e ↦ rw e (
      Sought-behind m job js (λ q. let same = (==_iff job.job_num m).1 q in cc)
        (find_job (λ j. same_number (some m) j.job_num) js) (find_job-Sought m js))
]

continued-HasProcess : (ps : List Process) → ps ≢ [] → map continued ps ≢ []
continued-HasProcess [] ne = ne
continued-HasProcess (p ∷ ps) ne = λ q. cc

-- The job at this place has the number.
abbrev pub Chosen : ℕ → (Job → ℕ → Type 0) → Shell → Type 0
Chosen m P s =
    (j : ℕ) × (job : Job) × (get_elem? s.job_head j ≡ some job) × (job.job_num ≡ m) × P job j

-- The calls of `fg` before the wait.
abbrev pub fg_calls : Os → Job → Shell → List Call
fg_calls os job s = handed os true job (print_out (job_line job.job_name) ∷ s.calls)

module _ (pc : Command) (c m : ℕ) (t : Text) where
  job_arg-number :
      (s : Shell) → atoi t ≡ some m → ltb m 2147483648 ≡ true → job_arg (c ∷ t) s ≡ done (some m) s
  unfolding job_arg
  job_arg-number s number small = rw (number, small, job_arg)

  find_job_arg-Sought :
      (s : Shell)
      → (pa pc).az_args 1 ≡ some (c ∷ t)
      → atoi t ≡ some m
      → ltb m 2147483648 ≡ true
      → (o : Option ℕ) × (find_job_arg pc 1 s ≡ done o s) × Sought m s.job_head o
  unfolding find_job_arg
  find_job_arg-Sought s arg number small = of_jobs s.job_head refl
    where
      of_jobs :
          (js : List Job)
          → s.job_head ≡ js
          → (o : Option ℕ) × (find_job_arg pc 1 s ≡ done o s) × Sought m s.job_head o
      of_jobs [] e = (none, rw e refl, rw e tt)
      of_jobs (job ∷ js) e = (
        find_job (λ j. same_number (some m) j.job_num) s.job_head,
        rw (e, arg, job_arg-number (record s { job_head = job ∷ js }) number small) refl,
        find_job-Sought m s.job_head,
      )

  -- `fg` with one argument whose text behind its first byte is a number, from a list of jobs that each have
  -- a process: if no job has the number it prints that and does nothing else. Otherwise, for a job that has
  -- it, it prints the name, gives the job's group the terminal, sets its modes and sends it SIGCONT, and
  -- calls `waitpid` once or more; when it stops, the job does not run or the last answer names no process of
  -- a job. It keeps the modes that are read then in the job and gives the terminal back to the shell. Or it
  -- blocks in a `waitpid`, after every report was taken and where there is a child.
  pub func_fg-Sought :
      (os : Os) (s : Shell)
      → n_args pc ≡ 2
      → (pa pc).az_args 1 ≡ some (c ∷ t)
      → atoi t ≡ some m
      → ltb m 2147483648 ≡ true
      → All HasProcess s.job_head
      → Ends
          (λ _ s'.
            Chosen m (λ job j. GivenBack os j (fg_calls os job s) s s') s
            ⊎ (All (λ job. job.job_num ≢ m) s.job_head
                × (s' ≡ record s { calls = print_err (no_job (codes "fg")) ∷ s.calls })))
          (λ s'. Chosen m (λ job j. IsStuck os s.reports (fg_calls os job s) s') s)
          (func_fg os pc s)
  unfolding func_fg
  func_fg-Sought os s two arg number small all =
      let (o, run, sought) = find_job_arg-Sought s arg number small in of_found o run sought
    where
      of_found :
          (o : Option ℕ)
          → find_job_arg pc 1 s ≡ done o s
          → Sought m s.job_head o
          → Ends
              (λ _ s'.
                Chosen m (λ job j. GivenBack os j (fg_calls os job s) s s') s
                ⊎ (All (λ job. job.job_num ≢ m) s.job_head
                    × (s' ≡ record s { calls = print_err (no_job (codes "fg")) ∷ s.calls })))
              (λ s'. Chosen m (λ job j. IsStuck os s.reports (fg_calls os job s) s') s)
              (func_fg os pc s)
      of_found none run sought = rw (two, run) (inr (sought, refl))
      of_found (some j) run sought =
          let (job, at) = at-map s.job_head j sought in
          let number : job.job_num ≡ m =
            Option.some-injective _ _ (sym (map-at s.job_head j at) ∙ sought) in
          let woken = wake true job in
          let put =
            put-Waited s j woken all at refl
              (continued-HasProcess job.process (All-at s.job_head j all at)) in
          let told : Shell = record s {
            job_head = set s.job_head j woken;
            calls = print_out (job_line job.job_name) ∷ s.calls;
          } in
          let w : Waited s told = record {
            owner = refl;
            count = refl;
            numbers = put.numbers;
            busy = put.busy;
          } in
          rw (two, run, at)
            (Ends-mono (λ _ t'. GivenBack os j (fg_calls os job s) told t') _
              (IsStuck os s.reports (fg_calls os job s)) _ (make_job_foreground os j true told)
              (make_job_foreground-GivenBack os j true told woken put.busy
                (get_elem?-set_self s.job_head j woken at))
              (λ _ t' g.
                inl
                  (j, job, at, number, GivenBack-after os j (fg_calls os job s) s told t' w refl g))
              (λ t' stuck. (j, job, at, number, stuck)))
