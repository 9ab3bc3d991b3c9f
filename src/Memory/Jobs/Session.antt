-- ===== src/Memory/Jobs/Session.antt =====
-- The blocks of the job list through the life of the shell.
use mathlib.Core.Path.{subst}
use mathlib.Core.List.{append_assoc}
use operating_system_profoli.Base.{
  Bool-cases, ltb, inl, inr, ℕ, zero, suc, ◌+◌, ◌≡◌, refl, sym, ◌∙◌, ap, inl, inr, none, some, List,
  [], ◌∷◌, ◌++◌, map, All, arith, length, Bool-cases,
}
use operating_system_profoli.Memory.{one_of, occurrences, malloc}
use operating_system_profoli.Memory.Owned.{Same, Makes, Makes-then, Makes-mono, occurrences-append}
use operating_system_profoli.Memory.Jobs.{
  HeapJob, jobs_blocks, update_blocks, free_jobs, malloc_each, launch_blocks, Event, started,
  reported, notified, run_event, run_events, run_session,
}
use operating_system_profoli.Memory.Jobs.Freed.{free_each-Frees, free_jobs-Frees}
use operating_system_profoli.Memory.Jobs.Settled.{settle_blocks-Makes}
use operating_system_profoli.Memory.Jobs.Reports.{updated-busy, update_blocks-Makes}
use operating_system_profoli.Shell.{Shell, Job}
use operating_system_profoli.Jobs.Notify.Survivors.{HasProcess, settle_jobs-Leaves}

-- The shell before main: the loop over the jobs reads none of it.
before_main : Shell
before_main = record {
  host_name = [];
  home_directory = [];
  curr_directory = [];
  num_env = 0;
  unix_env = λ _. record { key = []; value = [] };
  num_alias = 0;
  arr_aliases = λ _. record { from = []; to = [] };
  num_jobs = 0;
  job_head = [];
  pid_terminal = 0;
  terminal_tmodes = 0;
  calls = [];
  reports = [];
}

abbrev pub IsBusy : List HeapJob → Type 0
IsBusy hjs = All HasProcess (map HeapJob.job hjs)

-- A job is started for a pipeline, which has a command.
abbrev pub StartsBusy : Event → Type 0
StartsBusy (started num_env job) = HasProcess job
StartsBusy (reported id status) = Unit {0}
StartsBusy notified = Unit {0}

module _ (alloc : List ℕ → ℕ) where
  malloc_each-Makes :
      (n : ℕ) (live rest : List ℕ)
      → Same live rest
      → Makes (λ _. Unit {0}) (λ bs. bs) rest (malloc_each alloc n live)
  unfolding malloc_each malloc occurrences
  malloc_each-Makes zero live rest h = ([], live, refl, tt, h)
  malloc_each-Makes (suc n) live rest h =
      let b = alloc live in
      let (bs, live', run, _, left) =
        malloc_each-Makes n (b ∷ live) (b ∷ rest) (λ c. omega (arith, h c)) in
      (
        b ∷ bs,
        live',
        rw run refl,
        tt,
        λ c.
            omega (arith, left c, occurrences-append c bs (b ∷ rest), occurrences-append c bs rest),
      )

  launch_blocks-Makes :
      (num_env forks : ℕ) (job : Job) (hjs : List HeapJob) (live rest : List ℕ)
      → Same live (jobs_blocks hjs ++ rest)
      → Makes
          (λ hjs'. map HeapJob.job hjs' ≡ job ∷ map HeapJob.job hjs)
          jobs_blocks
          rest
          (launch_blocks alloc num_env forks job hjs live)
  unfolding launch_blocks malloc occurrences
  launch_blocks-Makes num_env forks job hjs live rest h =
      let (envs, live1, run1, _, left1) =
        malloc_each-Makes num_env live (jobs_blocks hjs ++ rest) h in
      let block = alloc live1 in
      let name = alloc (block ∷ live1) in
      let (ps, live2, run2, _, left2) =
        malloc_each-Makes forks (name ∷ block ∷ live1)
          (name ∷ block ∷ (envs ++ (jobs_blocks hjs ++ rest))) (λ c. omega (arith, left1 c)) in
      let (live3, run3, left3) =
        free_each-Frees envs live2 (block ∷ name ∷ (ps ++ (jobs_blocks hjs ++ rest))) (λ c. omega (
          arith,
          left2 c,
          occurrences-append c ps (name ∷ block ∷ (envs ++ (jobs_blocks hjs ++ rest))),
          occurrences-append c envs (jobs_blocks hjs ++ rest),
          occurrences-append c ps (jobs_blocks hjs ++ rest),
          occurrences-append c envs (block ∷ name ∷ (ps ++ (jobs_blocks hjs ++ rest))),
        )) in
      (
        record { job = job; block = block; name = name; processes = ps } ∷ hjs,
        live3,
        rw (run1, run2, run3) refl,
        refl,
        λ c.
            left3 c
            ∙ ap (λ n. one_of c block + (one_of c name + n))
                (ap (occurrences c) (sym (append_assoc ps (jobs_blocks hjs) rest))),
      )

  run_event-Makes :
      (e : Event) (hjs : List HeapJob) (live rest : List ℕ)
      → StartsBusy e
      → IsBusy hjs
      → Same live (jobs_blocks hjs ++ rest)
      → Makes IsBusy jobs_blocks rest (run_event alloc e hjs live)
  unfolding run_event
  run_event-Makes (started num_env job) hjs live rest new busy h =
      Makes-mono (λ hjs'. map HeapJob.job hjs' ≡ job ∷ map HeapJob.job hjs) IsBusy jobs_blocks rest
        _ (λ hjs' e. subst (All HasProcess) (sym e) (new, busy))
        (launch_blocks-Makes num_env (length job.process) job hjs live rest h)
  run_event-Makes (reported id status) hjs live rest new busy h = elim (Bool-cases (ltb 0 id)) [
    | inl e ↦ rw e (
        Makes-mono _ IsBusy jobs_blocks rest (update_blocks id status hjs live)
          (λ hjs' e.
            subst (All HasProcess) (sym e) (updated-busy id status (map HeapJob.job hjs) busy))
          (update_blocks-Makes id status hjs live rest h))
    | inr e ↦ (hjs, live, rw e refl, busy, h)
  ]
  run_event-Makes notified hjs live rest new busy h =
      let (left, c, run, _, busy') = settle_jobs-Leaves (map HeapJob.job hjs) before_main busy in
      Makes-mono (λ hjs'. map HeapJob.job hjs' ≡ left) IsBusy jobs_blocks rest _
        (λ hjs' e. subst (All HasProcess) (sym e) busy')
        (settle_blocks-Makes hjs before_main (record before_main { calls = c }) left none live rest
          run tt h)

  run_events-Makes :
      (es : List Event) (hjs : List HeapJob) (live rest : List ℕ)
      → All StartsBusy es
      → IsBusy hjs
      → Same live (jobs_blocks hjs ++ rest)
      → Makes IsBusy jobs_blocks rest (run_events alloc es hjs live)
  unfolding run_events
  run_events-Makes [] hjs live rest new busy h = (hjs, live, refl, busy, h)
  run_events-Makes (e ∷ es) hjs live rest new busy h =
      Makes-then IsBusy IsBusy jobs_blocks jobs_blocks rest rest (run_event alloc e hjs live) _
        (run_event-Makes e hjs live rest new.0 busy h)
        λ hjs' live' busy' h'. run_events-Makes es hjs' live' rest new.1 busy' h'

  -- Whatever jobs with processes are started, whatever is reported and however often func_JobNotification
  -- runs, no block is used or freed that is not live, whatever the allocator gives, and at the end of main
  -- the blocks are live that were live before the first job.
  pub run_session-Same :
      (es : List Event) (live : List ℕ)
      → All StartsBusy es
      → (live' : List ℕ) × (run_session alloc es live ≡ some (tt, live')) × Same live' live
  unfolding run_session
  run_session-Same es live new =
      let (_, live', run, _, left) =
        Makes-then IsBusy (λ _. Unit {0}) jobs_blocks (λ _. []) live live
          (run_events alloc es [] live) free_jobs
          (run_events-Makes es [] live live new tt (λ c. refl))
          λ hjs live1 busy h.
            let (live2, freed, kept) = free_jobs-Frees hjs live1 live h in
            (tt, live2, freed, tt, kept) in
      (live', run, left)
