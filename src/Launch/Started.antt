-- ===== src/Launch/Started.antt =====
-- A new job in the job table.
use mathlib.Core.Path.{subst}
use operating_system_profoli.Base.{
  ℕ, suc, ◌+◌, ◌-◌, ◌≡◌, ◌≢◌, refl, ◌∙◌, true, List, [], ◌∷◌, map, length, arith,
}
use operating_system_profoli.Command.{Command, z_cmd, pr_redirects}
use operating_system_profoli.Shell.{Shell, Job, Process, Os, fits}
use operating_system_profoli.Shell.Returns.{Returns, Returns-mono}
use operating_system_profoli.Jobs.Notify.Numbers.{Falling, JobTable}
use operating_system_profoli.Launch.{Launch, pipeline, stages_in, add_job, start_job}
use operating_system_profoli.Launch.Stages.{CanFork, Front, launch_loop-Front, pipeline-Chain}

-- The new job in front of the old ones: it has the next number and a process for each stage.
abbrev pub Started : Command → Shell → Shell → Type 0
Started pc s t =
    JobTable t
    × ((job : Job) × (t.job_head ≡ job ∷ s.job_head)
        × (job.job_num ≡ s.num_jobs + 1)
        × (length job.process ≡ length (pipeline pc)))

some-processes : (ps : List Process) (n : ℕ) → length ps ≡ suc n → ps ≢ []
some-processes [] n e = λ _. omega (arith, e)
some-processes (p ∷ ps) n e = λ q. cc

module _ (pc : Command) (s : Shell) where
  Front-Started :
      (t : Shell)
      → JobTable s
      → Front (s.num_jobs + 1) (s.num_jobs + 1) s.job_head (length (pipeline pc) + 0) t
      → Started pc s t
  Front-Started t table (job, head, n, len, c) = (
    record {
      numbered = rw (head, c, n) (omega arith, omega arith, lower);
      busy = rw head (
        some-processes job.process (length (stages_in (pr_redirects pc))) (len ∙ omega arith),
        table.busy,
      );
    },
    (job, head, n, len ∙ omega arith),
  )
    where
      lower : Falling ((s.num_jobs + 1) - 1) (map Job.job_num s.job_head)
      lower =
          let same : s.num_jobs ≡ (s.num_jobs + 1) - 1 = omega arith in
          subst (λ m. Falling m (map Job.job_num s.job_head)) same table.numbered

  -- Where the system can fork and make pipes, and the name of the command fits its buffer, ExecCommand
  -- makes a job with the next number and one process for each command of the pipeline, in front of the
  -- other jobs, and a well-numbered job table is well-numbered again.
  pub start_job-Started :
      (os : Os) (l : Launch)
      → CanFork os
      → JobTable s
      → fits (z_cmd pc) ≡ true
      → Returns (λ _ t. Started pc s t) (start_job os l pc s)
  unfolding start_job add_job
  start_job-Started os l can table small = rw small (
      Returns-mono
        (λ _ t. Front (s.num_jobs + 1) (s.num_jobs + 1) s.job_head (length (pipeline pc) + 0) t)
        (λ _ t. Started pc s t) _
        (launch_loop-Front (s.num_jobs + 1) (s.num_jobs + 1) s.job_head os can l (pipeline pc) _ 0 _
          (pipeline-Chain pc) (_, refl, refl, refl, refl))
        λ _ t h. Front-Started t table h)
