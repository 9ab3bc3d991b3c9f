-- ===== src/Jobs/Commands/Keeps.antt =====
-- func_fg, func_bg and func_kill, and the descriptors.
use operating_system_profoli.Base.{
  ℕ, zero, suc, ◌-◌, refl, true, false, none, some, [], ◌∷◌, Text, codes, ◌==◌, ltb, if◌then◌else◌,
}
use operating_system_profoli.Command.{Command, pa, n_args}
use operating_system_profoli.Shell.{
  Os, too_few_arguments, too_many_arguments, job_line, no_job, job_started, sigterm, ◌>>=◌, pure,
  undefined, say, some_or_fault,
}
use operating_system_profoli.Shell.Descriptors.{
  Keeps, Keeps-pure, Keeps-then, Keeps-if, Keeps-say, Keeps-complain, Keeps-some, Keeps-option,
  KeptBy,
}
use operating_system_profoli.Jobs.Update.{job_at, put_job}
use operating_system_profoli.Jobs.Control.{display_process_ids, make_job_background}
use operating_system_profoli.Jobs.Control.Keeps.{
  job_at-Keeps, kill_group-Keeps, make_job_background-Keeps, make_job_foreground-Keeps,
}
use operating_system_profoli.Jobs.Commands.{
  atoi, same_number, job_arg, find_job, find_job_arg, wake, func_fg, bg_job, func_bg, kill_round,
  kill_loop, func_kill,
}

module _ (os : Os) where
  job_arg-Keeps : (t : Text) → Keeps os (job_arg t)
  unfolding job_arg
  job_arg-Keeps [] s = tt
  job_arg-Keeps (c ∷ t) s =
      Keeps-option os (atoi t) (pure none)
        (λ n. if ltb n 2147483648 then pure (some n) else undefined) (λ t fd. refl)
        (λ n. Keeps-if os (ltb n 2147483648) (pure (some n)) undefined (λ t fd. refl) (λ s. tt)) s

  find_job_arg-Keeps : (pc : Command) (i : ℕ) → Keeps os (find_job_arg pc i)
  unfolding find_job_arg
  find_job_arg-Keeps pc i s =
      elim s.job_head
        as (λ js. KeptBy os s (elim js [
          | [] ↦ pure none s
          | _ ∷ _ ↦
              (do
                t ← some_or_fault ((pa pc).az_args i)
                n ← job_arg t
                λ s. pure (find_job (λ j. same_number n j.job_num) s.job_head) s)
                s
        ])) [
          | [] ↦ (λ fd. refl)
          | _ ∷ _ ↦
              Keeps-then os (some_or_fault ((pa pc).az_args i)) _
                (Keeps-some os ((pa pc).az_args i))
                (λ t. Keeps-then os (job_arg t) _ (job_arg-Keeps t) λ n s fd. refl) s
        ]

  pub func_fg-Keeps : (pc : Command) → Keeps os (func_fg os pc)
  unfolding func_fg
  func_fg-Keeps pc =
      Keeps-if os (n_args pc == 1) _ _ (Keeps-complain os (too_few_arguments (codes "fg"))) (
        Keeps-if os (ltb 2 (n_args pc)) _ _ (Keeps-complain os (too_many_arguments (codes "fg"))) (
          Keeps-then os (find_job_arg pc 1) _ (find_job_arg-Keeps pc 1) λ found.
            Keeps-option os found _ _ (Keeps-complain os (no_job (codes "fg"))) λ j.
              Keeps-then os (job_at j) _ (job_at-Keeps os j) λ job.
                Keeps-then os (put_job j (wake true job)) _ (λ s fd. refl)
                  λ _.
                    Keeps-then os (say (job_line job.job_name)) _
                      (Keeps-say os (job_line job.job_name))
                      λ _. make_job_foreground-Keeps os j true))

  bg_job-Keeps : (pc : Command) → Keeps os (bg_job os pc)
  unfolding bg_job
  bg_job-Keeps pc = Keeps-if os (n_args pc == 1) _ _ (λ s fd. refl) (find_job_arg-Keeps pc 1)

  pub func_bg-Keeps : (pc : Command) → Keeps os (func_bg os pc)
  unfolding func_bg
  func_bg-Keeps pc =
      Keeps-if os (ltb 2 (n_args pc)) _ _ (Keeps-complain os (too_many_arguments (codes "bg"))) (
        Keeps-then os (bg_job os pc) _ (bg_job-Keeps pc) λ found.
          Keeps-option os found _ _ (Keeps-complain os (no_job (codes "bg"))) λ j.
            Keeps-then os (job_at j) _ (job_at-Keeps os j) λ job.
              Keeps-then os (put_job j (wake false job)) _ (λ s fd. refl)
                λ _.
                  Keeps-then os (say (job_started job.job_num (display_process_ids job.process))) _
                    (Keeps-say os (job_started job.job_num (display_process_ids job.process)))
                    λ _. make_job_background-Keeps os j true)

  kill_round-Keeps : (pc : Command) (i : ℕ) → Keeps os (kill_round os pc i)
  unfolding kill_round
  kill_round-Keeps pc i = Keeps-then os (find_job_arg pc i) _ (find_job_arg-Keeps pc i) λ found.
      Keeps-option os found (pure true) _ (Keeps-pure os true) λ j.
        Keeps-then os (job_at j) _ (job_at-Keeps os j) λ job.
          Keeps-then os (put_job j (wake false job)) _ (λ s fd. refl)
            λ _.
              Keeps-then os (make_job_background os j true) _ (make_job_background-Keeps os j true)
                λ _. kill_group-Keeps os job.process_group_id sigterm

  kill_loop-Keeps : (pc : Command) (i rounds : ℕ) → Keeps os (kill_loop os pc i rounds)
  unfolding kill_loop
  kill_loop-Keeps pc i zero = Keeps-pure os tt
  kill_loop-Keeps pc i (suc rounds) =
      Keeps-then os (kill_round os pc i) _ (kill_round-Keeps pc i) λ again.
        Keeps-if os again _ (pure tt) (kill_loop-Keeps pc (suc i) rounds) (Keeps-pure os tt)

  pub func_kill-Keeps : (pc : Command) → Keeps os (func_kill os pc)
  unfolding func_kill
  func_kill-Keeps pc =
      Keeps-if os (n_args pc == 1) _ _ (Keeps-complain os (too_few_arguments (codes "kill")))
        (kill_loop-Keeps pc 1 (n_args pc - 1))
