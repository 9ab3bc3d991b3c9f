-- ===== src/Jobs/Notify/Numbers.antt =====
-- The numbers of the jobs, and the job table before each prompt.
use operating_system_profoli.Base.{
  ℕ, ◌-◌, ◌≤◌, ◌≡◌, refl, ◌∙◌, ap, inl, inr, true, List, [], ◌∷◌, map, All, ltb, arith, Bool-cases,
}
use operating_system_profoli.Shell.{Shell, Job, Os, Report, done, waitpid}
use operating_system_profoli.Shell.Returns.{Returns, Returns-mono, Returns-done}
use operating_system_profoli.Jobs.Update.Verdict.{verdict}
use operating_system_profoli.Jobs.Update.Processes.{
  has_job, report_to_job, updated_process_status_lem, map-report_to_job, report_to_job-busy,
}
use operating_system_profoli.Jobs.Notify.{counter, poll_loop, func_job_notification}
use operating_system_profoli.Jobs.Notify.Survivors.{
  HasProcess, survivors, is_over, settle_jobs-Leaves,
}

-- Positive numbers that fall strictly from at most this one: no two are the same.
abbrev pub Falling : ℕ → List ℕ → Type 0
Falling top [] = Unit {0}
Falling top (n ∷ ns) = (1 ≤ n) × (n ≤ top) × Falling (n - 1) ns

-- The jobs are numbered from the newest down, the newest at most `num_jobs`, and each has a process.
pub record JobTable (s : Shell) : Type 0 where
  pub numbered : Falling s.num_jobs (map Job.job_num s.job_head)
  pub busy : All HasProcess s.job_head

pub Falling-weaken : (a b : ℕ) (l : List ℕ) → a ≤ b → Falling a l → Falling b l
Falling-weaken a b [] le h = tt
Falling-weaken a b (n ∷ ns) le h = (h.0, omega (arith, h.1), h.2)

survivors-Falling :
    (top : ℕ) (js : List Job) → Falling top (map Job.job_num js) → Falling top (survivors js)
survivors-Falling top [] h = tt
survivors-Falling top (j ∷ js) h = elim (Bool-cases (is_over (verdict j.process))) [
  | inl e ↦ rw e (
      Falling-weaken (j.job_num - 1) top (survivors js) (omega (arith, h.1))
        (survivors-Falling (j.job_num - 1) js h.2))
  | inr e ↦ rw e (h.0, h.1, survivors-Falling (j.job_num - 1) js h.2)
]

counter-Falling :
    (top : ℕ) (l : List Job)
    → Falling top (map Job.job_num l)
    → Falling (counter l top) (map Job.job_num l)
counter-Falling top [] h = tt
counter-Falling top (j ∷ js) h = h

counter-none : (top : ℕ) (l : List Job) → l ≡ [] → counter l top ≡ 0
counter-none top [] e = refl
counter-none top (j ∷ js) e = cc

only_tt : (u : Unit {0}) → u ≡ tt
only_tt tt = refl

-- The loop of `waitpid` keeps the table.
abbrev pub Polled : Shell → Shell → Type 0
Polled s s' =
    (s'.num_jobs ≡ s.num_jobs)
    × (map Job.job_num s'.job_head ≡ map Job.job_num s.job_head)
    × All HasProcess s'.job_head

module _ (os : Os) where
  poll_loop-Polled :
      (rs : List Report) (s : Shell)
      → All HasProcess s.job_head
      → Returns (λ _ s'. Polled s s') (poll_loop os rs s)
  unfolding poll_loop
  poll_loop-Polled [] s h = (refl, refl, h)
  poll_loop-Polled (r ∷ rs) s h = elim (Bool-cases (os.ready s.calls)) [
    | inr e ↦ rw e (refl, refl, h)
    | inl e ↦
        let here : Shell = record s { calls = waitpid true ∷ s.calls; reports = rs } in
        let after : Shell = record here {
          job_head = report_to_job r.process_id r.status s.job_head;
        } in
        rw (e, updated_process_status_lem r.process_id r.status here)
          (elim (Bool-cases (ltb 0 r.process_id)) [
            | inr f ↦ rw f (refl, refl, h)
            | inl f ↦ elim (Bool-cases (has_job r.process_id s.job_head)) [
              | inr g ↦ rw (f, g) (refl, refl, h)
              | inl g ↦
                  rw (f, g)
                    (Returns-mono (λ _ s'. Polled after s') (λ _ s'. Polled s s')
                      (poll_loop os rs after)
                      (poll_loop-Polled rs after
                        (report_to_job-busy r.process_id r.status s.job_head h))
                      λ _ s' (n, m, b).
                        (n, m ∙ map-report_to_job r.process_id r.status s.job_head, b))
            ]
          ])
  ]

  -- Before a prompt: func_JobNotification returns from every well-numbered job table, whatever
  -- reports there are. The table is well-numbered again, its jobs are those that were not completed
  -- when the reports were in, in their order, and the numbers start anew once no job is left.
  pub func_job_notification-JobTable :
      (s : Shell)
      → JobTable s
      → Returns
          (λ _ s'.
            JobTable s'
            × ((s'.job_head ≡ []) → s'.num_jobs ≡ 0)
            × ((polled : Shell) × (poll_loop os s.reports s ≡ done tt polled)
                × Polled s polled
                × (map Job.job_num s'.job_head ≡ survivors polled.job_head)))
          (func_job_notification os s)
  unfolding func_job_notification
  func_job_notification-JobTable s t =
      let (u, polled, run, (same, nums, busy)) =
        Returns-done (λ _ s'. Polled s s') (poll_loop os s.reports s)
          (poll_loop-Polled s.reports s t.busy) in
      let (left, c, settled, survive, busy') = settle_jobs-Leaves polled.job_head polled busy in
      let falls : Falling polled.num_jobs (map Job.job_num left) =
        rw (survive, same) (survivors-Falling s.num_jobs polled.job_head (rw nums t.numbered)) in
      rw (run, settled)
        (
          record { numbered = counter-Falling polled.num_jobs left falls; busy = busy' },
          counter-none polled.num_jobs left,
          (polled, ap (λ x. done x polled) (only_tt u), (same, nums, busy), survive),
        )
