-- ===== src/Jobs/Control/Keeps.antt =====
-- MakeJobForeGround, MakeJobBackGround and DisplayActiveJobs, and the descriptors.
use operating_system_profoli.Base.{ℕ, refl, Bool, true, false, List, [], ◌∷◌, ltb, if◌then◌else◌}
use operating_system_profoli.Shell.{
  Os, Job, Report, RunStatus, running, stopped, completed, sigcont, tcsetpgrp, tcsetattr, waitpid,
  ◌>>=◌, ◌>>◌, pure, record_call, some_or_fault,
}
use operating_system_profoli.Shell.Descriptors.{
  files, Keeps, Keeps-pure, Keeps-then, Keeps-if, Keeps-some, Keeps-state, KeptBy-if, KeptBy-option,
}
use operating_system_profoli.Base.{get_elem?}
use operating_system_profoli.Shell.{Signal}
use operating_system_profoli.Jobs.Status.{info_of, w_if_signaled, print_info_jobs}
use operating_system_profoli.Jobs.Update.{
  update_jobs, updated_process_status, job_at, put_job, updated_job_status, updated_job_status_at,
  is_running,
}
use operating_system_profoli.Jobs.Control.{
  is_success, display_active_jobs, kill_group, get_modes, make_job_background, wait_loop,
  wait_and_return, make_job_foreground,
}

module _ (os : Os) where
  pub job_at-Keeps : (j : ℕ) → Keeps os (job_at j)
  job_at-Keeps j =
      Keeps-state os (λ s. some_or_fault (get_elem? s.job_head j))
        λ s. Keeps-some os (get_elem? s.job_head j)

  info_of-Keeps : (v : RunStatus) (job : Job) → Keeps os (info_of v job)
  unfolding info_of files
  info_of-Keeps running job s = λ fd. refl
  info_of-Keeps stopped job s = λ fd. refl
  info_of-Keeps completed job s =
      Keeps-if os (w_if_signaled job.status) _ _ (λ t fd. refl) (λ t fd. refl) s

  pub display_active_jobs-Keeps : (js : List Job) → Keeps os (display_active_jobs js)
  unfolding display_active_jobs print_info_jobs
  display_active_jobs-Keeps [] = Keeps-pure os tt
  display_active_jobs-Keeps (j ∷ js) =
      Keeps-then os (display_active_jobs js) _ (display_active_jobs-Keeps js)
        λ _. Keeps-if os j.foreground _ _ (Keeps-pure os tt) (info_of-Keeps j.run_status j)

  pub kill_group-Keeps : (group : ℕ) (signal : Signal) → Keeps os (kill_group os group signal)
  unfolding kill_group files
  kill_group-Keeps group signal s =
      KeptBy-if os s (os.kill_ok s.calls group signal) _ _ (λ fd. refl) (λ fd. refl)

  pub make_job_background-Keeps : (j : ℕ) (cont : Bool) → Keeps os (make_job_background os j cont)
  unfolding make_job_background
  make_job_background-Keeps j cont = Keeps-then os (job_at j) _ (job_at-Keeps j) λ job.
      Keeps-then os (put_job j (record job { foreground = false })) _ (λ s fd. refl)
        λ _.
          Keeps-if os cont _ (pure tt)
            (Keeps-then os (kill_group os job.process_group_id sigcont) (λ _. pure tt)
              (kill_group-Keeps job.process_group_id sigcont) λ _. Keeps-pure os tt)
            (Keeps-pure os tt)

  updated_job_status_at-Keeps : (j : ℕ) → Keeps os (updated_job_status_at j)
  unfolding updated_job_status_at
  updated_job_status_at-Keeps j = Keeps-then os (job_at j) _ (job_at-Keeps j) λ job.
      Keeps-then os (some_or_fault (updated_job_status job)) _
        (Keeps-some os (updated_job_status job))
        λ r.
          Keeps-then os (put_job j (r.1)) (λ _. pure (r.0)) (λ s fd. refl) λ _. Keeps-pure os (r.0)

  updated_process_status-Keeps : (id status : ℕ) → Keeps os (updated_process_status id status)
  unfolding updated_process_status
  updated_process_status-Keeps id status s =
      KeptBy-if os s (ltb 0 id) _ _
        (KeptBy-option os s (update_jobs id status s.job_head) _ _ (λ fd. refl) λ js fd. refl)
        (λ fd. refl)

  wait_loop-Keeps : (j : ℕ) (rs : List Report) → Keeps os (wait_loop os j rs)
  unfolding wait_loop files
  wait_loop-Keeps j [] s =
      KeptBy-if os s (os.childless s.calls) _ _
        (Keeps-then os (record_call (waitpid false)) (λ _. updated_job_status_at j >> pure tt)
          (λ t fd. refl)
          (λ _.
            Keeps-then os (updated_job_status_at j) (λ _. pure tt) (updated_job_status_at-Keeps j)
              λ _. Keeps-pure os tt)
          s)
        tt
  wait_loop-Keeps j (r ∷ rs) s =
      (Keeps-then os (record_call (waitpid false)) _ (λ s fd. refl)
          λ _.
            Keeps-then os (λ s. pure tt (record s { reports = rs })) _ (λ s fd. refl)
              λ _. Keeps-then os (updated_job_status_at j) _ (updated_job_status_at-Keeps j) λ v.
                Keeps-if os (is_running v) _ (pure tt)
                  (Keeps-then os (updated_process_status r.process_id r.status) _
                    (updated_process_status-Keeps r.process_id r.status)
                    λ ret.
                      Keeps-if os (is_success ret) _ (pure tt) (wait_loop-Keeps j rs)
                        (Keeps-pure os tt))
                  (Keeps-pure os tt))
        s

  wait_and_return-Keeps : (j : ℕ) → Keeps os (wait_and_return os j)
  unfolding wait_and_return files
  wait_and_return-Keeps j =
      Keeps-then os (λ s. wait_loop os j s.reports s) _
        (Keeps-state os (λ s. wait_loop os j s.reports) λ s. wait_loop-Keeps j s.reports)
        λ _.
          Keeps-then os (get_modes os) _ (λ s fd. refl)
            λ modes.
              Keeps-then os (job_at j)
                (λ job. do
                  put_job j (record job { tmodes = modes })
                  λ s. record_call (tcsetpgrp s.pid_terminal) s
                  record_call (tcsetattr modes)
                  shell_modes ← get_modes os
                  λ s. pure tt (record s { terminal_tmodes = shell_modes }))
                (job_at-Keeps j) λ job s fd. refl

  pub make_job_foreground-Keeps : (j : ℕ) (cont : Bool) → Keeps os (make_job_foreground os j cont)
  unfolding make_job_foreground files
  make_job_foreground-Keeps j cont = Keeps-then os (job_at j) _ (job_at-Keeps j) λ job.
      Keeps-then os (record_call (tcsetpgrp job.process_group_id)) _ (λ s fd. refl)
        λ _.
          Keeps-then os (put_job j (record job { foreground = true })) _ (λ s fd. refl)
            λ _.
              Keeps-then os
                (if cont
                  then (record_call (tcsetattr job.tmodes)
                      >> (kill_group os job.process_group_id sigcont >> pure tt))
                  else pure tt)
                _
                (Keeps-if os cont _ (pure tt)
                  (Keeps-then os (record_call (tcsetattr job.tmodes)) _ (λ s fd. refl)
                    λ _.
                      Keeps-then os (kill_group os job.process_group_id sigcont) (λ _. pure tt)
                        (kill_group-Keeps job.process_group_id sigcont) λ _. Keeps-pure os tt)
                  (Keeps-pure os tt))
                λ _. wait_and_return-Keeps j
