-- ===== src/Jobs/Notify.antt =====
-- func_JobNotification, which the shell calls before each prompt.
pub mod Survivors
pub mod Numbers
use operating_system_profoli.Base.{
  ℕ, Bool, true, false, Option, none, some, List, [], ◌∷◌, ◌||◌, if◌then◌else◌,
}
use operating_system_profoli.Shell.{
  Shell, Cmd, Os, Job, Report, RunStatus, running, stopped, completed, waitpid, job_done,
  job_stopped_note, pure, ◌>>=◌, ◌>>◌, record_call, say, some_or_fault,
}
use operating_system_profoli.Jobs.Update.{updated_process_status, updated_job_status}
use operating_system_profoli.Jobs.Control.{is_success}

-- A message about a job that is in the background and was not reported yet.
pub tell : Job → Cmd (Unit {0}) → Cmd (Unit {0})
tell job message = if job.foreground || job.notified then pure tt else message

-- One round of the loop over the jobs: what is left of the job. A completed one is unlinked and
-- freed.
unfoldable pub settle_job : Job → RunStatus → Cmd (Option Job)
unfolding tell
settle_job job completed = do tell job (say (job_done job.job_num job.job_name)); pure none
settle_job job stopped = do
  tell job (say (job_stopped_note job.job_num))
  pure (some (record job { notified = true }))
settle_job job running = pure (some job)

-- The loop over the jobs, which gives the list that is left.
unfoldable pub settle_jobs : List Job → Cmd (List Job)
unfolding settle_job
settle_jobs [] = pure []
settle_jobs (j ∷ js) = do
  (run_status, job) ← some_or_fault (updated_job_status j)
  left ← settle_job job run_status
  rest ← settle_jobs js
  pure (elim left [ none ↦ rest | some job' ↦ job' ∷ rest ])

-- `num_jobs` is set to 0 when no job is left.
abbrev pub counter : List Job → ℕ → ℕ
counter [] num_jobs = 0
counter (j ∷ js) num_jobs = num_jobs

module _ (os : Os) where
  -- The `do … while` loop of `waitpid` with WNOHANG.
  unfoldable pub poll_loop : List Report → Cmd (Unit {0})
  poll_loop [] s = record_call (waitpid true) s
  poll_loop (r ∷ rs) s =
      let there = os.ready s.calls in
      let rest = poll_loop rs in
      if there
      then (do
        record_call (waitpid true)
        λ s. pure tt (record s { reports = rs })
        ret ← updated_process_status r.process_id r.status
        if is_success ret then rest else pure tt)
          s
      else record_call (waitpid true) s

  unfoldable pub func_job_notification : Cmd (Unit {0})
  unfolding poll_loop settle_jobs
  func_job_notification = do
    λ s. poll_loop s.reports s
    jobs ← λ s. settle_jobs s.job_head s
    λ s. pure tt (record s { job_head = jobs; num_jobs = counter jobs s.num_jobs })
