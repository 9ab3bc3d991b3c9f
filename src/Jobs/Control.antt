-- ===== src/Jobs/Control.antt =====
-- MakeJobBackGround, MakeJobForeGround, DisplayActiveJobs and DisplayProcessIDs.
pub mod Places
pub mod Waits
pub mod Terminal
pub mod Keeps
use operating_system_profoli.Base.{
  ℕ, Bool, true, false, List, [], ◌∷◌, ◌++◌, codes, Text, if◌then◌else◌,
}
use operating_system_profoli.Shell.{
  Cmd, Os, Ret, success, quit, fail, Process, Job, Report, Signal, sigcont, sigterm, blocked, kill,
  tcsetpgrp, tcgetattr, tcsetattr, waitpid, system_error, pure, ◌>>=◌, ◌>>◌, record_call, complain,
}
use operating_system_profoli.Jobs.Status.{print_info_jobs}
use operating_system_profoli.Jobs.Update.{
  job_at, put_job, is_running, updated_job_status_at, updated_process_status,
}

abbrev pub is_success : Ret → Bool
is_success success = true
is_success quit = false
is_success fail = false

-- The jobs are printed from the end of the list, those in the foreground left out.
unfoldable pub display_active_jobs : List Job → Cmd (Unit {0})
display_active_jobs [] = pure tt
display_active_jobs (j ∷ js) = do
  display_active_jobs js
  if j.foreground then pure tt else print_info_jobs j

-- The numbers that DisplayProcessIDs prints, from the end of the list.
unfoldable pub display_process_ids : List Process → List ℕ
display_process_ids [] = []
display_process_ids (p ∷ ps) = display_process_ids ps ++ (p.process_id ∷ [])

-- What the message about a failed `kill` begins with.
abbrev pub kill_text : Signal → Text
kill_text sigcont = codes "kill (SIGCONT)"
kill_text sigterm = codes "kill (SIGTERM)"

module _ (os : Os) where
  -- `kill(-group, signal) < 0`, with the error printed.
  unfoldable pub kill_group : ℕ → Signal → Cmd Bool
  kill_group group signal s =
      if os.kill_ok s.calls group signal
      then (do record_call (kill group signal); pure true) s
      else (do
        record_call (kill group signal)
        complain (system_error (kill_text signal))
        pure false)
          s

  -- `tcgetattr(terminal, …)`
  abbrev pub get_modes : Cmd ℕ
  get_modes s = (do record_call tcgetattr; pure (os.modes s.calls)) s

  unfoldable pub make_job_background : ℕ → Bool → Cmd (Unit {0})
  unfolding kill_group
  make_job_background j cont = do
    job ← job_at j
    put_job j (record job { foreground = false })
    if cont then (do kill_group job.process_group_id sigcont; pure tt) else pure tt

  -- The `do … while` loop: one call of `waitpid` in each round, UpdatedJobStatus, and only if the
  -- job runs UpdatedProcessStatus with what was reported. With no report left `waitpid` returns -1
  -- where there is no child, for which UpdatedProcessStatus returns FAIL, and otherwise blocks.
  unfoldable pub wait_loop : ℕ → List Report → Cmd (Unit {0})
  wait_loop j [] s =
      if os.childless s.calls
      then (do record_call (waitpid false); updated_job_status_at j; pure tt) s
      else blocked (record s { calls = waitpid false ∷ s.calls })
  wait_loop j (r ∷ rs) s =
      (do
        record_call (waitpid false)
        λ s. pure tt (record s { reports = rs })
        run_status ← updated_job_status_at j
        let again = wait_loop j rs
        if is_running run_status
            then (do
              ret ← updated_process_status r.process_id r.status
              if is_success ret then again else pure tt)
            else pure tt)
        s

  -- The wait for the job in the foreground, and the terminal back to the shell.
  unfoldable pub wait_and_return : ℕ → Cmd (Unit {0})
  unfolding wait_loop
  wait_and_return j = do
    λ s. wait_loop j s.reports s
    modes ← get_modes
    job ← job_at j
    put_job j (record job { tmodes = modes })
    λ s. record_call (tcsetpgrp s.pid_terminal) s
    record_call (tcsetattr modes)
    shell_modes ← get_modes
    λ s. pure tt (record s { terminal_tmodes = shell_modes })

  unfoldable pub make_job_foreground : ℕ → Bool → Cmd (Unit {0})
  unfolding kill_group wait_and_return
  make_job_foreground j cont = do
    job ← job_at j
    record_call (tcsetpgrp job.process_group_id)
    put_job j (record job { foreground = true })
    if cont
        then (do
          record_call (tcsetattr job.tmodes)
          kill_group job.process_group_id sigcont
          pure tt)
        else pure tt
    wait_and_return j
