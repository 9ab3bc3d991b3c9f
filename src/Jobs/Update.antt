-- ===== src/Jobs/Update.antt =====
-- UpdatedProcessStatus and UpdatedJobStatus.
pub mod Verdict
pub mod Processes
pub mod Reports
use operating_system_profoli.Base.{
  ℕ, Bool, true, false, Option, none, some, List, [], ◌∷◌, ◌&&◌, not, ◌==◌, ltb, if◌then◌else◌,
  get_elem?, set,
}
use operating_system_profoli.Shell.{
  Shell, Cmd, Ret, success, fail, Process, Job, RunStatus, running, stopped, completed, pure,
  undefined, ◌>>=◌, ◌>>◌, some_or_fault,
}
use operating_system_profoli.Jobs.Status.{w_if_stopped}

-- The process after a report with this status.
abbrev pub reported : ℕ → Process → Process
reported status p =
    if w_if_stopped status
    then record p { status = status; is_stopped = true }
    else record p { status = status; is_completed = true }

-- The inner loop of UpdatedProcessStatus: the processes with the first one of this id updated.
unfoldable pub update_processes : (process_id status : ℕ) → List Process → Option (List Process)
update_processes id status [] = none
update_processes id status (p ∷ ps) =
    let rest = update_processes id status ps in
    if p.process_id == id
    then some (reported status p ∷ ps)
    else elim rest [ none ↦ none | some ps' ↦ some (p ∷ ps') ]

-- The outer loop.
unfoldable pub update_jobs : (process_id status : ℕ) → List Job → Option (List Job)
unfolding update_processes
update_jobs id status [] = none
update_jobs id status (j ∷ js) =
    let rest = update_jobs id status js in
    elim (update_processes id status j.process) [
      | some ps ↦ some (record j { process = ps } ∷ js)
      | none ↦ elim rest [ none ↦ none | some js' ↦ some (j ∷ js') ]
    ]

unfoldable pub updated_process_status : (process_id status : ℕ) → Cmd Ret
unfolding update_jobs
updated_process_status id status s =
    if ltb 0 id
    then elim (update_jobs id status s.job_head) [
      | some js ↦ pure success (record s { job_head = js })
      | none ↦ pure fail s
    ]
    else pure fail s

-- What the loop of UpdatedJobStatus finds: a process that is neither completed nor stopped, or at
-- the end `is_stopped` and `status`, which is not set where there is no process.
pub data Scan : Type 0 where
  active : Scan
  ended : Bool → Option ℕ → Scan

unfoldable pub scan : List Process → Bool → Option ℕ → Scan
scan [] is_stopped status = ended is_stopped status
scan (p ∷ ps) is_stopped status =
    let stopped_too = scan ps true (some p.status) in
    let not_stopped = scan ps is_stopped (some p.status) in
    if not p.is_completed && not p.is_stopped
    then active
    else if p.is_stopped
    then stopped_too
    else not_stopped

abbrev pub is_running : RunStatus → Bool
is_running running = true
is_running stopped = false
is_running completed = false

abbrev pub is_stopped_job : RunStatus → Bool
is_stopped_job running = false
is_stopped_job stopped = true
is_stopped_job completed = false

abbrev pub is_completed_job : RunStatus → Bool
is_completed_job running = false
is_completed_job stopped = false
is_completed_job completed = true

-- What UpdatedJobStatus writes into a job that runs, is stopped or is completed. A change of the
-- state is to be reported again.
abbrev pub resumed : Job → Job
resumed job = record job {
  notified = if is_running job.run_status then job.notified else false;
  run_status = running;
}

abbrev pub halted : ℕ → Job → Job
halted status' job = record job {
  notified = if is_stopped_job job.run_status then job.notified else false;
  run_status = stopped;
  status = status';
  foreground = false;
}

abbrev pub finished : ℕ → Job → Job
finished status' job = record job {
  notified = if is_completed_job job.run_status then job.notified else false;
  run_status = completed;
  status = status';
}

-- The result and the job afterwards, or `none` where the code reads a variable that was never set.
pub settle : Job → Scan → Option (RunStatus × Job)
settle job active = some (running, resumed job)
settle job (ended b none) = none
settle job (ended true (some status)) = some (stopped, halted status job)
settle job (ended false (some status)) = some (completed, finished status job)

unfoldable pub updated_job_status : Job → Option (RunStatus × Job)
unfolding settle
updated_job_status job = settle job (scan job.process false none)

-- The job at a place, which must be there, and a write to it.
abbrev pub job_at : ℕ → Cmd Job
job_at j s = some_or_fault (get_elem? s.job_head j) s

abbrev pub put_job : ℕ → Job → Cmd (Unit {0})
put_job j job s = pure tt (record s { job_head = set s.job_head j job })

-- UpdatedJobStatus on the job at a place.
unfoldable pub updated_job_status_at : ℕ → Cmd RunStatus
updated_job_status_at j = do
  job ← job_at j
  (run_status, job') ← some_or_fault (updated_job_status job)
  put_job j job'
  pure run_status
