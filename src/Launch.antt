-- ===== src/Launch.antt =====
-- ExecCommand of impl/ish.c: a new job with one process for each command of a pipeline.
pub mod Started
pub mod Stages
pub mod Plumbed
pub mod Ends
pub mod Wired
use operating_system_profoli.Base.{
  ℕ, ◌+◌, Bool, true, false, Option, none, some, List, [], ◌∷◌, ◌&&◌, ◌||◌, not, Text, ◌==◌,
  if◌then◌else◌,
}
use operating_system_profoli.Command.{
  Command, command, Redirects, no_redirect, file_redirect, pipe_redirect, PipeType, pipe,
  pipe_error, z_cmd, pr_redirects, f_background,
}
use operating_system_profoli.Shell.{
  Cmd, Os, Ret, success, fail, Process, running, Spawn, Report, fork_failed, job_started, close,
  open_pipe, fork, setpgid, waitpid, pure, exit_with, blocked, ◌>>=◌, ◌>>◌, record_call, say,
  complain, strcpy_word, some_or_fault,
}
use operating_system_profoli.Env.{env_get_vars}
use operating_system_profoli.Redirect.{check_pipeline_ambiguity}
use operating_system_profoli.Builtin.{check_built_in_commands}
use operating_system_profoli.Exec.{stdin_fileno, stdout_fileno, run_built_in}
use operating_system_profoli.Jobs.Update.{
  job_at, put_job, is_running, updated_job_status_at, updated_process_status,
}
use operating_system_profoli.Jobs.Control.{
  is_success, display_process_ids, get_modes, make_job_background, make_job_foreground,
}

-- The commands behind the pipes, as NextPipelineCommand leads from each to the next.
unfoldable pub stages_in : Redirects → List Command
stages_in no_redirect = []
stages_in (file_redirect t f r) = stages_in r
stages_in (pipe_redirect t (command z b a r n) rest) = command z b a r n ∷ stages_in r

abbrev pub pipeline : Command → List Command
pipeline pc = pc ∷ stages_in (pr_redirects pc)

-- The first pipe among the redirections.
unfoldable pub pipe_in : Redirects → Option PipeType
pipe_in no_redirect = none
pipe_in (file_redirect t f r) = pipe_in r
pipe_in (pipe_redirect t c r) = some t

-- The variables of the loop. `fd_pipe` is `none` until the first `pipe` succeeds.
pub record Pipes : Type 0 where
  pub fd_in : ℕ
  pub fd_pipe : Option (ℕ × ℕ)
  pub is_stderr : Bool

-- What does not change in the loop.
pub record Launch : Type 0 where
  pub envs : List Text
  pub interactive : Bool
  pub background : Bool

abbrev pub is_pipe_error : PipeType → Bool
is_pipe_error pipe = false
is_pipe_error pipe_error = true

-- `is_stderr` after the test of a command's first pipe.
abbrev pub stderr_flag : Bool → Option PipeType → Bool
stderr_flag old none = old
stderr_flag old (some t) = old || is_pipe_error t

-- `fd_pipe` after a call of `pipe`, which leaves it alone where it fails.
abbrev pub new_pipe : Option (ℕ × ℕ) → Option (ℕ × ℕ) → Option (ℕ × ℕ)
new_pipe none old = old
new_pipe (some fds) old = some fds

-- `close(fd)` for one that is not standard.
abbrev pub close_unless : ℕ → ℕ → Cmd (Unit {0})
close_unless fd standard = if fd == standard then pure tt else record_call (close fd)

-- The new process in the job, which is the first of the list.
add_process : ℕ → Bool → Cmd (Unit {0})
add_process id interactive = do
  job ← job_at 0
  let p : Process = record { process_id = id; is_completed = false; status = 0; is_stopped = false }
  let group = if interactive && (job.process_group_id == 0) then id else job.process_group_id
  put_job 0 (record job { process = p ∷ job.process; process_group_id = group })
  if interactive then record_call (setpgid id group) else pure tt

module _ (os : Os) where
  -- `fork()` in the shell.
  fork_call : Spawn → Cmd (Option ℕ)
  fork_call spawn s = (do record_call (fork spawn); pure (os.forked s.calls)) s

  -- `pipe(fd_pipe); fd_out = fd_pipe[1];` where the command has a pipe: both variables.
  open_stage : Option PipeType → Pipes → Cmd (ℕ × Option (ℕ × ℕ))
  open_stage none v s = pure (stdout_fileno, v.fd_pipe) s
  open_stage (some t) v s =
      (do
        record_call open_pipe
        let fds = new_pipe (os.pipe_fds s.calls) v.fd_pipe
        (fd_read, fd_write) ← some_or_fault fds
        pure (fd_write, fds))
        s

  -- The end of a round, with the value of `fork`.
  after_fork : Launch → Pipes → (fd_out : ℕ) → Option (ℕ × ℕ) → Option ℕ → Cmd (Option (ℕ × ℕ))
  after_fork l v fd_out fds none = do complain fork_failed; exit_with 1
  after_fork l v fd_out fds (some id) = do
    add_process id l.interactive
    close_unless v.fd_in stdin_fileno
    close_unless fd_out stdout_fileno
    pure fds

  -- One round of the loop over the pipeline: the flag for stderr is set and never taken back.
  launch_stage : Launch → Pipes → Command → Cmd (Bool × Option (ℕ × ℕ))
  launch_stage l v pc = do
    let is_stderr' = stderr_flag v.is_stderr (pipe_in (pr_redirects pc))
    (fd_out, fds) ← open_stage (pipe_in (pr_redirects pc)) v
    job ← job_at 0
    id ← fork_call (record {
      pc = pc;
      envs = l.envs;
      pgid = job.process_group_id;
      fd_out = fd_out;
      fd_in = v.fd_in;
      is_stderr = is_stderr';
      interactive = l.interactive;
      background = l.background;
    })
    fds' ← after_fork l v fd_out fds id
    pure (is_stderr', fds')

  -- The loop. The next command reads from the pipe of the last one.
  pub launch_loop : Launch → Pipes → List Command → Cmd (Unit {0})
  launch_loop l v [] = pure tt
  launch_loop l v (pc ∷ []) = launch_stage l v pc >>= λ _. pure tt
  launch_loop l v (pc ∷ next ∷ rest) = do
    (is_stderr', fds) ← launch_stage l v pc
    (fd_read, fd_write) ← some_or_fault fds
    launch_loop l (record { fd_in = fd_read; fd_pipe = fds; is_stderr = is_stderr' }) (next ∷ rest)

  -- The `do … while` loop of a shell that is not interactive: here UpdatedProcessStatus comes first.
  script_wait : List Report → Cmd (Unit {0})
  script_wait [] s =
      if os.childless s.calls
      then record_call (waitpid false) s
      else blocked (record s { calls = waitpid false ∷ s.calls })
  script_wait (r ∷ rs) s =
      (do
        record_call (waitpid false)
        λ s. pure tt (record s { reports = rs })
        ret ← updated_process_status r.process_id r.status
        let again = script_wait rs
        if is_success ret
            then (do
              run_status ← updated_job_status_at 0
              if is_running run_status then again else pure tt)
            else pure tt)
        s

  -- The new job at the front of the list.
  add_job : Command → Cmd (Unit {0})
  add_job pc = do
    name ← strcpy_word (z_cmd pc)
    λ s. pure tt (record s {
      num_jobs = s.num_jobs + 1;
      job_head =
          (record {
            job_num = s.num_jobs + 1;
            job_name = name;
            notified = false;
            status = 0;
            run_status = running;
            foreground = false;
            tmodes = 0;
            process = [];
            process_group_id = 0;
          })
          ∷ s.job_head;
    })

  -- What the shell does with the job that runs.
  attend : Launch → Cmd (Unit {0})
  unfolding script_wait
  attend l =
      if not l.interactive
      then (λ s. script_wait s.reports s)
      else if not l.background
      then (do
        job ← job_at 0
        put_job 0 (record job { foreground = true })
        make_job_foreground os 0 false)
      else (do
        modes ← get_modes os
        job ← job_at 0
        put_job 0 (record job { notified = true; tmodes = modes })
        say (job_started job.job_num (display_process_ids job.process))
        make_job_background os 0 false)

  -- The new job, with its processes.
  unfoldable pub start_job : Launch → Command → Cmd (Unit {0})
  unfolding add_process fork_call open_stage after_fork launch_stage launch_loop add_job
  start_job l pc = do
    add_job pc
    launch_loop l (record { fd_in = stdin_fileno; fd_pipe = none; is_stderr = false }) (pipeline pc)

  unfoldable pub launch : Bool → Command → Cmd (Unit {0})
  unfolding start_job attend
  launch interactive pc = do
    envs ← env_get_vars
    let l : Launch = record { envs = envs; interactive = interactive; background = f_background pc }
    start_job l pc
    attend l

  unfoldable pub exec_command : (ℕ → Text) → Bool → Command → Cmd Ret
  exec_command rows interactive pc = do
    (ret, check_pipeline) ← check_pipeline_ambiguity pc false
    if is_success ret
        then (if not check_pipeline && (not (f_background pc) && check_built_in_commands pc)
            then run_built_in os rows pc
            else (do launch interactive pc; pure success))
        else pure fail
