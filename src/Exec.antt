-- ===== src/Exec.antt =====
-- Running a command in impl/ish.c: ExecProcess in the child, and ExecCommand in the shell.
pub mod Files
pub mod Saved
pub mod Placed
pub mod Restored
use operating_system_profoli.Base.{
  ℕ, zero, suc, ◌+◌, Bool, true, false, Option, none, some, List, [], ◌∷◌, ◌&&◌, ◌||◌, not, Text,
  ◌==◌, if◌then◌else◌, get_elem?,
}
use operating_system_profoli.Command.{
  Command, command, Redirects, no_redirect, file_redirect, pipe_redirect, PipeType, pipe,
  pipe_error, z_cmd, pr_redirects, f_background,
}
use operating_system_profoli.Shell.{
  Shell, Cmd, Os, Ret, success, quit, fail, Process, Job, RunStatus, running, Spawn, Report,
  system_error, command_not_found, fork_failed, job_started, access, tcsetpgrp, close, dup, dup2,
  open_pipe, fork, setpgid, default_signals, getpid, execve, waitpid, pure, undefined, exit_with,
  ◌>>=◌, ◌>>◌, record_call, say, complain, strcpy_word, some_or_fault,
}
use operating_system_profoli.Env.{env_get_vars}
use operating_system_profoli.Redirect.{
  IoCells, check_pipeline_ambiguity, next_pipeline_command, func_io_redirection,
}
use operating_system_profoli.ExecPath.{get_exec_path, access_call}
use operating_system_profoli.Builtin.{check_built_in_commands, execute_built_in_comds}
use operating_system_profoli.Jobs.Update.{
  job_at, put_job, is_running, updated_job_status_at, updated_process_status,
}
use operating_system_profoli.Jobs.Control.{
  is_success, display_process_ids, get_modes, make_job_background, make_job_foreground,
}

abbrev pub stdin_fileno : ℕ
stdin_fileno = 0

abbrev pub stdout_fileno : ℕ
stdout_fileno = 1

abbrev pub stderr_fileno : ℕ
stderr_fileno = 2

abbrev pub is_one : Option ℕ → Bool
is_one none = false
is_one (some n) = n == 1

-- `if (fd != target) { dup2(fd, target); close(fd); … }`
abbrev pub unless_there : ℕ → ℕ → Cmd (Unit {0}) → Cmd (Unit {0})
unless_there fd target rest =
    if fd == target
    then pure tt
    else (do record_call (dup2 fd target); record_call (close fd); rest)

-- A flag as the `int` that func_IORedirection may write over.
abbrev pub flag : Bool → Option ℕ
flag b = if b then some 1 else some 0

-- What `lookup_fd_in != -1` leaves in a variable.
abbrev pub or_else : Option ℕ → ℕ → ℕ
or_else none old = old
or_else (some fd) old = fd

-- The shell's part before the redirections: the process group, the terminal and the signals.
pub interactive_setup : Os → Spawn → Cmd (Unit {0})
interactive_setup os spawn =
    if spawn.interactive
    then (do
      record_call getpid
      λ s.
          let own = os.own_pid s.calls in
          let pgid = if spawn.pgid == 0 then own else spawn.pgid in
          (do
            record_call (setpgid own pgid)
            (if spawn.background then pure tt else record_call (tcsetpgrp pgid))
            record_call default_signals)
            s)
    else pure tt

-- The descriptors 0, 1 and 2 of the child.
place_fds : (fd_in fd_out : ℕ) → (is_stderr : Option ℕ) → Cmd (Unit {0})
place_fds fd_in fd_out is_stderr = do
  unless_there fd_in stdin_fileno (pure tt)
  unless_there fd_out stdout_fileno
      (if is_one is_stderr then record_call (dup2 stdout_fileno stderr_fileno) else pure tt)

-- The program, or a message. Where `execve` succeeds it is the last call, and the shell's code ends.
enter : Os → Text → Cmd (Unit {0})
enter os path s =
    if os.execve_ok s.calls path
    then record_call (execve path) s
    else (do record_call (execve path); complain (system_error path); exit_with 1) s

run_program : Os → Command → Cmd (Unit {0})
run_program os pc = do
  found ← get_exec_path os pc
  elim found [
    | none ↦ (do complain (command_not_found (z_cmd pc)); exit_with 1)
    | some path ↦ (do
      fine ← access_call os path
      if fine then enter os path else (do complain (system_error (z_cmd pc)); exit_with 1))
  ]

-- The child once its descriptors are known.
unfoldable pub child : Os → (ℕ → Text) → Command → (fd_in fd_out : ℕ) → Option ℕ → Cmd (Unit {0})
unfolding place_fds enter run_program
child os rows pc fd_in fd_out is_stderr = do
  place_fds fd_in fd_out is_stderr
  if check_built_in_commands pc
      then (do execute_built_in_comds os rows pc; exit_with 0)
      else run_program os pc

-- The child: it leaves by `exit`, or it enters `execve`, which replaces it. The three variables
-- handed to func_IORedirection are, in this order, those for input, for output and for stderr.
unfoldable pub exec_process : Os → (ℕ → Text) → Spawn → Cmd (Unit {0})
unfolding interactive_setup child
exec_process os rows spawn = do
  interactive_setup os spawn
  (ret, cells) ←
      func_io_redirection os (pr_redirects spawn.pc)
        (record { check_stderror = none; fd_in = none; fd_out = some 0 })
  let lookup_fd_in = cells.check_stderror
  let lookup_fd_out = cells.fd_in
  let lookup_stderr = cells.fd_out
  if is_success ret
      then child os rows spawn.pc (or_else lookup_fd_in spawn.fd_in)
          (or_else lookup_fd_out spawn.fd_out)
          (elim lookup_fd_out [ none ↦ flag spawn.is_stderr | some _ ↦ lookup_stderr ])
      else exit_with 1

-- The descriptors of func_IORedirection put in place for a built-in command.
pub redirect_shell : (fd_in fd_out is_stderr : Option ℕ) → Cmd (Unit {0})
redirect_shell fd_in fd_out is_stderr = do
  elim fd_in [
    | none ↦ pure tt
    | some fd ↦ (do record_call (dup2 fd stdin_fileno); record_call (close fd))
  ]
  elim fd_out [
    | none ↦ pure tt
    | some fd ↦ (do
      record_call (dup2 fd stdout_fileno)
      record_call (close fd)
      if is_one is_stderr then record_call (dup2 stdout_fileno stderr_fileno) else pure tt)
  ]

-- `dup(fd)`
dup_call : Os → ℕ → Cmd ℕ
dup_call os fd s = (do record_call (dup fd); pure (os.dup_fd s.calls fd)) s

restore : ℕ → ℕ → Cmd (Unit {0})
restore saved fd = do record_call (dup2 saved fd); record_call (close saved)

-- A built-in command in the shell itself, with its redirections, which are undone afterwards.
unfoldable pub run_built_in : Os → (ℕ → Text) → Command → Cmd Ret
unfolding redirect_shell dup_call restore
run_built_in os rows pc = do
  (ret, cells) ←
      func_io_redirection os (pr_redirects pc)
        (record { check_stderror = none; fd_in = none; fd_out = some 0 })
  let fd_in = cells.check_stderror
  let fd_out = cells.fd_in
  let is_stderr = cells.fd_out
  if is_success ret
      then (do
        saved_stdout ← dup_call os stdout_fileno
        saved_stdin ← dup_call os stdin_fileno
        saved_stderr ← dup_call os stderr_fileno
        redirect_shell fd_in fd_out is_stderr
        ret' ← execute_built_in_comds os rows pc
        restore saved_stdin stdin_fileno
        restore saved_stdout stdout_fileno
        restore saved_stderr stderr_fileno
        pure ret')
      else pure ret
