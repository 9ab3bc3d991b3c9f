-- ===== src/Tests.antt =====
-- Inputs for the theorems of this library: a system, a shell, and commands for it.
mod Tables
mod Paths
mod Running
mod Reading
mod Launching
mod Files
mod Blocks
mod JobBlocks
mod Descriptors
use operating_system_profoli.Base.{
  ℕ, ◌+◌, ◌*◌, Bool, true, false, Option, none, some, List, [], ◌∷◌, Text, codes, length, get_elem?,
}
use operating_system_profoli.Command.{Args, Command, command, Redirects, no_redirect, no_command}
use operating_system_profoli.Shell.{Shell, Os, Alias, UnixEnv, Process, Job, running, Report}

-- A system that grants everything, and has a report for every `waitpid`.
abbrev pub friendly : Os
friendly = record {
  chdir_ok = λ _ _. true;
  access_ok = λ _ _. true;
  kill_ok = λ _ _ _. true;
  opened = λ _ _ _. some 5;
  dup_fd = λ _ _. 6;
  pipe_fds = λ _. some (7, 8);
  forked = λ _. some 300;
  modes = λ _. 1;
  own_pid = λ _. 100;
  execve_ok = λ _ _. true;
  setpgid_ok = λ _ _ _. true;
  ready = λ _. true;
  childless = λ _. true;
}

-- The arguments of a command, its name first.
abbrev pub args_of : List Text → Args
args_of ts = record { n_args = length ts; n_max_args = 15; az_args = get_elem? ts; bytes = 128 }

abbrev pub simple : Text → List Text → Command
simple name ts = command name false (args_of (name ∷ ts)) no_redirect no_command

abbrev pub ll_is_ls : Alias
ll_is_ls = record { from = codes "ll"; to = codes "ls" }

abbrev pub path_is_bin : UnixEnv
path_is_bin = record { key = codes "PATH"; value = codes "/bin:/usr/bin" }

-- A process that runs, and one that has exited.
abbrev pub active_process : Process
active_process = record { process_id = 301; is_completed = false; status = 0; is_stopped = false }

abbrev pub ended_process : Process
ended_process = record { process_id = 302; is_completed = true; status = 0; is_stopped = false }

abbrev pub job_of : ℕ → List Process → Job
job_of n ps = record {
  job_num = n;
  job_name = codes "make";
  notified = false;
  status = 0;
  run_status = running;
  foreground = false;
  tmodes = 0;
  process = ps;
  process_group_id = 301;
}

-- One alias, one variable, two jobs, and a report that the first job has ended.
abbrev pub shell : Shell
shell = record {
  host_name = codes "host";
  home_directory = codes "/home/me/";
  curr_directory = codes "/home/me/";
  num_env = 1;
  unix_env = λ _. path_is_bin;
  num_alias = 1;
  arr_aliases = λ _. ll_is_ls;
  num_jobs = 2;
  job_head = job_of 2 (active_process ∷ []) ∷ job_of 1 (ended_process ∷ []) ∷ [];
  pid_terminal = 100;
  terminal_tmodes = 1;
  calls = [];
  reports = (record { process_id = 301; status = 0 }) ∷ [];
}
