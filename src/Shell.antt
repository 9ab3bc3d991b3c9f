-- ===== src/Shell.antt =====
-- The state of impl/ish.c (its globals and structs), the system calls that it makes, and the monad
-- of its functions.
--
-- A call to the system is recorded in `calls`, newest first, and answered by `Os`, which may look at
-- all earlier calls. What `waitpid` reports is the list `reports`, one report for each call. Behind the
-- last one a `waitpid` with WNOHANG gives 0 or -1, which the code does not tell apart; one that blocks
-- gives -1 where `Os` says that there is no child, and else never comes back.
pub mod Returns
pub mod Buffers
pub mod Descriptors
use operating_system_profoli.Base.{
  ℕ, Bool, Option, none, some, List, ◌∷◌, Text, ltb, if◌then◌else◌, length,
}
use operating_system_profoli.Command.{Command}

abbrev pub word_limit : ℕ
word_limit = 1024

abbrev pub word_size : ℕ
word_size = 1024

pub data Ret : Type 0 where
  quit success fail : Ret

pub data RunStatus : Type 0 where
  running stopped completed : RunStatus

-- `struct UnixEnv` and `struct Alias`: two buffers of WORD_SIZE bytes.
pub record UnixEnv : Type 0 where
  pub key : Text
  pub value : Text

pub record Alias : Type 0 where
  pub from : Text
  pub to : Text

-- `struct Process`; the list of a job is `List Process`.
pub record Process : Type 0 where
  pub process_id : ℕ
  pub is_completed : Bool
  pub status : ℕ
  pub is_stopped : Bool

-- `struct Job`; the list behind `job_head` is `List Job`. Terminal modes are opaque numbers.
pub record Job : Type 0 where
  pub job_num : ℕ
  pub job_name : Text
  pub notified : Bool
  pub status : ℕ
  pub run_status : RunStatus
  pub foreground : Bool
  pub tmodes : ℕ
  pub process : List Process
  pub process_group_id : ℕ

-- What one `waitpid` reports: a positive process id and its wait status.
pub record Report : Type 0 where
  pub process_id : ℕ
  pub status : ℕ

pub data Signal : Type 0 where
  sigcont sigterm : Signal

-- O_RDONLY, or O_WRONLY with O_APPEND and O_CREAT.
pub data OpenFlags : Type 0 where
  o_rdonly : OpenFlags
  o_wronly : (o_append o_creat : Bool) → OpenFlags

-- The lines that the shell prints, one constructor for each format; the text of `strerror` and of
-- `strsignal` is left to the C library.
pub data Message : Type 0 where
  prompt : Text → Message
  job_is_running : ℕ → Message
  job_is_stopped : ℕ → Text → (signal : ℕ) → Message
  job_signaled : ℕ → Text → (signal : ℕ) → (core_dumped : Bool) → Message
  job_exit : ℕ → Text → (code : ℕ) → Message
  job_done : ℕ → Text → Message
  job_stopped_note : ℕ → Message
  job_started : ℕ → List ℕ → Message
  job_line : Text → Message
  aliasing : Text → Text → Message
  env_line : Text → Text → Message
  quit_line : Message
  too_few_arguments too_many_arguments limit_reached : Text → Message
  system_error : Text → Message
  no_job : Text → Message
  ambiguous_output ambiguous_input : Message
  command_not_found : Text → Message
  fork_failed : Message
  syntax_error : Message

-- What a forked child is started with: the arguments of `ExecProcess`.
pub record Spawn : Type 0 where
  pub pc : Command
  pub envs : List Text
  pub pgid : ℕ
  pub fd_out : ℕ
  pub fd_in : ℕ
  pub is_stderr : Bool
  pub interactive : Bool
  pub background : Bool

pub data Call : Type 0 where
  print_out print_err : Message → Call
  chdir : Text → Call
  access : Text → Call
  kill : (group : ℕ) → Signal → Call
  tcsetpgrp : ℕ → Call
  tcgetattr : Call
  tcsetattr : ℕ → Call
  waitpid : (nohang : Bool) → Call
  open_file : Text → OpenFlags → Call
  close : ℕ → Call
  dup : ℕ → Call
  dup2 : ℕ → ℕ → Call
  open_pipe : Call
  fork : Spawn → Call
  setpgid : ℕ → ℕ → Call
  default_signals ignore_signals : Call
  getpid : Call
  execve : Text → Call

-- The answers of the system, given the earlier calls. `none` is the result -1.
pub record Os : Type 0 where
  pub chdir_ok : List Call → Text → Bool
  pub access_ok : List Call → Text → Bool
  pub kill_ok : List Call → ℕ → Signal → Bool
  pub opened : List Call → Text → OpenFlags → Option ℕ
  pub dup_fd : List Call → ℕ → ℕ
  pub pipe_fds : List Call → Option (ℕ × ℕ)
  pub forked : List Call → Option ℕ
  pub modes : List Call → ℕ
  pub own_pid : List Call → ℕ
  pub execve_ok : List Call → Text → Bool
  pub setpgid_ok : List Call → ℕ → ℕ → Bool
  -- Whether a report is there for a `waitpid` with WNOHANG.
  pub ready : List Call → Bool
  -- Whether there is no child that a `waitpid` could wait for.
  pub childless : List Call → Bool

-- The globals of the shell.
pub record Shell : Type 0 where
  pub host_name : Text
  pub home_directory : Text
  pub curr_directory : Text
  pub num_env : ℕ
  pub unix_env : ℕ → UnixEnv
  pub num_alias : ℕ
  pub arr_aliases : ℕ → Alias
  pub num_jobs : ℕ
  pub job_head : List Job
  pub pid_terminal : ℕ
  pub terminal_tmodes : ℕ
  pub calls : List Call
  pub reports : List Report

-- How a function ends: it returns, it leaves the process by `exit`, it waits for ever, or it does
-- what C leaves undefined (a write or read outside a buffer, a null pointer, a variable never set).
pub data Outcome (A : Type 0) : Type 0 where
  done : A → Shell → Outcome A
  exits : ℕ → Shell → Outcome A
  -- A `waitpid` that never comes back.
  blocked : Shell → Outcome A
  fault : Outcome A

abbrev pub Cmd : Type 0 → Type 0
Cmd A = Shell → Outcome A

abbrev pub pure : {A : Type 0} → A → Cmd A
pure = done

abbrev pub undefined : {A : Type 0} → Cmd A
undefined s = fault

abbrev pub exit_with : {A : Type 0} → ℕ → Cmd A
exit_with = exits

module _ {A B : Type 0} where
  abbrev pub and_then : Outcome A → (A → Cmd B) → Outcome B
  and_then (done a s) k = k a s
  and_then (exits n s) k = exits n s
  and_then (blocked s) k = blocked s
  and_then fault k = fault

  infixl 5 ◌>>=◌ ◌>>◌
  abbrev pub ◌>>=◌ : Cmd A → (A → Cmd B) → Cmd B
  m >>= k = λ s. and_then (m s) k

  abbrev pub ◌>>◌ : Cmd A → Cmd B → Cmd B
  m >> n = m >>= λ _. n

-- The call is made and recorded.
abbrev pub record_call : Call → Cmd (Unit {0})
record_call c s = done tt (record s { calls = c ∷ s.calls })

abbrev pub say : Message → Cmd (Unit {0})
say m = record_call (print_out m)

abbrev pub complain : Message → Cmd (Unit {0})
complain m = record_call (print_err m)

-- A string of this length fits a buffer of WORD_SIZE bytes with its NUL.
abbrev pub fits : Text → Bool
fits t = ltb (length t) word_size

-- `strcpy` and `strcat` into such a buffer: the text is there afterwards, or the write runs over.
abbrev pub strcpy_word : Text → Cmd Text
strcpy_word t = if fits t then pure t else undefined

-- `pc->pa->azArgs[i]`, which the code dereferences.
abbrev pub some_or_fault : {A : Type 0} → Option A → Cmd A
some_or_fault none = undefined
some_or_fault (some a) = pure a
