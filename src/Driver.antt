-- ===== src/Driver.antt =====
-- processCommands and main of impl/ish.c. The two inputs are texts, read by the lexer and the parser.
pub mod Lines
pub mod Quit
use operating_system_profoli.Base.{
  ℕ, zero, suc, ◌+◌, Bool, true, false, Option, none, some, List, [], ◌∷◌, ◌++◌, Text, codes,
  if◌then◌else◌,
}
use operating_system_profoli.Command.{Command, command, Commands, no_command, next_command, pc_next}
use operating_system_profoli.Shell.{
  Shell, Cmd, Os, Ret, success, quit, fail, prompt, syntax_error, quit_line, system_error,
  ignore_signals, getpid, setpgid, tcsetpgrp, pure, undefined, exit_with, ◌>>=◌, ◌>>◌, record_call,
  say, complain, strcpy_word,
}
use operating_system_profoli.Parser.Actions.{Parsed, parse_text}
use operating_system_profoli.Alias.{func_aliasing}
use operating_system_profoli.Dir.{ends_in_slash}
use operating_system_profoli.Jobs.Control.{get_modes}
use operating_system_profoli.Jobs.Notify.{func_job_notification}
use operating_system_profoli.Launch.{exec_command}

abbrev pub is_quit : Ret → Bool
is_quit quit = true
is_quit success = false
is_quit fail = false

module _ (os : Os) (rows : ℕ → Text) where
  -- The loop over the commands of a line, which keeps its last result in `ret`.
  unfoldable pub run_commands : Bool → Commands → Option Ret → Cmd (Option Ret)
  run_commands interactive no_command ret = pure ret
  run_commands interactive (next_command (command z b a r n)) ret = do
    pc ← func_aliasing (command z b a r n)
    ret' ← exec_command os rows interactive pc
    let rest = run_commands interactive n (some ret')
    if is_quit ret' then pure (some ret') else rest

  at_end : Bool → Cmd (Unit {0})
  at_end interactive = if interactive then say quit_line else pure tt

  before_line : Bool → Cmd (Unit {0})
  before_line interactive =
      if interactive
      then (do func_job_notification os; λ s. say (prompt s.host_name) s)
      else pure tt

  -- yyerror, in the call of nextCommand.
  tell_error : Bool → Cmd (Unit {0})
  tell_error told = if told then complain syntax_error else pure tt

  -- The loop of processCommands, over what nextCommand gives; `none` is a fault in its actions.
  -- `ret` is `none` until it is first set, and is then undefined to read.
  unfoldable pub process_commands : Bool → List (Option Parsed) → Option Ret → Cmd (Unit {0})
  unfolding at_end before_line tell_error
  process_commands interactive [] ret = do before_line interactive; at_end interactive
  process_commands interactive (none ∷ lines) ret = do before_line interactive; undefined
  process_commands interactive (some line ∷ lines) ret = do
    before_line interactive
    tell_error line.syntax_error
    let next = process_commands interactive lines
    if line.eof then at_end interactive else (do
      ret' ← run_commands interactive line.pc ret
      elim ret' [ none ↦ undefined | some r ↦ (if is_quit r then pure tt else next (some r)) ])

  -- processCommands on a file, which is read to its end as the calls of nextCommand need it.
  unfoldable pub process_text : Bool → Text → Cmd (Unit {0})
  unfolding process_commands
  process_text interactive text = process_commands interactive (parse_text text) none

  -- What `main` meets: the answers of the system, and the two inputs.
  pub record Start : Type 0 where
    pub host_name : Option Text
    pub pw_dir : Text
    pub cwd : Text
    pub ishrc : Option Text
    pub stdin : Text
    pub is_tty : Bool

  -- The globals before `main` are all zero, so that `main` is told what the arrays hold only by the
  -- counts.
  set_directories : Start → Cmd (Unit {0})
  set_directories start = do
    home ← strcpy_word start.pw_dir
    home' ← strcpy_word (home ++ codes "/")
    curr ← strcpy_word start.cwd
    curr' ← elim curr [
      | [] ↦ undefined
      | c ∷ t ↦ (if ends_in_slash (c ∷ t) then pure (c ∷ t) else strcpy_word ((c ∷ t) ++ codes "/"))
    ]
    λ s. pure tt (record s { home_directory = home'; curr_directory = curr' })

  read_ishrc : Start → Cmd (Unit {0})
  read_ishrc start = do
    path ← λ s. strcpy_word (s.home_directory ++ codes ".ishrc") s
    elim start.ishrc [ none ↦ pure tt | some text ↦ process_text false text ]

  take_terminal : Start → Cmd (Unit {0})
  take_terminal start =
      if start.is_tty
      then (do
        record_call ignore_signals
        record_call getpid
        λ s.
            let own = os.own_pid s.calls in
            let fine = os.setpgid_ok s.calls own own in
            (do
              λ s. pure tt (record s { pid_terminal = own })
              record_call (setpgid own own)
              (if fine
                  then pure tt
                  else (do complain (system_error (codes "setpgid")); exit_with 1))
              record_call (tcsetpgrp own)
              modes ← get_modes os
              λ s. pure tt (record s { terminal_tmodes = modes }))
              s)
      else pure tt

  main_with : Start → Text → Cmd (Unit {0})
  unfolding set_directories read_ishrc take_terminal
  main_with start name = do
    λ s. pure tt (record s { host_name = name })
    set_directories start
    read_ishrc start
    take_terminal start
    process_text start.is_tty start.stdin
    λ s. pure tt (record s { job_head = [] })

  unfoldable pub main : Start → Cmd (Unit {0})
  unfolding main_with
  main start = elim start.host_name [
    | none ↦ complain (system_error (codes "Host name not found!"))
    | some name ↦ main_with start name
  ]
