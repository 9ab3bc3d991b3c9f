-- ===== src/Driver/Quit.antt =====
-- The command `quit` in a script.
use operating_system_profoli.Base.{
  Option, ℕ, ◌≡◌, refl, false, none, some, List, ◌∷◌, ◌++◌, Text, codes, str_eq,
}
use operating_system_profoli.Command.{
  Args, Commands, no_command, command, no_redirect, next_command,
}
use operating_system_profoli.Command.Arguments.{create_arguments, set_argument, append_all}
use operating_system_profoli.Lexer.Escape.{copy_escaped_string}
use operating_system_profoli.Parser.{read_line}
use operating_system_profoli.Shell.{Shell, Call, Os, Ret, quit, done, dup, dup2, close}
use operating_system_profoli.Parser.Actions.{
  Parsed, parse_text, parse_line, split_lines, build_seq, build_command,
}
use operating_system_profoli.Alias.{find_alias, func_aliasing}
use operating_system_profoli.Redirect.{check_pipeline_ambiguity, func_io_redirection}
use operating_system_profoli.Builtin.{check_built_in_commands, execute_built_in_comds}
use operating_system_profoli.Exec.{run_built_in}
use operating_system_profoli.Launch.{exec_command}
use operating_system_profoli.Driver.{run_commands, process_commands, process_text}

-- The standard descriptors are kept by three calls of `dup`, put back by `dup2`, and the copies closed.
abbrev pub kept_and_restored : Os → List Call → List Call
kept_and_restored os calls =
    let saved_out = os.dup_fd calls 1 in
    let saved_in = os.dup_fd (dup 1 ∷ calls) 0 in
    let saved_err = os.dup_fd (dup 0 ∷ dup 1 ∷ calls) 2 in
    close saved_err
    ∷ dup2 saved_err 2
    ∷ close saved_out
    ∷ dup2 saved_out 1
    ∷ close saved_in
    ∷ dup2 saved_in 0
    ∷ dup 2
    ∷ dup 0
    ∷ dup 1
    ∷ calls

abbrev pub quit_line : Args → Commands → Option Parsed
quit_line pa n = some (record {
  pc = next_command (command (codes "quit") false pa no_redirect n);
  eof = false;
  syntax_error = false;
})

parse_text-quit :
    (rest : Text)
    → (pa : Args) × (parse_text (codes "quit" ++ (b'\n' ∷ rest))
        ≡ quit_line pa no_command ∷ parse_text rest)
unfolding parse_text parse_line split_lines build_seq read_line copy_escaped_string build_command
    append_all set_argument create_arguments
parse_text-quit rest = (_, refl)

module _ (os : Os) (rows : ℕ → Text) (s : Shell) where
  func_aliasing-quit :
      (pa : Args) (n : Commands)
      → find_alias (codes "quit") s ≡ none
      → func_aliasing (command (codes "quit") false pa no_redirect n) s
        ≡ done (command (codes "quit") false pa no_redirect n) s
  unfolding func_aliasing
  func_aliasing-quit pa n h = rw (h, func_aliasing)

  -- It asks for the standard descriptors, and gives them back.
  exec_command-quit :
      (pa : Args) (n : Commands)
      → exec_command os rows false (command (codes "quit") false pa no_redirect n) s
        ≡ done quit (record s { calls = kept_and_restored os s.calls })
  unfolding exec_command check_pipeline_ambiguity check_built_in_commands execute_built_in_comds
      func_io_redirection run_built_in str_eq
  exec_command-quit pa n = refl

  -- Where `quit` is not an alias, it ends the script: the commands behind it on the line and the lines
  -- below do not run.
  process_commands-quit :
      (pa : Args) (n : Commands) (lines : List (Option Parsed)) (ret : Option Ret)
      → find_alias (codes "quit") s ≡ none
      → process_commands os rows false (quit_line pa n ∷ lines) ret s
        ≡ done tt (record s { calls = kept_and_restored os s.calls })
  unfolding process_commands run_commands
  process_commands-quit pa n lines ret h = rw (func_aliasing-quit pa n h, exec_command-quit pa n)

  -- A script that begins with the line `quit` ends there, whatever follows it, where `quit` is not an
  -- alias. The shell is as it was, but for the calls that keep the standard descriptors and put them
  -- back.
  pub process_text-quit :
      (rest : Text)
      → find_alias (codes "quit") s ≡ none
      → process_text os rows false (codes "quit" ++ (b'\n' ∷ rest)) s
        ≡ done tt (record s { calls = kept_and_restored os s.calls })
  unfolding process_text
  process_text-quit rest h =
      let (pa, e) = parse_text-quit rest in
      rw e (process_commands-quit pa no_command (parse_text rest) none h)
