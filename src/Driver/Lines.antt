-- ===== src/Driver/Lines.antt =====
-- The lines of an input that hold no command.
use operating_system_profoli.Base.{Option, ℕ, ◌≡◌, refl, false, none, some, List, ◌∷◌, Text}
use operating_system_profoli.Command.{no_command}
use operating_system_profoli.Shell.{Shell, Os, Ret, fault}
use operating_system_profoli.Parser.Actions.{Parsed}
use operating_system_profoli.Driver.{is_quit, run_commands, process_commands}

abbrev pub blank : Option Parsed
blank = some (record { pc = no_command; eof = false; syntax_error = false })

module _ (os : Os) (rows : ℕ → Text) (lines : List (Option Parsed)) (s : Shell) where
  -- In a script, a line without a command is skipped once a command has run that was not `quit`. At
  -- the start it makes the shell test a variable that was never set.
  pub process_commands-blank :
      (process_commands os rows false (blank ∷ lines) none s ≡ fault)
      × ((ret : Ret)
          → is_quit ret ≡ false
          → process_commands os rows false (blank ∷ lines) (some ret) s
            ≡ process_commands os rows false lines (some ret) s)
  unfolding process_commands run_commands
  process_commands-blank = (refl, λ ret h. rw h)
