-- ===== src/Command/Print.antt =====
-- printCommand and printRedirect of impl/command.c; `none` is an assertion that fails, or a null
-- pointer that is printed.
pub mod Append
use operating_system_profoli.Base.{
  ℕ, Bool, true, false, Option, none, some, List, [], ◌∷◌, ◌++◌, Text, codes, if◌then◌else◌,
}
use operating_system_profoli.Command.{
  Args, Command, command, Commands, no_command, next_command, Redirects, no_redirect, file_redirect,
  pipe_redirect, FileType, redirect_in, redirect_out, redirect_error, append, append_error,
  PipeType, pipe, pipe_error,
}
use operating_system_profoli.Command.Arguments.{print_arguments}

-- `zRedirect`
abbrev pub file_sign : FileType → Text
file_sign redirect_in = codes "<"
file_sign redirect_out = codes ">"
file_sign redirect_error = codes ">&"
file_sign append = codes ">>"
file_sign append_error = codes ">>&"

abbrev pub pipe_sign : PipeType → Text
pipe_sign pipe = codes "|"
pipe_sign pipe_error = codes "|&"

-- A redirection that names a file, and the sign of one that names a command.
abbrev pub file_text : FileType → Text → Option Text
file_text t f = some ((file_sign t ++ codes " ") ++ (f ++ codes " "))

abbrev pub pipe_text : PipeType → Option Text
pipe_text t = some (pipe_sign t ++ codes " ")

-- What stands behind a command: `& ` in the background, else `; ` where another one follows.
abbrev pub ending : Bool → Commands → Text
ending b no_command = if b then codes "& " else []
ending b (next_command c) = if b then codes "& " else codes "; "

-- Two texts, where both are there.
abbrev pub both : Option Text → Option Text → Option Text
both none u = none
both (some t) none = none
both (some t) (some u) = some (t ++ u)

unfoldable mutual
  pub print_command : Command → Option Text
  print_command (command z b a r n) =
      both (some (z ++ codes " ")) (
        both (print_arguments a)
          (both (print_redirect r) (both (some (ending b n)) (print_next n))))

  pub print_redirect : Redirects → Option Text
  print_redirect no_redirect = some []
  print_redirect (file_redirect t f r) = both (file_text t f) (print_redirect r)
  print_redirect (pipe_redirect t pc r) =
      both (pipe_text t) (both (print_command pc) (print_redirect r))

  pub print_next : Commands → Option Text
  print_next no_command = some []
  print_next (next_command pc) = print_command pc
