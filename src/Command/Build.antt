-- ===== src/Command/Build.antt =====
-- createCommand, appendCommand, createRedirect and appendRedirect of impl/command.c, with which the
-- parser builds a line. `none` is a null pointer that is read.
use operating_system_profoli.Base.{Bool, Option, none, some, Text}
use operating_system_profoli.Command.{
  Args, Command, command, Commands, no_command, next_command, Redirects, no_redirect, file_redirect,
  pipe_redirect, FileType, PipeType,
}

abbrev pub create_command : Text → Args → Bool → Redirects → Commands → Command
create_command z_command pa f_background pr_redirects pc_next =
    command z_command f_background pa pr_redirects pc_next

-- What the type of a redirection says that it points to: a file name or a command.
pub data Target : Type 0 where
  to_file : FileType → Text → Target
  to_command : PipeType → Command → Target

unfoldable pub create_redirect : Target → Redirects → Redirects
create_redirect (to_file t f) pr_next = file_redirect t f pr_next
create_redirect (to_command t pc) pr_next = pipe_redirect t pc pr_next

-- The second command behind the last one of the first list.
unfoldable pub append_command : Command → Command → Command
append_command (command z b a r no_command) pc2 = command z b a r (next_command pc2)
append_command (command z b a r (next_command pc)) pc2 =
    command z b a r (next_command (append_command pc pc2))

-- The loop of appendRedirect, and its write.
unfoldable pub linked : Redirects → Redirects → Redirects
linked no_redirect pr2 = pr2
linked (file_redirect t f r) pr2 = file_redirect t f (linked r pr2)
linked (pipe_redirect t pc r) pr2 = pipe_redirect t pc (linked r pr2)

unfoldable pub append_redirect : Redirects → Redirects → Option Redirects
unfolding linked
append_redirect no_redirect pr2 = none
append_redirect (file_redirect t f r) pr2 = some (linked (file_redirect t f r) pr2)
append_redirect (pipe_redirect t pc r) pr2 = some (linked (pipe_redirect t pc r) pr2)
