-- ===== src/Tests/Files.antt =====
-- An example for the files of a command.
use operating_system_profoli.Base.{ℕ, Option, none, some, Text, codes, str_eq, if◌then◌else◌}
use operating_system_profoli.Command.{
  Redirects, redirect_in, redirect_error, no_redirect, file_redirect,
}
use operating_system_profoli.Shell.{Os}
use operating_system_profoli.Shell.Returns.{Returns}
use operating_system_profoli.Redirect.{IoCells}
use operating_system_profoli.Redirect.Described.{Opened}
use operating_system_profoli.Tests.{friendly}

-- `< in >& log`, of files that open as 5 and 6.
abbrev in_and_log : Redirects
in_and_log =
    file_redirect redirect_in (codes "in") (file_redirect redirect_error (codes "log") no_redirect)

abbrev numbered : Text → Option ℕ
numbered f = if str_eq f (codes "in") then some 5 else some 6

abbrev with_files : Os
with_files = record friendly { opened = λ _ f _. numbered f }

abbrev no_cells : IoCells
no_cells = record { check_stderror = none; fd_in = none; fd_out = none }
