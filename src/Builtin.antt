-- ===== src/Builtin.antt =====
-- The built-in commands of impl/ish.c: CheckBuiltInCommands and ExecuteBuiltInComds.
pub mod Dispatch
pub mod Keeps
use Prim.Native.String.{String}
use operating_system_profoli.Base.{ℕ, Bool, true, false, ◌||◌, Text, codes, str_eq, if◌then◌else◌}
use operating_system_profoli.Command.{Command, z_cmd}
use operating_system_profoli.Shell.{Shell, Cmd, Os, Ret, success, quit, fail, pure, ◌>>=◌, ◌>>◌}
use operating_system_profoli.Alias.{func_alias, func_unalias}
use operating_system_profoli.Env.{func_setenv, func_unsetenv}
use operating_system_profoli.Dir.{func_cd}
use operating_system_profoli.Jobs.Control.{display_active_jobs}
use operating_system_profoli.Jobs.Commands.{func_fg, func_bg, func_kill}

-- `strcmp(pc->zCmd, name) == 0`
abbrev pub is_named : Command → String → Bool
is_named pc name = str_eq (z_cmd pc) (codes name)

unfoldable pub check_built_in_commands : Command → Bool
check_built_in_commands pc =
    is_named pc "alias"
    || (is_named pc "unalias"
        || (is_named pc "unsetenv"
            || (is_named pc "cd"
                || (is_named pc "setenv"
                    || (is_named pc "quit"
                        || (is_named pc "bg"
                            || (is_named pc "fg"
                                || (is_named pc "jobs" || is_named pc "kill"))))))))

-- `rows` is what the rows of FixDirPath's array hold before the call.
unfoldable pub execute_built_in_comds : Os → (ℕ → Text) → Command → Cmd Ret
execute_built_in_comds os rows pc =
    if is_named pc "cd"
    then (do func_cd os rows pc; pure success)
    else if is_named pc "alias"
    then (do func_alias pc; pure success)
    else if is_named pc "unalias"
    then (do func_unalias pc; pure success)
    else if is_named pc "setenv"
    then (do func_setenv pc; pure success)
    else if is_named pc "unsetenv"
    then (do func_unsetenv pc; pure success)
    else if is_named pc "bg"
    then (do func_bg os pc; pure success)
    else if is_named pc "fg"
    then (do func_fg os pc; pure success)
    else if is_named pc "jobs"
    then (do (λ s. display_active_jobs s.job_head s); pure success)
    else if is_named pc "kill"
    then (do func_kill os pc; pure success)
    else if is_named pc "quit"
    then pure quit
    else pure fail
