-- ===== src/Builtin/Dispatch.antt =====
-- The two lists of built-in commands agree.
use operating_system_profoli.Base.{ℕ, ◌≡◌, false, Text, arith}
use operating_system_profoli.Command.{Command}
use operating_system_profoli.Shell.{Shell, Os, done, fail}
use operating_system_profoli.Builtin.{check_built_in_commands, execute_built_in_comds}

-- A command that CheckBuiltInCommands does not know is refused by ExecuteBuiltInComds, which then
-- does nothing.
pub execute_built_in_comds_unknown :
    (os : Os) (rows : ℕ → Text) (pc : Command) (s : Shell)
    → check_built_in_commands pc ≡ false
    → execute_built_in_comds os rows pc s ≡ done fail s
unfolding check_built_in_commands execute_built_in_comds
execute_built_in_comds_unknown os rows pc s h = ground arith
