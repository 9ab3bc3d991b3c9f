-- ===== src/Builtin/Keeps.antt =====
-- ExecuteBuiltInComds and the descriptors.
use operating_system_profoli.Base.{ℕ, Text}
use operating_system_profoli.Command.{Command}
use operating_system_profoli.Shell.{Cmd, Os, success, quit, fail, pure, ◌>>◌}
use operating_system_profoli.Shell.Descriptors.{
  Keeps, Keeps-pure, Keeps-then, Keeps-if, Keeps-state,
}
use operating_system_profoli.Alias.{func_alias, func_unalias}
use operating_system_profoli.Alias.Keeps.{func_alias-Keeps, func_unalias-Keeps}
use operating_system_profoli.Env.{func_setenv, func_unsetenv}
use operating_system_profoli.Env.Keeps.{func_setenv-Keeps, func_unsetenv-Keeps}
use operating_system_profoli.Dir.{func_cd}
use operating_system_profoli.Dir.Keeps.{func_cd-Keeps}
use operating_system_profoli.Jobs.Control.{display_active_jobs}
use operating_system_profoli.Jobs.Control.Keeps.{display_active_jobs-Keeps}
use operating_system_profoli.Jobs.Commands.{func_fg, func_bg, func_kill}
use operating_system_profoli.Jobs.Commands.Keeps.{func_fg-Keeps, func_bg-Keeps, func_kill-Keeps}
use operating_system_profoli.Builtin.{is_named, execute_built_in_comds}

module _ (os : Os) where
  succeeds : (m : Cmd (Unit {0})) → Keeps os m → Keeps os (m >> pure success)
  succeeds m k = Keeps-then os m (λ _. pure success) k λ _. Keeps-pure os success

  pub execute_built_in_comds-Keeps :
      (rows : ℕ → Text) (pc : Command) → Keeps os (execute_built_in_comds os rows pc)
  unfolding execute_built_in_comds
  execute_built_in_comds-Keeps rows pc =
      Keeps-if os (is_named pc "cd") _ _ (succeeds (func_cd os rows pc) (func_cd-Keeps os rows pc))
        (Keeps-if os (is_named pc "alias") _ _ (succeeds (func_alias pc) (func_alias-Keeps os pc)) (
          Keeps-if os (is_named pc "unalias") _ _
            (succeeds (func_unalias pc) (func_unalias-Keeps os pc))
            (Keeps-if os (is_named pc "setenv") _ _
              (succeeds (func_setenv pc) (func_setenv-Keeps os pc))
              (Keeps-if os (is_named pc "unsetenv") _ _
                (succeeds (func_unsetenv pc) (func_unsetenv-Keeps os pc))
                (Keeps-if os (is_named pc "bg") _ _ (succeeds (func_bg os pc) (func_bg-Keeps os pc))
                  (Keeps-if os (is_named pc "fg") _ _
                    (succeeds (func_fg os pc) (func_fg-Keeps os pc))
                    (Keeps-if os (is_named pc "jobs") _ _
                      (succeeds (λ s. display_active_jobs s.job_head s)
                        (Keeps-state os (λ s. display_active_jobs s.job_head)
                          λ s. display_active_jobs-Keeps os s.job_head))
                      (Keeps-if os (is_named pc "kill") _ _
                        (succeeds (func_kill os pc) (func_kill-Keeps os pc))
                        (Keeps-if os (is_named pc "quit") (pure quit) (pure fail)
                          (Keeps-pure os quit) (Keeps-pure os fail))))))))))
