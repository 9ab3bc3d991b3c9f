-- ===== src/Tests/Running.antt =====
-- Examples for redirections, the job table and the built-in commands.
use operating_system_profoli.Base.{
  ◌≡◌, refl, true, false, none, some, [], ◌∷◌, codes, map, ltb, if◌then◌else◌, arith,
}
use operating_system_profoli.Command.{
  Command, command, Redirects, no_redirect, file_redirect, pipe_redirect, redirect_out, pipe,
  no_command, pr_redirects,
}
use operating_system_profoli.Shell.{Shell, Job, RunStatus, done, success, fail}
use operating_system_profoli.Shell.Returns.{Returns}
use operating_system_profoli.Redirect.{check_pipeline_ambiguity}
use operating_system_profoli.Redirect.Ambiguity.{
  Decides, kinds, unambiguous, any, is_piping, check_pipeline_ambiguity-Decides,
}
use operating_system_profoli.Jobs.Update.{updated_job_status, updated_process_status}
use operating_system_profoli.Jobs.Update.Verdict.{verdict, Settled, updated_job_status_lem}
use operating_system_profoli.Jobs.Update.Processes.{
  has_job, report_to_job, updated_process_status_lem,
}
use operating_system_profoli.Jobs.Control.{make_job_foreground}
use operating_system_profoli.Jobs.Control.Waits.{Ends, IsStuck}
use operating_system_profoli.Jobs.Control.Terminal.{
  handed, GivenBack, make_job_foreground-GivenBack,
}
use operating_system_profoli.Jobs.Notify.{poll_loop, func_job_notification}
use operating_system_profoli.Jobs.Notify.Survivors.{survivors}
use operating_system_profoli.Jobs.Notify.Numbers.{JobTable, Polled, func_job_notification-JobTable}
use operating_system_profoli.Launch.{Launch, start_job}
use operating_system_profoli.Launch.Stages.{CanFork}
use operating_system_profoli.Launch.Started.{Started, start_job-Started}
use operating_system_profoli.Command.{Redirects}
use operating_system_profoli.Exec.{flag}
use operating_system_profoli.Exec.Files.{GoesOn, exec_process_files}
use operating_system_profoli.Shell.{Spawn, o_wronly}
use operating_system_profoli.Tests.{
  job_of, active_process, friendly, args_of, simple, shell, job_of, active_process, ended_process,
}

-- `ls > f | wc`
abbrev ls_wc : Command
ls_wc =
    command (codes "ls") false (args_of (codes "ls" ∷ []))
      (file_redirect redirect_out (codes "f")
        (pipe_redirect pipe (simple (codes "wc") []) no_redirect))
      no_command

check_pipeline_ambiguity-Decides_example :
    Decides
      (unambiguous (kinds (pr_redirects ls_wc)))
      (any is_piping (kinds (pr_redirects ls_wc)))
      shell
      (check_pipeline_ambiguity ls_wc false shell)
check_pipeline_ambiguity-Decides_example = check_pipeline_ambiguity-Decides ls_wc shell

abbrev make_job : Job
make_job = job_of 1 (ended_process ∷ active_process ∷ [])

updated_job_status_lem_example :
    (make_job.process ≡ [] → updated_job_status make_job ≡ none)
    × ((v : RunStatus)
        → verdict make_job.process ≡ some v
        → Settled make_job v (updated_job_status make_job))
updated_job_status_lem_example = updated_job_status_lem make_job

updated_process_status_lem_example : updated_process_status 301 9 shell ≡ (
    if ltb 0 301
    then if has_job 301 shell.job_head
      then done success (record shell { job_head = report_to_job 301 9 shell.job_head })
      else done fail shell
    else done fail shell)
updated_process_status_lem_example = updated_process_status_lem 301 9 shell

shell-JobTable : JobTable shell
shell-JobTable = record {
  numbered = (omega arith, omega arith, (omega arith, omega arith, tt));
  busy = (λ q. cc, (λ q. cc, tt));
}

func_job_notification-JobTable_example :
    Returns
      (λ _ s'.
        JobTable s'
        × ((s'.job_head ≡ []) → s'.num_jobs ≡ 0)
        × ((polled : Shell) × (poll_loop friendly shell.reports shell ≡ done tt polled)
            × Polled shell polled
            × (map Job.job_num s'.job_head ≡ survivors polled.job_head)))
      (func_job_notification friendly shell)
func_job_notification-JobTable_example =
    func_job_notification-JobTable friendly shell shell-JobTable

-- `> f`, and `| wc`
abbrev into_f : Redirects
into_f = file_redirect redirect_out (codes "f") no_redirect

abbrev into_wc : Redirects
into_wc = pipe_redirect pipe (simple (codes "wc") []) no_redirect

-- A child of the shell for `ls > f`, at the head of a pipeline.
abbrev ls_into_f : Spawn
ls_into_f = record {
  pc = command (codes "ls") false (args_of (codes "ls" ∷ [])) into_f no_command;
  envs = [];
  pgid = 0;
  fd_out = 8;
  fd_in = 0;
  is_stderr = false;
  interactive = true;
  background = false;
}

exec_process_files_example :
    GoesOn friendly (λ _. []) ls_into_f (codes "f") 5 shell (o_wronly false true) 0 8 (flag false)
exec_process_files_example =
    (exec_process_files friendly (λ _. []) ls_into_f (codes "f") 5 shell λ calls flags. refl).0 refl

make_job_foreground-GivenBack_example :
    Ends
      (λ _ t.
        GivenBack friendly 0 (handed friendly true (job_of 2 (active_process ∷ [])) []) shell t)
      (IsStuck friendly shell.reports (handed friendly true (job_of 2 (active_process ∷ [])) []))
      (make_job_foreground friendly 0 true shell)
make_job_foreground-GivenBack_example =
    make_job_foreground-GivenBack friendly 0 true shell (job_of 2 (active_process ∷ []))
      (λ q. cc, (λ q. cc, tt)) refl

friendly-CanFork : CanFork friendly
friendly-CanFork = record { forks = λ _. (300, refl); pipes = λ _. ((7, 8), refl) }

abbrev in_front : Launch
in_front = record { envs = []; interactive = true; background = false }

start_job-Started_example :
    Returns (λ _ t. Started ls_wc shell t) (start_job friendly in_front ls_wc shell)
start_job-Started_example =
    start_job-Started ls_wc shell friendly in_front friendly-CanFork shell-JobTable refl
