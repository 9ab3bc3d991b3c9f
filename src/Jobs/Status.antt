-- ===== src/Jobs/Status.antt =====
-- Wait statuses, as the macros of <sys/wait.h> read them, and PrintInfoJobs.
use operating_system_profoli.Base.{ℕ, ◌/◌, ◌%◌, Bool, not, ◌&&◌, ◌==◌, if◌then◌else◌}
use operating_system_profoli.Shell.{
  Job, RunStatus, running, stopped, completed, Cmd, job_is_running, job_is_stopped, job_signaled,
  job_exit, say,
}

abbrev pub w_if_stopped : ℕ → Bool
w_if_stopped status = status % 256 == 127

abbrev pub w_stop_sig : ℕ → ℕ
w_stop_sig status = status / 256 % 256

abbrev pub w_term_sig : ℕ → ℕ
w_term_sig status = status % 128

-- `((signed char) ((status & 0x7f) + 1) >> 1) > 0`
abbrev pub w_if_signaled : ℕ → Bool
w_if_signaled status = not (w_term_sig status == 0) && not (w_term_sig status == 127)

abbrev pub w_core_dump : ℕ → Bool
w_core_dump status = status / 128 % 2 == 1

abbrev pub w_exit_status : ℕ → ℕ
w_exit_status status = status / 256 % 256

unfoldable pub info_of : RunStatus → Job → Cmd (Unit {0})
info_of running job = say (job_is_running job.job_num)
info_of stopped job = say (job_is_stopped job.job_num job.job_name (w_stop_sig job.status))
info_of completed job =
    if w_if_signaled job.status
    then say
        (job_signaled job.job_num job.job_name (w_term_sig job.status) (w_core_dump job.status))
    else say (job_exit job.job_num job.job_name (w_exit_status job.status))

unfoldable pub print_info_jobs : Job → Cmd (Unit {0})
unfolding info_of
print_info_jobs job = info_of job.run_status job
