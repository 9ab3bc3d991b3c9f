-- ===== src/Tests/Launching.antt =====
-- Examples for jobs and the descriptors of their processes, for programs and for `quit`.
use mathlib.Core.Option
use operating_system_profoli.Base.{
  without, ℕ, ◌+◌, ◌*◌, ◌≡◌, ◌≢◌, ◌<◌, ◌≤◌, ◌⊎◌, refl, ap, inl, inr, Bool, true, false, some, List,
  [], ◌∷◌, ◌++◌, map, All, Text, codes, length, arith, ◌==◌, tokens, str_eq, Bool-cases,
}
use operating_system_profoli.Command.{
  Command, command, no_command, no_redirect, file_redirect, pipe_redirect, redirect_in, pipe,
  pipe_error,
}
use operating_system_profoli.Shell.{
  Shell, Process, success, completed, Os, Call, Spawn, done, open_pipe, close, print_err, no_job,
}
use operating_system_profoli.Shell.Returns.{Returns}
use operating_system_profoli.ExecPath.{colon, get_exec_path}
use operating_system_profoli.ExecPath.First.{in_dir, first_that, asked, get_exec_path-first}
use operating_system_profoli.Jobs.Commands.{atoi, func_fg}
use operating_system_profoli.Jobs.Commands.Foreground.{
  Chosen, fg_calls, func_fg-Sought, Chosen, fg_calls,
}
use operating_system_profoli.Jobs.Control.Waits.{Ends, IsStuck}
use operating_system_profoli.Jobs.Control.Terminal.{GivenBack}
use operating_system_profoli.Jobs.Update.{updated_process_status, updated_job_status_at}
use operating_system_profoli.Jobs.Update.Reports.{
  no_step, one_more, report, updated_job_status_at_stopped,
}
use operating_system_profoli.Launch.{Launch, pipeline, start_job}
use operating_system_profoli.Launch.Stages.{CanFork}
use operating_system_profoli.Launch.Ends.{open_ends, FreshPipes, start_job-closed}
use operating_system_profoli.Launch.Wired.{started, newest_first, Wired, start_job-Wired}
use operating_system_profoli.Driver.{process_text}
use operating_system_profoli.Driver.Quit.{kept_and_restored, process_text-quit}
use operating_system_profoli.Table.{find}
use operating_system_profoli.Tests.{friendly, job_of, simple, args_of, shell}

-- A system that never gives a descriptor of a pipe twice.
abbrev counting : Os
counting = record friendly { pipe_fds = λ calls. some (3 + 2 * length calls, 4 + 2 * length calls) }

All-below : (ds : List ℕ) (m n : ℕ) → m ≤ n → All (λ d. d < m) ds → All (λ d. d < n) ds
All-below [] m n h all = tt
All-below (d ∷ ds) m n h all = (omega (arith, h, all.0), All-below ds m n h all.1)

All-without : (fd m : ℕ) (ds : List ℕ) → All (λ d. d < m) ds → All (λ d. d < m) (without fd ds)
All-without fd m [] all = tt
All-without fd m (d ∷ ds) all = elim (Bool-cases (d == fd)) [
  | inl e ↦ rw e (all.1)
  | inr e ↦ rw e (all.0, All-without fd m ds all.1)
]

open_ends-below :
    (calls : List Call) → All (λ d. d < 3 + 2 * length calls) (open_ends counting calls)
unfolding open_ends
open_ends-below [] = tt
open_ends-below (open_pipe ∷ calls) = (
  omega arith,
  (
    omega arith,
    All-below _ (3 + 2 * length calls) (3 + 2 * length (open_pipe ∷ calls)) (omega arith)
        (open_ends-below calls),
  ),
)
open_ends-below (close fd ∷ calls) =
    All-below _ (3 + 2 * length calls) (3 + 2 * length (close fd ∷ calls)) (omega arith)
      (All-without fd (3 + 2 * length calls) (open_ends counting calls) (open_ends-below calls))
open_ends-below (c ∷ calls) =
    All-below _ (3 + 2 * length calls) (3 + 2 * length (c ∷ calls)) (omega arith)
      (open_ends-below calls)

All-apart :
    (ds : List ℕ) (n r w : ℕ)
    → n ≤ r
    → n ≤ w
    → All (λ d. d < n) ds
    → All (λ d. (d ≢ r) × (d ≢ w)) ds
All-apart [] n r w h h' all = tt
All-apart (d ∷ ds) n r w h h' all = (
  ((λ q. omega (arith, q, h, all.0)), (λ q. omega (arith, q, h', all.0))),
  All-apart ds n r w h h' all.1,
)

counting-FreshPipes : FreshPipes counting
counting-FreshPipes = record {
  fresh = λ calls r w e.
      let fds = Option.some-injective (3 + 2 * length calls, 4 + 2 * length calls) (r, w) e in
      let read : 3 + 2 * length calls ≡ r = ap (λ q. q.0) fds in
      let written : 4 + 2 * length calls ≡ w = ap (λ q. q.1) fds in
      (
        omega (arith, read),
        omega (arith, written),
        (λ q. omega (arith, q, read, written)),
        All-apart (open_ends counting calls) (3 + 2 * length calls) r w (omega (arith, read))
            (omega (arith, written)) (open_ends-below calls),
      );
}

counting-CanFork : CanFork counting
counting-CanFork = record {
  forks = λ _. (300, refl);
  pipes = λ calls. ((3 + 2 * length calls, 4 + 2 * length calls), refl);
}

-- `sort < f |& grep a | wc`
abbrev sort_grep_wc : Command
sort_grep_wc =
    command (codes "sort") false (args_of (codes "sort" ∷ []))
      (file_redirect redirect_in (codes "f") (
        pipe_redirect pipe_error
          (command (codes "grep") false (args_of (codes "grep" ∷ codes "a" ∷ []))
            (pipe_redirect pipe (simple (codes "wc") []) no_redirect) no_command)
          no_redirect))
      no_command

abbrev in_front : Launch
in_front = record { envs = []; interactive = true; background = false }

start_job-closed_example :
    Returns
      (λ _ t. open_ends counting t.calls ≡ open_ends counting shell.calls)
      (start_job counting in_front sort_grep_wc shell)
start_job-closed_example =
    start_job-closed counting in_front sort_grep_wc shell counting-CanFork counting-FreshPipes refl

start_job-Wired_example :
    Returns
      (λ _ t.
        (new : List Spawn) × (started t.calls ≡ newest_first new (started shell.calls))
        × Wired counting 0 false (pipeline sort_grep_wc) new)
      (start_job counting in_front sort_grep_wc shell)
start_job-Wired_example = start_job-Wired counting in_front sort_grep_wc shell counting-CanFork refl

process_text-quit_example :
    process_text friendly (λ _. []) false (codes "quit" ++ (b'\n' ∷ codes "cd /")) shell
    ≡ done tt (record shell { calls = kept_and_restored friendly shell.calls })
unfolding str_eq find
process_text-quit_example = process_text-quit friendly (λ _. []) shell (codes "cd /") refl

-- Only the files of /usr/bin may be executed.
abbrev in_usr_bin : Text → Bool
in_usr_bin p = str_eq p (codes "/usr/bin/ls")

abbrev choosy : Os
choosy = record friendly { access_ok = λ _ p. in_usr_bin p }

get_exec_path-first_example :
    get_exec_path choosy (simple (codes "ls") []) shell
    ≡ done
        (first_that in_usr_bin (map (in_dir (codes "ls")) (tokens colon (codes "/bin:/usr/bin"))))
        (record shell {
          calls =
              asked in_usr_bin
                (map (in_dir (codes "ls")) (tokens colon (codes "/bin:/usr/bin")))
                shell.calls;
        })
unfolding tokens str_eq find
get_exec_path-first_example =
    get_exec_path-first choosy in_usr_bin (λ _ _. refl) (simple (codes "ls") []) 0 shell refl refl
      refl refl (refl, (refl, tt))

-- `fg %2`
abbrev fg_two : Command
fg_two = simple (codes "fg") (codes "%2" ∷ [])

func_fg-Sought_example :
    Ends
      (λ _ s'.
        Chosen 2 (λ job j. GivenBack friendly j (fg_calls friendly job shell) shell s') shell
        ⊎ (All (λ job. job.job_num ≢ 2) shell.job_head
            × (s' ≡ record shell { calls = print_err (no_job (codes "fg")) ∷ shell.calls })))
      (λ s'.
        Chosen 2 (λ job j. IsStuck friendly shell.reports (fg_calls friendly job shell) s') shell)
      (func_fg friendly fg_two shell)
unfolding atoi
func_fg-Sought_example =
    func_fg-Sought fg_two b'%' 2 (codes "2") friendly shell refl refl refl refl
      (λ q. cc, (λ q. cc, tt))

-- A job that was stopped, and is reported to have ended.
abbrev stopped_process : Process
stopped_process = record {
  process_id = 301;
  is_completed = false;
  status = 4991;
  is_stopped = true;
}

abbrev stopped_job : Shell
stopped_job = record shell { job_head = job_of 1 (stopped_process ∷ []) ∷ [] }

abbrev ended_job : Shell
ended_job = record shell {
  job_head = job_of 1 ((record stopped_process { is_completed = true; status = 0 }) ∷ []) ∷ [];
}

told_of_end : updated_process_status 301 0 stopped_job ≡ done success ended_job
unfolding updated_process_status
told_of_end = refl

updated_job_status_at_stopped_example :
    Returns (λ v _. v ≢ completed) (updated_job_status_at 0 ended_job)
updated_job_status_at_stopped_example =
    updated_job_status_at_stopped stopped_job ended_job 0 (job_of 1 (stopped_process ∷ []))
      (one_more no_step (report 301 0 told_of_end)) refl refl
