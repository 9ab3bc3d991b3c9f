-- ===== src/Jobs/Control/Terminal.antt =====
-- MakeJobForeGround: what it asks of the system, how long it waits, and what it leaves.
use mathlib.Core.Option
use operating_system_profoli.Base.{
  ℕ, zero, suc, ◌≡◌, ◌⊎◌, refl, sym, ◌∙◌, ap, inl, inr, Bool, true, false, ◌&&◌, ◌||◌, Option, none,
  some, List, [], ◌∷◌, All, ltb, if◌then◌else◌, get_elem?, set, get_elem?-set_self, Bool-cases,
}
use operating_system_profoli.Shell.{
  Shell, Call, Job, Os, Report, tcgetattr, tcsetattr, tcsetpgrp, sigcont, kill, print_err,
  system_error,
}
use operating_system_profoli.Jobs.Update.{is_running}
use operating_system_profoli.Jobs.Update.Processes.{has_process, has_job}
use operating_system_profoli.Jobs.Notify.Survivors.{HasProcess}
use operating_system_profoli.Jobs.Control.{
  kill_text, kill_group, wait_loop, wait_and_return, make_job_foreground,
}
use operating_system_profoli.Jobs.Control.Places.{Waited, All-at, put-Waited, Waited-trans}
use operating_system_profoli.Jobs.Control.Waits.{
  Ends, Ends-and_then, Ends-mono, waits, behind, IsRefused, Over, IsStuck, wait_loop-Ends,
}

-- The calls that bring a job to the foreground, the newest first: its group gets the terminal, and if it is to
-- go on it gets its modes and SIGCONT, with a message where that fails.
abbrev pub handed : Os → Bool → Job → List Call → List Call
handed os cont job calls =
    let asked = tcsetattr job.tmodes ∷ tcsetpgrp job.process_group_id ∷ calls in
    let sent = kill job.process_group_id sigcont ∷ asked in
    if cont
    then if os.kill_ok asked job.process_group_id sigcont
      then sent
      else print_err (system_error (kill_text sigcont)) ∷ sent
    else tcsetpgrp job.process_group_id ∷ calls

-- After the wait from these calls the modes are read, which the job keeps, the terminal goes back to the
-- shell's group, and is set to these modes.
abbrev pub GivenBack : Os → ℕ → List Call → Shell → Shell → Type 0
GivenBack os j start s t =
    Waited s t
    × ((k : ℕ) × (job : Job) × (let waited = waits (suc k) start in
          (t.calls
            ≡ tcgetattr
              ∷ tcsetattr (os.modes waited)
              ∷ tcsetpgrp s.pid_terminal
              ∷ tcgetattr
              ∷ waited)
          × (job.tmodes ≡ os.modes waited))
        × (t.reports ≡ behind (suc k) s.reports)
        × (get_elem? t.job_head j ≡ some job)
        × ((is_running job.run_status ≡ false) ⊎ IsRefused (get_elem? s.reports k) t))

has_job-set :
    (id : ℕ) (l : List Job) (j : ℕ) (job' : Job) {job : Job}
    → get_elem? l j ≡ some job
    → job'.process ≡ job.process
    → has_job id (set l j job') ≡ has_job id l
has_job-set id [] j job' h e = refl
has_job-set id (x ∷ l) zero job' {job} h e =
    ap (λ ps. has_process id ps || has_job id l)
      (e ∙ sym (ap Job.process (Option.some-injective x job h)))
has_job-set id (x ∷ l) (suc j) job' h e =
    ap (λ b. has_process id x.process || b) (has_job-set id l j job' h e)

IsRefused-set :
    (o : Option Report) (t t' : Shell) (j : ℕ) (job' : Job) {job : Job}
    → get_elem? t.job_head j ≡ some job
    → job'.process ≡ job.process
    → t'.job_head ≡ set t.job_head j job'
    → IsRefused o t
    → IsRefused o t'
IsRefused-set none t t' j job' h e same refused = tt
IsRefused-set (some r) t t' j job' h e same refused =
    ap (λ l. ltb 0 r.process_id && has_job r.process_id l) same
    ∙ ap (λ b. ltb 0 r.process_id && b) (has_job-set r.process_id t.job_head j job' h e)
    ∙ refused

module _ (os : Os) (j : ℕ) where
  wait_and_return-GivenBack :
      (s : Shell) (job : Job)
      → All HasProcess s.job_head
      → get_elem? s.job_head j ≡ some job
      → Ends
          (λ _ t. GivenBack os j s.calls s t)
          (IsStuck os s.reports s.calls)
          (wait_and_return os j s)
  unfolding wait_and_return
  wait_and_return-GivenBack s job all h =
      Ends-and_then (λ _ t. Over j s.reports s t) (λ _ t. GivenBack os j s.calls s t)
        (IsStuck os s.reports s.calls) (IsStuck os s.reports s.calls) (wait_loop os j s.reports s) _
        (wait_loop-Ends os j s.reports s job refl all h)
        (λ u t (w, (k, last, calls, reports, at, why)).
          let modes = os.modes t.calls in
          let job' : Job = record last { tmodes = modes } in
          let put = put-Waited t j job' w.busy at refl (All-at t.job_head j w.busy at) in
          let asked = tcsetattr modes ∷ tcsetpgrp t.pid_terminal ∷ tcgetattr ∷ t.calls in
          let after : Shell = record t {
            job_head = set t.job_head j job';
            calls = tcgetattr ∷ asked;
            terminal_tmodes = os.modes asked;
          } in
          rw at (
            Waited-trans w
                (record { owner = refl; count = refl; numbers = put.numbers; busy = put.busy }),
            (
              k,
              job',
              (rw (w.owner, calls) refl, ap os.modes calls),
              reports,
              get_elem?-set_self t.job_head j job' at,
              elim why [
                | inl over ↦ inl over
                | inr refused ↦
                    inr (IsRefused-set (get_elem? s.reports k) t after j job' at refl refl refused)
              ],
            ),
          ))
        (λ t stuck. stuck)

  pub GivenBack-after :
      (start : List Call) (s s' t : Shell)
      → Waited s s'
      → s'.reports ≡ s.reports
      → GivenBack os j start s' t
      → GivenBack os j start s t
  GivenBack-after start s s' t w same (w', (k, job, (calls, kept), reports, at, why)) = (
    Waited-trans w w',
    (k, job, (rw (sym w.owner) calls, kept), rw (sym same) reports, at, rw (sym same) why),
  )

  -- From a list of jobs that each have a process, MakeJobForeGround of the job at a place gives its group
  -- the terminal, and if it is to go on sets its modes and sends it SIGCONT. It then calls `waitpid` once or
  -- more, and when it stops the job does not run or the last answer names no process of a job (-1 where no
  -- report is left). The modes that are read then are kept in the job and set again for the shell's group,
  -- which gets the terminal; the jobs keep their places and numbers, each with a process. Or it blocks in a
  -- `waitpid`, after every report was taken and where there is a child.
  pub make_job_foreground-GivenBack :
      (cont : Bool) (s : Shell) (job : Job)
      → All HasProcess s.job_head
      → get_elem? s.job_head j ≡ some job
      → Ends
          (λ _ t. GivenBack os j (handed os cont job s.calls) s t)
          (IsStuck os s.reports (handed os cont job s.calls))
          (make_job_foreground os j cont s)
  unfolding make_job_foreground kill_group
  make_job_foreground-GivenBack cont s job all at =
      let job' : Job = record job { foreground = true } in
      let put = put-Waited s j job' all at refl (All-at s.job_head j all at) in
      let shown : List Call → Shell =
        λ c. record s { job_head = set s.job_head j job'; calls = c } in
      let same : (c : List Call) → Waited s (shown c) =
        λ c. record { owner = refl; count = refl; numbers = put.numbers; busy = put.busy } in
      let rest : (c : List Call)
          → Ends (λ _ t. GivenBack os j c s t) (IsStuck os s.reports c)
              (wait_and_return os j (shown c)) =
        λ c.
          Ends-mono (λ _ t. GivenBack os j c (shown c) t) (λ _ t. GivenBack os j c s t)
            (IsStuck os s.reports c) (IsStuck os s.reports c) (wait_and_return os j (shown c))
            (wait_and_return-GivenBack (shown c) job' put.busy
              (get_elem?-set_self s.job_head j job' at))
            (λ _ t g. GivenBack-after c s (shown c) t (same c) refl g) (λ t stuck. stuck) in
      let asked = tcsetattr job.tmodes ∷ tcsetpgrp job.process_group_id ∷ s.calls in
      elim (Bool-cases cont) [
        | inr e ↦ rw (at, e) (rest (tcsetpgrp job.process_group_id ∷ s.calls))
        | inl e ↦ elim (Bool-cases (os.kill_ok asked job.process_group_id sigcont)) [
          | inl f ↦ rw (at, e, f) (rest (kill job.process_group_id sigcont ∷ asked))
          | inr f ↦
              rw (at, e, f)
                (rest (
                  print_err (system_error (kill_text sigcont))
                  ∷ kill job.process_group_id sigcont
                  ∷ asked))
        ]
      ]
