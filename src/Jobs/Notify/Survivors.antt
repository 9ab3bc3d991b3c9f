-- ===== src/Jobs/Notify/Survivors.antt =====
-- What func_JobNotification leaves of the job list.
use mathlib.Core.Path.{ap₂}
use operating_system_profoli.Base.{
  ℕ, ◌≡◌, ◌≢◌, refl, inl, inr, Bool, true, false, ◌||◌, Option, none, some, List, [], ◌∷◌, map, All,
  if◌then◌else◌, Bool-cases,
}
use operating_system_profoli.Shell.{
  Shell, Job, Process, Call, RunStatus, running, stopped, completed, done, job_done,
  job_stopped_note, say, Outcome, Message, print_out,
}
use operating_system_profoli.Jobs.Update.{updated_job_status, is_completed_job}
use operating_system_profoli.Jobs.Update.Verdict.{
  verdict, any_active, any_stopped, updated_job_status_lem,
}
use operating_system_profoli.Jobs.Notify.{settle_jobs, settle_job, tell}

-- Every job has a process.
abbrev pub HasProcess : Job → Type 0
HasProcess j = j.process ≢ []

abbrev pub is_over : Option RunStatus → Bool
is_over none = false
is_over (some v) = is_completed_job v

-- The numbers of the jobs that are not completed, in order.
abbrev pub survivors : List Job → List ℕ
survivors [] = []
survivors (j ∷ js) = if is_over (verdict j.process) then survivors js else j.job_num ∷ survivors js

pub verdict-some : (ps : List Process) → ps ≢ [] → (v : RunStatus) × (verdict ps ≡ some v)
verdict-some [] h = absurd (h refl)
verdict-some (p ∷ ps) h = elim (Bool-cases (any_active (p ∷ ps))) [
  | inl e ↦ (running, rw e)
  | inr e ↦ elim (Bool-cases (any_stopped (p ∷ ps))) [
    | inl f ↦ (stopped, rw (e, f))
    | inr f ↦ (completed, rw (e, f))
  ]
]

-- The run gives the jobs with these numbers, each with a process, and changes only the calls.
abbrev pub Leaves : Outcome (List Job) → Shell → List ℕ → Type 0
Leaves run s nums =
    (left : List Job) × (c : List Call) × (run ≡ done left (record s { calls = c }))
    × (map Job.job_num left ≡ nums)
    × All HasProcess left

tell_calls :
    (j : Job) (m : Message) (s : Shell)
    → (c : List Call) × (tell j (say m) s ≡ done tt (record s { calls = c }))
unfolding tell
tell_calls j m s = elim (Bool-cases (j.foreground || j.notified)) [
  | inl e ↦ (s.calls, rw e)
  | inr e ↦ (print_out m ∷ s.calls, rw e)
]

-- One round, from what the later rounds do.
settle_round :
    (j j' : Job) (js : List Job) (s : Shell) (v : RunStatus)
    → ((s' : Shell) → Leaves (settle_jobs js s') s' (survivors js))
    → verdict j.process ≡ some v
    → updated_job_status j ≡ some (v, j')
    → HasProcess j'
    → j'.job_num ≡ j.job_num
    → Leaves (settle_jobs (j ∷ js) s) s (survivors (j ∷ js))
unfolding settle_jobs settle_job
settle_round j j' js s running later e run busy number =
    let (left, c, rest, nums, all) = later s in
    (j' ∷ left, c, rw (run, rest), rw e (ap₂ ◌∷◌ number nums), (busy, all))
settle_round j j' js s stopped later e run busy number =
    let (told, spoke) = tell_calls j' (job_stopped_note j'.job_num) s in
    let (left, c, rest, nums, all) = later (record s { calls = told }) in
    (
      record j' { notified = true } ∷ left,
      c,
      rw (run, spoke, rest),
      rw e (ap₂ ◌∷◌ number nums),
      (busy, all),
    )
settle_round j j' js s completed later e run busy number =
    let (told, spoke) = tell_calls j' (job_done j'.job_num j'.job_name) s in
    let (left, c, rest, nums, all) = later (record s { calls = told }) in
    (left, c, rw (run, spoke, rest), rw e nums, all)

pub settle_jobs-Leaves :
    (js : List Job) (s : Shell) → All HasProcess js → Leaves (settle_jobs js s) s (survivors js)
settle_jobs-Leaves [] s h = ([], s.calls, unfold settle_jobs in refl, refl, tt)
settle_jobs-Leaves (j ∷ js) s h =
    let (v, e) = verdict-some j.process h.0 in
    let (j', run, new, same, number) = (updated_job_status_lem j).1 v e in
    settle_round j j' js s v (λ s'. settle_jobs-Leaves js s' h.1) e run (rw same h.0) number
