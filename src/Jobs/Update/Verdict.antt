-- ===== src/Jobs/Update/Verdict.antt =====
-- UpdatedJobStatus against a description of a job by all its processes.
use mathlib.Core.Path.{subst}
use mathlib.Core.Option
use operating_system_profoli.Base.{
  ℕ, ◌≡◌, refl, inl, inr, Bool, true, false, not, ◌&&◌, ◌||◌, Option, none, some, List, [], ◌∷◌,
  if◌then◌else◌, Bool-cases,
}
use operating_system_profoli.Shell.{Process, Job, RunStatus, running, stopped, completed}
use operating_system_profoli.Jobs.Update.{
  active, ended, scan, settle, resumed, halted, finished, updated_job_status,
}

abbrev pub is_active : Process → Bool
is_active p = not p.is_completed && not p.is_stopped

abbrev pub any_active : List Process → Bool
any_active [] = false
any_active (p ∷ ps) = is_active p || any_active ps

abbrev pub any_stopped : List Process → Bool
any_stopped [] = false
any_stopped (p ∷ ps) = p.is_stopped || any_stopped ps

-- The status of the last process, or a given one.
abbrev pub last_status : Option ℕ → List Process → Option ℕ
last_status old [] = old
last_status old (p ∷ ps) = last_status (some p.status) ps

-- A job runs while a process does; else it is stopped if a process is, and else completed. A job
-- with no process is none of these.
abbrev pub verdict : List Process → Option RunStatus
verdict [] = none
verdict (p ∷ ps) =
    if any_active (p ∷ ps)
    then some running
    else if any_stopped (p ∷ ps)
    then some stopped
    else some completed

or_true : (b : Bool) → (b || true) ≡ true
or_true true = refl
or_true false = refl

scan_lem :
    (ps : List Process) (b : Bool) (st : Option ℕ)
    → scan ps b st
      ≡ (if any_active ps then active else ended (b || any_stopped ps) (last_status st ps))
unfolding scan
scan_lem [] true st = refl
scan_lem [] false st = refl
scan_lem (p ∷ ps) b st = elim (Bool-cases (is_active p)) [
  | inl e ↦ rw e
  | inr e ↦ elim (Bool-cases p.is_stopped) [
    | inl f ↦ rw (e, f, or_true b) (scan_lem ps true (some p.status))
    | inr f ↦ rw (e, f) (scan_lem ps b (some p.status))
  ]
]

last_status-some : (n : ℕ) (ps : List Process) → (m : ℕ) × (last_status (some n) ps ≡ some m)
last_status-some n [] = (n, refl)
last_status-some n (p ∷ ps) = last_status-some p.status ps

-- The job afterwards has the new state and the processes and the number that it had.
abbrev pub Settled : Job → RunStatus → Option (RunStatus × Job) → Type 0
Settled job v r =
    (job' : Job) × (r ≡ some (v, job'))
    × (job'.run_status ≡ v)
    × (job'.process ≡ job.process)
    × (job'.job_num ≡ job.job_num)

settle-verdict :
    (job : Job) (ps : List Process) (v : RunStatus)
    → verdict ps ≡ some v
    → Settled job v (settle job (scan ps false none))
unfolding settle
settle-verdict job [] v h = absurd (Option.none-ne-some v h)
settle-verdict job (p ∷ ps) v h = elim (Bool-cases (any_active (p ∷ ps))) [
  | inl e ↦
      subst (λ w. Settled job w (settle job (scan (p ∷ ps) false none)))
        (Option.some-injective running v (rw e at h))
        (resumed job, rw (scan_lem (p ∷ ps) false none, e), refl, refl, refl)
  | inr e ↦
      let (m, q) = last_status-some p.status ps in
      elim (Bool-cases (any_stopped (p ∷ ps))) [
        | inl f ↦
            subst (λ w. Settled job w (settle job (scan (p ∷ ps) false none)))
              (Option.some-injective stopped v (rw (e, f) at h))
              (halted m job, rw (scan_lem (p ∷ ps) false none, e, f, q), refl, refl, refl)
        | inr f ↦
            subst (λ w. Settled job w (settle job (scan (p ∷ ps) false none)))
              (Option.some-injective completed v (rw (e, f) at h))
              (finished m job, rw (scan_lem (p ∷ ps) false none, e, f, q), refl, refl, refl)
      ]
]

-- UpdatedJobStatus gives the job's verdict and writes it into the job, whose processes and number
-- it leaves alone; of a job with no process it reads a variable that was never set.
pub updated_job_status_lem :
    (job : Job)
    → (job.process ≡ [] → updated_job_status job ≡ none)
      × ((v : RunStatus) → verdict job.process ≡ some v → Settled job v (updated_job_status job))
unfolding updated_job_status
updated_job_status_lem job =
    (λ e. rw e (unfold settle scan in refl), λ v h. settle-verdict job job.process v h)
