-- ===== src/Jobs/Update/Reports.antt =====
-- Reports of processes, and the updates of jobs between them, in any order.
use mathlib.Core.Option
use mathlib.Core.Path.{subst}
use operating_system_profoli.Base.{
  ℕ, zero, suc, ◌≡◌, ◌≢◌, refl, sym, ◌∙◌, ap, inl, inr, Bool, true, false, ◌||◌, none, some, List,
  [], ◌∷◌, ◌==◌, ltb, get_elem?, set, Bool-cases, Option-cases,
}
use operating_system_profoli.Shell.{
  Shell, Outcome, exits, blocked, fault, Ret, done, Process, Job, RunStatus, running, stopped,
  completed,
}
use operating_system_profoli.Shell.Returns.{Returns}
use operating_system_profoli.Jobs.Status.{w_if_stopped}
use operating_system_profoli.Jobs.Update.{
  Scan, scan, active, ended, settle, resumed, halted, finished, reported, updated_process_status,
  updated_job_status, updated_job_status_at,
}
use operating_system_profoli.Jobs.Update.Verdict.{
  any_active, any_stopped, verdict, updated_job_status_lem,
}
use operating_system_profoli.Jobs.Update.Processes.{
  has_process, has_job, report_to, report_to_job, updated_process_status_lem,
}

-- UpdatedProcessStatus with a report, or UpdatedJobStatus of a job.
pub data Step : Shell → Shell → Type 0 where
  report :
      {s t : Shell} {ret : Ret} (id status : ℕ)
      → updated_process_status id status s ≡ done ret t
      → Step s t
  update : {s t : Shell} {v : RunStatus} (j : ℕ) → updated_job_status_at j s ≡ done v t → Step s t

pub data Steps (s : Shell) : Shell → Type 0 where
  no_step : Steps s s
  one_more : {t u : Shell} → Steps s t → Step t u → Steps s u

-- The job at a place has a stopped process.
abbrev Stopped : ℕ → List Job → Type 0
Stopped j js = (job : Job) × (get_elem? js j ≡ some job) × (any_stopped job.process ≡ true)

reported-is_stopped :
    (status : ℕ) (p : Process) → p.is_stopped ≡ true → (reported status p).is_stopped ≡ true
reported-is_stopped status p h = elim (Bool-cases (w_if_stopped status)) [
  | inl e ↦ rw e refl
  | inr e ↦ rw e h
]

or_right : (b c : Bool) → c ≡ true → (b || c) ≡ true
or_right true c h = refl
or_right false c h = h

any_stopped-report_to :
    (id status : ℕ) (ps : List Process)
    → any_stopped ps ≡ true
    → any_stopped (report_to id status ps) ≡ true
any_stopped-report_to id status [] h = h
any_stopped-report_to id status (p ∷ ps) h = elim (Bool-cases (p.process_id == id)) [
  | inl e ↦ elim (Bool-cases p.is_stopped) [
    | inl f ↦ rw (e, reported-is_stopped status p f) refl
    | inr f ↦ rw e (or_right (reported status p).is_stopped (any_stopped ps) (rw f at h))
  ]
  | inr e ↦ elim (Bool-cases p.is_stopped) [
    | inl f ↦ rw (e, f) refl
    | inr f ↦ rw (e, f) (any_stopped-report_to id status ps (rw f at h))
  ]
]

report_to_job-Stopped :
    (id status j : ℕ) (js : List Job) → Stopped j js → Stopped j (report_to_job id status js)
report_to_job-Stopped id status j [] h = h
report_to_job-Stopped id status zero (x ∷ js) (job, at, h) =
    let halted_x : any_stopped x.process ≡ true =
      ap (λ y. any_stopped (Job.process y)) (Option.some-injective x job at) ∙ h in
    elim (Bool-cases (has_process id x.process)) [
      | inl e ↦ rw e (
        record x { process = report_to id status x.process },
        refl,
        any_stopped-report_to id status x.process halted_x,
      )
      | inr e ↦ rw e (x, refl, halted_x)
    ]
report_to_job-Stopped id status (suc j) (x ∷ js) (job, at, h) =
    elim (Bool-cases (has_process id x.process)) [
      | inl e ↦ rw e (job, at, h)
      | inr e ↦ rw e (report_to_job-Stopped id status j js (job, at, h))
    ]

-- UpdatedJobStatus leaves the processes alone.
settle-process :
    (job job' : Job) (found : Scan) (v : RunStatus)
    → settle job found ≡ some (v, job')
    → job'.process ≡ job.process
unfolding settle
settle-process job job' active v e =
    sym (ap (λ q. Job.process (q.1)) (Option.some-injective (running, resumed job) (v, job') e))
settle-process job job' (ended b none) v e = absurd (Option.none-ne-some (v, job') e)
settle-process job job' (ended true (some status)) v e =
    sym
      (ap (λ q. Job.process (q.1)) (Option.some-injective (stopped, halted status job) (v, job') e))
settle-process job job' (ended false (some status)) v e = sym (
    ap (λ q. Job.process (q.1))
      (Option.some-injective (completed, finished status job) (v, job') e))

set-Stopped :
    (js : List Job) (i j : ℕ) (old new : Job)
    → get_elem? js i ≡ some old
    → new.process ≡ old.process
    → Stopped j js
    → Stopped j (set js i new)
set-Stopped [] i j old new at same h = h
set-Stopped (x ∷ js) zero zero old new at same (job, at', h) = (
  new,
  refl,
  ap any_stopped (
        same
        ∙ sym (ap Job.process (Option.some-injective x old at))
        ∙ ap Job.process (Option.some-injective x job at'))
      ∙ h,
)
set-Stopped (x ∷ js) zero (suc j) old new at same h = h
set-Stopped (x ∷ js) (suc i) zero old new at same h = h
set-Stopped (x ∷ js) (suc i) (suc j) old new at same h = set-Stopped js i j old new at same h

-- The state that a run ends in, if it returns.
abbrev left_by : {A : Type 0} → Shell → Outcome A → Shell
left_by s (done a t) = t
left_by s (exits n t) = s
left_by s (blocked t) = s
left_by s fault = s

reported-Stopped :
    (id status j : ℕ) (s : Shell)
    → Stopped j s.job_head
    → Stopped j (left_by s (updated_process_status id status s)).job_head
reported-Stopped id status j s h =
    rw (updated_process_status_lem id status s) (elim (Bool-cases (ltb 0 id)) [
      | inr e ↦ rw e h
      | inl e ↦ elim (Bool-cases (has_job id s.job_head)) [
        | inr f ↦ rw (e, f) h
        | inl f ↦ rw (e, f) (report_to_job-Stopped id status j s.job_head h)
      ]
    ])

updated-Stopped :
    (i j : ℕ) (s : Shell)
    → Stopped j s.job_head
    → Stopped j (left_by s (updated_job_status_at i s)).job_head
unfolding updated_job_status_at updated_job_status
updated-Stopped i j s h = elim (Option-cases (get_elem? s.job_head i)) [
  | inl e ↦ rw e h
  | inr (old, e) ↦ elim (Option-cases (updated_job_status old)) [
    | inl f ↦ rw (e, f) h
    | inr ((v, new), f) ↦
        rw (e, f)
          (set-Stopped s.job_head i j old new e
            (settle-process old new (scan old.process false none) v f) h)
  ]
]

Step-Stopped : (s t : Shell) (j : ℕ) → Step s t → Stopped j s.job_head → Stopped j t.job_head
Step-Stopped s t j (report id status e) h =
    subst (λ u. Stopped j (Shell.job_head u)) (ap (left_by s) e) (reported-Stopped id status j s h)
Step-Stopped s t j (update i e) h =
    subst (λ u. Stopped j (Shell.job_head u)) (ap (left_by s) e) (updated-Stopped i j s h)

Steps-Stopped : (s t : Shell) (j : ℕ) → Steps s t → Stopped j s.job_head → Stopped j t.job_head
Steps-Stopped s t j no_step h = h
Steps-Stopped s u j (one_more {t} steps step) h =
    Step-Stopped t u j step (Steps-Stopped s t j steps h)

-- With a stopped process a job runs or is stopped.
verdict-stopped :
    (ps : List Process)
    → any_stopped ps ≡ true
    → (v : RunStatus) × (verdict ps ≡ some v) × (v ≢ completed)
verdict-stopped [] h = let no : ⊥ = cc in absurd no
verdict-stopped (p ∷ ps) h = elim (Bool-cases (any_active (p ∷ ps))) [
  | inl e ↦ (running, rw e refl, λ q. cc)
  | inr e ↦ (stopped, rw (e, h) refl, λ q. cc)
]

-- Where the job at a place has a stopped process, UpdatedJobStatus does not find it completed after any
-- sequence of reports and of updates of jobs, not even once all its processes have ended.
pub updated_job_status_at_stopped :
    (s t : Shell) (j : ℕ) (job : Job)
    → Steps s t
    → get_elem? s.job_head j ≡ some job
    → any_stopped job.process ≡ true
    → Returns (λ v _. v ≢ completed) (updated_job_status_at j t)
unfolding updated_job_status_at
updated_job_status_at_stopped s t j job steps at h =
    let (later, at', h') = Steps-Stopped s t j steps (job, at, h) in
    let (v, found, ne) = verdict-stopped later.process h' in
    let (job', run, _, _, _) = (updated_job_status_lem later).1 v found in rw (at', run) ne
