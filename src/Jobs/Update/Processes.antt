-- ===== src/Jobs/Update/Processes.antt =====
-- UpdatedProcessStatus changes one process of the job list, and nothing else.
use operating_system_profoli.Base.{
  ℕ, ◌≡◌, ◌≢◌, refl, ap, inl, inr, Bool, false, ◌||◌, none, some, List, [], ◌∷◌, map, All, ◌==◌,
  ltb, if◌then◌else◌, Bool-cases,
}
use operating_system_profoli.Shell.{Shell, Job, Process, success, fail, done}
use operating_system_profoli.Jobs.Update.{
  update_processes, update_jobs, updated_process_status, reported,
}

-- Whether a process of this id is among them.
abbrev pub has_process : ℕ → List Process → Bool
has_process id [] = false
has_process id (p ∷ ps) = p.process_id == id || has_process id ps

abbrev pub has_job : ℕ → List Job → Bool
has_job id [] = false
has_job id (j ∷ js) = has_process id j.process || has_job id js

-- The first process of this id takes the report; the others are as they were.
abbrev pub report_to : (id status : ℕ) → List Process → List Process
report_to id status [] = []
report_to id status (p ∷ ps) =
    if p.process_id == id then reported status p ∷ ps else p ∷ report_to id status ps

-- The same for the first job that has such a process.
abbrev pub report_to_job : (id status : ℕ) → List Job → List Job
report_to_job id status [] = []
report_to_job id status (j ∷ js) =
    if has_process id j.process
    then record j { process = report_to id status j.process } ∷ js
    else j ∷ report_to_job id status js

update_processes_lem :
    (id status : ℕ) (ps : List Process)
    → update_processes id status ps
      ≡ (if has_process id ps then some (report_to id status ps) else none)
unfolding update_processes
update_processes_lem id status [] = refl
update_processes_lem id status (p ∷ ps) = elim (Bool-cases (p.process_id == id)) [
  | inl e ↦ rw e
  | inr e ↦ elim (Bool-cases (has_process id ps)) [
    | inl f ↦ rw (e, update_processes_lem id status ps, f)
    | inr f ↦ rw (e, update_processes_lem id status ps, f)
  ]
]

pub update_jobs_lem :
    (id status : ℕ) (js : List Job)
    → update_jobs id status js ≡ (if has_job id js then some (report_to_job id status js) else none)
unfolding update_jobs
update_jobs_lem id status [] = refl
update_jobs_lem id status (j ∷ js) = elim (Bool-cases (has_process id j.process)) [
  | inl e ↦ rw (update_processes_lem id status j.process, update_jobs, e)
  | inr e ↦ elim (Bool-cases (has_job id js)) [
    | inl f ↦
        rw (
          update_processes_lem id status j.process,
          update_jobs,
          e,
          update_jobs_lem id status js,
          f,
        )
    | inr f ↦
        rw (
          update_processes_lem id status j.process,
          update_jobs,
          e,
          update_jobs_lem id status js,
          f,
        )
  ]
]

-- UpdatedProcessStatus returns SUCCESS exactly where the id is positive and a process of the job
-- list has it. Then the first such process takes the report and nothing else changes; otherwise
-- nothing changes at all.
pub updated_process_status_lem :
    (id status : ℕ) (s : Shell)
    → updated_process_status id status s ≡ (
        if ltb 0 id
        then if has_job id s.job_head
          then done success (record s { job_head = report_to_job id status s.job_head })
          else done fail s
        else done fail s)
unfolding updated_process_status
updated_process_status_lem id status s = elim (Bool-cases (ltb 0 id)) [
  | inr e ↦ rw e
  | inl e ↦ elim (Bool-cases (has_job id s.job_head)) [
    | inl f ↦ rw (e, update_jobs_lem id status s.job_head, f)
    | inr f ↦ rw (e, update_jobs_lem id status s.job_head, f)
  ]
]

report_to-ne_nil : (id status : ℕ) (ps : List Process) → ps ≢ [] → report_to id status ps ≢ []
report_to-ne_nil id status [] h = h
report_to-ne_nil id status (p ∷ ps) h = elim (Bool-cases (p.process_id == id)) [
  | inl e ↦ rw e (λ q. cc)
  | inr e ↦ rw e (λ q. cc)
]

pub map-report_to_job :
    (id status : ℕ) (js : List Job)
    → map Job.job_num (report_to_job id status js) ≡ map Job.job_num js
map-report_to_job id status [] = refl
map-report_to_job id status (j ∷ js) = elim (Bool-cases (has_process id j.process)) [
  | inl e ↦ rw e
  | inr e ↦ rw e (ap (λ l. j.job_num ∷ l) (map-report_to_job id status js))
]

pub report_to_job-busy :
    (id status : ℕ) (js : List Job)
    → All (λ j. j.process ≢ []) js
    → All (λ j. j.process ≢ []) (report_to_job id status js)
report_to_job-busy id status [] h = tt
report_to_job-busy id status (j ∷ js) h = elim (Bool-cases (has_process id j.process)) [
  | inl e ↦ rw e (report_to-ne_nil id status j.process h.0, h.1)
  | inr e ↦ rw e (h.0, report_to_job-busy id status js h.1)
]
