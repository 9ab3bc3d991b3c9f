-- ===== src/Memory/Jobs/Reports.antt =====
-- The blocks of the job list when a process is reported.
use mathlib.Core.List.{append_assoc}
use operating_system_profoli.Base.{
  ℕ, ◌≡◌, refl, ◌∙◌, ap, inl, inr, Option, none, some, List, [], ◌∷◌, ◌++◌, map, All, arith, ◌==◌,
  Bool-cases, Option-cases,
}
use operating_system_profoli.Memory.{occurrences}
use operating_system_profoli.Memory.Owned.{Same, Makes, occurrences-append}
use operating_system_profoli.Memory.Build.Arguments.{owned-live}
use operating_system_profoli.Memory.Jobs.{HeapJob, job_blocks, jobs_blocks, update_blocks}
use operating_system_profoli.Memory.Jobs.Rounds.{read_processes-live}
use operating_system_profoli.Shell.{Job, Process}
use operating_system_profoli.Jobs.Update.{update_processes, update_jobs}
use operating_system_profoli.Jobs.Update.Processes.{has_job, update_jobs_lem, report_to_job-busy}
use operating_system_profoli.Jobs.Notify.Survivors.{HasProcess}

-- The job list after a report.
abbrev pub updated : List Job → Option (List Job) → List Job
updated jobs none = jobs
updated jobs (some jobs') = jobs'

updated-later :
    (id status : ℕ) (j : Job) (js : List Job)
    → update_processes id status j.process ≡ none
    → j ∷ updated js (update_jobs id status js) ≡ updated (j ∷ js) (update_jobs id status (j ∷ js))
unfolding update_jobs
updated-later id status j js e = elim (Option-cases (update_jobs id status js)) [
  | inl f ↦ rw (update_jobs, e, f) refl
  | inr (js', f) ↦ rw (update_jobs, e, f) refl
]

updated-here :
    (id status : ℕ) (j : Job) (js : List Job) (ps : List Process)
    → update_processes id status j.process ≡ some ps
    → record j { process = ps } ∷ js ≡ updated (j ∷ js) (update_jobs id status (j ∷ js))
unfolding update_jobs
updated-here id status j js ps e = rw (update_jobs, e) refl

pub updated-busy :
    (id status : ℕ) (js : List Job)
    → All HasProcess js
    → All HasProcess (updated js (update_jobs id status js))
updated-busy id status js h = rw (update_jobs_lem id status js) (elim (Bool-cases (has_job id js)) [
  | inl e ↦ rw e (report_to_job-busy id status js h)
  | inr e ↦ rw e h
])

pub update_blocks-Makes :
    (id status : ℕ) (hjs : List HeapJob) (live rest : List ℕ)
    → Same live (jobs_blocks hjs ++ rest)
    → Makes
        (λ hjs'.
          map HeapJob.job hjs'
          ≡ updated (map HeapJob.job hjs) (update_jobs id status (map HeapJob.job hjs)))
        jobs_blocks
        rest
        (update_blocks id status hjs live)
unfolding update_blocks update_jobs occurrences
update_blocks-Makes id status [] live rest h = ([], live, refl, refl, h)
update_blocks-Makes id status (hj ∷ hjs) live rest h =
    let split : Same live (job_blocks hj ++ (jobs_blocks hjs ++ rest)) =
      λ c. h c ∙ ap (occurrences c) (append_assoc (job_blocks hj) (jobs_blocks hjs) rest) in
    let used =
      owned-live hj.block live (hj.name ∷ (hj.processes ++ (jobs_blocks hjs ++ rest))) split in
    let read =
      read_processes-live (λ p. p.process_id == id) hj.processes hj.job.process live
        (λ c.
          omega (arith, split c, occurrences-append c hj.processes (jobs_blocks hjs ++ rest))) in
    elim (Option-cases (update_processes id status hj.job.process)) [
      | inl e ↦
          let (hjs', live', run, same, left) =
            update_blocks-Makes id status hjs live (job_blocks hj ++ rest) (λ c. omega (
              arith,
              split c,
              occurrences-append c (hj.processes) (jobs_blocks hjs ++ rest),
              occurrences-append c (jobs_blocks hjs) rest,
              occurrences-append c (jobs_blocks hjs) (job_blocks hj ++ rest),
              occurrences-append c (hj.processes) rest,
            )) in
          (
            hj ∷ hjs',
            live',
            rw (used, read, e, run) refl,
            ap (λ l. hj.job ∷ l) same ∙ updated-later id status hj.job (map HeapJob.job hjs) e,
            λ c. omega (
              arith,
              left c,
              occurrences-append c (hj.processes ++ jobs_blocks hjs') rest,
              occurrences-append c (hj.processes) (jobs_blocks hjs'),
              occurrences-append c (jobs_blocks hjs') (job_blocks hj ++ rest),
              occurrences-append c (hj.processes) rest,
            ),
          )
      | inr (ps, e) ↦ (
        record hj { job = record hj.job { process = ps } } ∷ hjs,
        live,
        rw (used, read, e) refl,
        updated-here id status hj.job (map HeapJob.job hjs) ps e,
        h,
      )
    ]
