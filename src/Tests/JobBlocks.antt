-- ===== src/Tests/JobBlocks.antt =====
-- Examples for the blocks of the job list.
use operating_system_profoli.Base.{ℕ, ◌≡◌, refl, none, some, List, [], ◌∷◌, ◌++◌, map, codes}
use operating_system_profoli.Memory.Owned.{Same, Makes}
use operating_system_profoli.Memory.Jobs.{
  HeapJob, jobs_blocks, settle_blocks, started, reported, notified, Event, run_session,
}
use operating_system_profoli.Memory.Jobs.Settled.{settle_blocks-Makes}
use operating_system_profoli.Memory.Jobs.Session.{run_session-Same}
use operating_system_profoli.Shell.{print_out, job_done, done}
use operating_system_profoli.Jobs.Notify.{settle_jobs}
use operating_system_profoli.Jobs.Update.{scan, updated_job_status}
use operating_system_profoli.Tests.{shell, job_of, active_process, ended_process}
use operating_system_profoli.Tests.Blocks.{counted}

-- A job that runs, and one that is completed.
abbrev two_jobs : List HeapJob
two_jobs =
    (record { job = job_of 2 (active_process ∷ []); block = 4; name = 5; processes = 6 ∷ [] })
    ∷ (record { job = job_of 1 (ended_process ∷ []); block = 1; name = 2; processes = 3 ∷ [] })
    ∷ []

settle_two :
    settle_jobs (map HeapJob.job two_jobs) shell
    ≡ done
        (job_of 2 (active_process ∷ []) ∷ [])
        (record shell { calls = print_out (job_done 1 (codes "make")) ∷ [] })
unfolding settle_jobs updated_job_status scan
settle_two = refl

settle_blocks-Makes_example :
    Makes
      (λ left. map HeapJob.job left ≡ job_of 2 (active_process ∷ []) ∷ [])
      jobs_blocks
      (9 ∷ [])
      (settle_blocks none two_jobs (jobs_blocks two_jobs ++ (9 ∷ [])))
settle_blocks-Makes_example =
    settle_blocks-Makes two_jobs shell
      (record shell { calls = print_out (job_done 1 (codes "make")) ∷ [] })
      (job_of 2 (active_process ∷ []) ∷ []) none (jobs_blocks two_jobs ++ (9 ∷ [])) (9 ∷ [])
      settle_two tt (λ b. refl)

-- The first job ends before the second one is started, and the second one is there at the end.
abbrev events : List Event
events =
    started 2 (job_of 1 (active_process ∷ []))
    ∷ reported 301 0
    ∷ notified
    ∷ started 2 (job_of 1 (active_process ∷ ended_process ∷ []))
    ∷ reported 302 0
    ∷ notified
    ∷ []

run_session-Same_example :
    (live' : List ℕ) × (run_session counted events (9 ∷ []) ≡ some (tt, live'))
    × Same live' (9 ∷ [])
run_session-Same_example =
    run_session-Same counted events (9 ∷ []) ((λ q. cc), (tt, (tt, ((λ q. cc), (tt, (tt, tt))))))
