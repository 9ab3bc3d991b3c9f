-- ===== src/Memory/Jobs.antt =====
-- The blocks of the job list in impl/ish.c: ExecCommand allocates a job, its name, one process for each
-- fork and the lines of the environment; func_JobNotification and the end of main free jobs by AllocJobMem.
pub mod Freed
pub mod Rounds
pub mod Settled
pub mod Reports
pub mod Session
use operating_system_profoli.Base.{
  ℕ, zero, suc, Bool, true, false, Option, none, some, List, [], ◌∷◌, ◌++◌, ◌&&◌, ◌||◌, not, ◌==◌,
  length, ltb, if◌then◌else◌,
}
use operating_system_profoli.Memory.{Memory, pure, ◌>>=◌, ◌>>◌, lift, use_block, free, malloc}
use operating_system_profoli.Shell.{Job, Process, RunStatus, running, stopped, completed}
use operating_system_profoli.Jobs.Update.{update_processes, updated_job_status}

-- `struct Job` with its block, that of `job_name`, and those of its processes.
pub record HeapJob : Type 0 where
  pub job : Job
  pub block : ℕ
  pub name : ℕ
  pub processes : List ℕ

abbrev pub job_blocks : HeapJob → List ℕ
job_blocks hj = hj.block ∷ hj.name ∷ hj.processes

abbrev pub jobs_blocks : List HeapJob → List ℕ
jobs_blocks [] = []
jobs_blocks (hj ∷ hjs) = job_blocks hj ++ jobs_blocks hjs

-- The loop of AllocJobMem, which reads `next` of a process before it frees it.
unfoldable pub free_each : List ℕ → Memory (Unit {0})
free_each [] = pure tt
free_each (p ∷ ps) = do use_block p; free p; free_each ps

unfoldable pub alloc_job_mem : HeapJob → Memory (Unit {0})
unfolding free_each
alloc_job_mem hj = do
  use_block hj.block
  free_each hj.processes
  use_block hj.block
  free hj.name
  free hj.block

-- The reads of a loop over processes that ends at one with this property.
unfoldable pub read_processes : (Process → Bool) → List ℕ → List Process → Memory (Unit {0})
read_processes found [] ps = pure tt
read_processes found (b ∷ bs) [] = pure tt
read_processes found (b ∷ bs) (p ∷ ps) =
    let rest = read_processes found bs ps in use_block b >> (if found p then pure tt else rest)

-- UpdatedJobStatus ends its loop at a process that is neither completed nor stopped.
abbrev pub is_active : Process → Bool
is_active p = not p.is_completed && not p.is_stopped

-- UpdatedProcessStatus ends both loops at the process with the id.
unfoldable pub update_blocks : (id status : ℕ) → List HeapJob → Memory (List HeapJob)
unfolding read_processes
update_blocks id status [] = pure []
update_blocks id status (hj ∷ hjs) = do
  use_block hj.block
  read_processes (λ p. p.process_id == id) hj.processes hj.job.process
  elim (update_processes id status hj.job.process) [
    | some ps ↦ pure (record hj { job = record hj.job { process = ps } } ∷ hjs)
    | none ↦ (do hjs' ← update_blocks id status hjs; pure (hj ∷ hjs'))
  ]

-- `last->next = next`, or `job_head = next` where `last` is NULL.
unfoldable pub unlink : Option ℕ → Memory (Unit {0})
unlink none = pure tt
unlink (some last) = use_block last

-- The name is read where the job is told about.
unfoldable pub read_name : HeapJob → Memory (Unit {0})
read_name hj = if hj.job.foreground || hj.job.notified then pure tt else use_block hj.name

-- One round of the loop of func_JobNotification over the jobs.
unfoldable pub settle_block : (last : Option ℕ) → HeapJob → RunStatus → Memory (Option HeapJob)
unfolding read_name unlink alloc_job_mem
settle_block last hj completed = do read_name hj; unlink last; alloc_job_mem hj; pure none
settle_block last hj stopped = pure (some (record hj { job = record hj.job { notified = true } }))
settle_block last hj running = pure (some hj)

-- `last` and the list behind a round.
abbrev pub new_last : Option ℕ → Option HeapJob → Option ℕ
new_last last none = last
new_last last (some hj) = some hj.block

abbrev pub kept : Option HeapJob → List HeapJob → List HeapJob
kept none hjs = hjs
kept (some hj) hjs = hj ∷ hjs

unfoldable pub settle_blocks : (last : Option ℕ) → List HeapJob → Memory (List HeapJob)
unfolding settle_block read_processes
settle_blocks last [] = pure []
settle_blocks last (hj ∷ hjs) = do
  use_block hj.block
  read_processes is_active hj.processes hj.job.process
  (run_status, job) ← lift (updated_job_status hj.job)
  left ← settle_block last (record hj { job = job }) run_status
  rest ← settle_blocks (new_last last left) hjs
  pure (kept left rest)

-- The loop at the end of main.
unfoldable pub free_jobs : List HeapJob → Memory (Unit {0})
unfolding alloc_job_mem
free_jobs [] = pure tt
free_jobs (hj ∷ hjs) = do use_block hj.block; alloc_job_mem hj; free_jobs hjs

-- What happens to the job list: a job is started, with what ExecCommand writes into it, in a shell with
-- this many variables; a process is reported; func_JobNotification goes over the jobs.
pub data Event : Type 0 where
  started : (num_env : ℕ) → Job → Event
  reported : (id status : ℕ) → Event
  notified : Event

module _ (alloc : List ℕ → ℕ) where
  -- A number of blocks: the lines of EnvGetVars, and the processes of a job.
  unfoldable pub malloc_each : ℕ → Memory (List ℕ)
  malloc_each zero = pure []
  malloc_each (suc n) = do b ← malloc alloc; bs ← malloc_each n; pure (b ∷ bs)

  -- The blocks of ExecCommand for a job with this many forks, in a shell with this many variables.
  unfoldable pub launch_blocks : (num_env forks : ℕ) → Job → List HeapJob → Memory (List HeapJob)
  unfolding malloc_each free_each
  launch_blocks num_env forks job hjs = do
    envs ← malloc_each num_env
    block ← malloc alloc
    name ← malloc alloc
    processes ← malloc_each forks
    free_each envs
    pure (record { job = job; block = block; name = name; processes = processes } ∷ hjs)

  unfoldable pub run_event : Event → List HeapJob → Memory (List HeapJob)
  run_event (started num_env job) hjs = launch_blocks num_env (length job.process) job hjs
  run_event (reported id status) hjs = if ltb 0 id then update_blocks id status hjs else pure hjs
  run_event notified hjs = settle_blocks none hjs

  unfoldable pub run_events : List Event → List HeapJob → Memory (List HeapJob)
  run_events [] hjs = pure hjs
  run_events (e ∷ es) hjs = do hjs' ← run_event e hjs; run_events es hjs'

  -- From the first job to the end of main.
  unfoldable pub run_session : List Event → Memory (Unit {0})
  run_session es = do hjs ← run_events es []; free_jobs hjs
