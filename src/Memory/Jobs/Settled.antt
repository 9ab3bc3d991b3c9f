-- ===== src/Memory/Jobs/Settled.antt =====
-- The blocks of the jobs that func_JobNotification leaves.
use mathlib.Core.List.{append_assoc}
use mathlib.Core.Option
use operating_system_profoli.Base.{
  ℕ, ◌≡◌, refl, ◌∙◌, ap, Option, none, some, List, [], ◌∷◌, ◌++◌, map, arith,
}
use operating_system_profoli.Memory.{occurrences}
use operating_system_profoli.Memory.Owned.{Same, Makes, occurrences-append, one_of_self}
use operating_system_profoli.Memory.Build.Arguments.{owned-live}
use operating_system_profoli.Memory.Jobs.{
  HeapJob, job_blocks, jobs_blocks, is_active, settle_blocks, new_last, kept,
}
use operating_system_profoli.Shell.{Shell, Job, RunStatus, done, some_or_fault}
use operating_system_profoli.Jobs.Update.{updated_job_status}
use operating_system_profoli.Jobs.Notify as Text
use operating_system_profoli.Jobs.Notify.{settle_jobs}
use operating_system_profoli.Memory.Jobs.Rounds.{
  and_then-done, done-injective, some_or_fault-done, option_blocks, IsLive, IsLive-more,
  read_processes-live, settled_job, settle_job-done, settle_block-Makes,
}

new_last-IsLive :
    (last : Option ℕ) (o : Option HeapJob) (rest : List ℕ)
    → IsLive last rest
    → IsLive (new_last last o) (option_blocks o ++ rest)
unfolding occurrences
new_last-IsLive last none rest h = h
new_last-IsLive last (some hj) rest h = omega (arith, one_of_self hj.block)

kept-blocks :
    (o : Option HeapJob) (hjs : List HeapJob) (rest live : List ℕ)
    → Same live (jobs_blocks hjs ++ (option_blocks o ++ rest))
    → Same live (jobs_blocks (kept o hjs) ++ rest)
kept-blocks none hjs rest live h c = h c
kept-blocks (some hj) hjs rest live h c = omega (
  arith,
  h c,
  occurrences-append c (jobs_blocks hjs) (job_blocks hj ++ rest),
  occurrences-append c (job_blocks hj) rest,
  occurrences-append c (job_blocks hj ++ jobs_blocks hjs) rest,
  occurrences-append c (job_blocks hj) (jobs_blocks hjs),
)

kept-jobs :
    (o : Option HeapJob) (hjs : List HeapJob) (left : Option Job) (others all : List Job)
    → Option.map HeapJob.job o ≡ left
    → map HeapJob.job hjs ≡ others
    → elim left [ none ↦ others | some j ↦ j ∷ others ] ≡ all
    → map HeapJob.job (kept o hjs) ≡ all
kept-jobs none hjs none others all e f g = f ∙ g
kept-jobs none hjs (some j) others all e f g = cc
kept-jobs (some hj) hjs none others all e f g = cc
kept-jobs (some hj) hjs (some j) others all e f g =
    ap (λ x. x ∷ map HeapJob.job hjs) (Option.some-injective _ _ e) ∙ ap (λ x. j ∷ x) f ∙ g

-- What a round and the later rounds leave.
record Round (j : Job) (js jobs : List Job) : Type 0 where
  v : RunStatus
  job : Job
  others : List Job
  s2 : Shell
  s3 : Shell
  updated : updated_job_status j ≡ some (v, job)
  later : settle_jobs js s2 ≡ done others s3
  all : elim (settled_job job v) [ none ↦ others | some k ↦ k ∷ others ] ≡ jobs

settle_jobs-Round :
    (j : Job) (js jobs : List Job) (s s' : Shell)
    → settle_jobs (j ∷ js) s ≡ done jobs s'
    → Round j js jobs
unfolding settle_jobs
settle_jobs-Round j js jobs s s' run =
    let ((v, job), s1, updated, run1) =
      and_then-done (some_or_fault (updated_job_status j) s) _ jobs s' run in
    let (left, s2, settled, run2) = and_then-done (Text.settle_job job v s1) _ jobs s' run1 in
    let (others, s3, later, run3) = and_then-done (settle_jobs js s2) _ jobs s' run2 in
    record {
      v = v;
      job = job;
      others = others;
      s2 = s2;
      s3 = s3;
      updated = some_or_fault-done (updated_job_status j) (v, job) s s1 updated;
      later = later;
      all = rw (settle_job-done job v left s1 s2 settled) (done-injective run3);
    }

settle_jobs-nil : (jobs : List Job) (s s' : Shell) → settle_jobs [] s ≡ done jobs s' → [] ≡ jobs
unfolding settle_jobs
settle_jobs-nil jobs s s' run = done-injective run

settle_round :
    (hj : HeapJob) (hjs : List HeapJob) (v : RunStatus) (job : Job) (others jobs : List Job)
    (last : Option ℕ) (live rest : List ℕ)
    → updated_job_status hj.job ≡ some (v, job)
    → elim (settled_job job v) [ none ↦ others | some k ↦ k ∷ others ] ≡ jobs
    → ((last' : Option ℕ) (live' rest' : List ℕ)
        → IsLive last' rest'
        → Same live' (jobs_blocks hjs ++ rest')
        → Makes
            (λ left. map HeapJob.job left ≡ others)
            jobs_blocks
            rest'
            (settle_blocks last' hjs live'))
    → IsLive last rest
    → Same live (job_blocks hj ++ (jobs_blocks hjs ++ rest))
    → Makes
        (λ left. map HeapJob.job left ≡ jobs)
        jobs_blocks
        rest
        (settle_blocks last (hj ∷ hjs) live)
unfolding settle_blocks occurrences
settle_round hj hjs v job others jobs last live rest updated all later in_rest h =
    let (o, live1, round, e, left1) =
      settle_block-Makes (record hj { job = job }) v last live (jobs_blocks hjs ++ rest)
        (IsLive-more last (jobs_blocks hjs) rest in_rest) h in
    let (hjs', live2, run, f, left2) =
      later (new_last last o) live1 (option_blocks o ++ rest) (new_last-IsLive last o rest in_rest)
        (λ c. omega (
          arith,
          left1 c,
          occurrences-append c (option_blocks o) (jobs_blocks hjs ++ rest),
          occurrences-append c (jobs_blocks hjs) rest,
          occurrences-append c (jobs_blocks hjs) (option_blocks o ++ rest),
          occurrences-append c (option_blocks o) rest,
        )) in
    (
      kept o hjs',
      live2,
      rw
          (
            owned-live hj.block live (hj.name ∷ (hj.processes ++ (jobs_blocks hjs ++ rest))) h,
            read_processes-live is_active hj.processes hj.job.process live (λ c.
                omega (arith, h c, occurrences-append c hj.processes (jobs_blocks hjs ++ rest))),
            updated,
            round,
            run,
          )
          refl,
      kept-jobs o hjs' (settled_job job v) others jobs e f all,
      kept-blocks o hjs' rest live2 left2,
    )

-- Where the loop of func_JobNotification returns, it also returns with the blocks of the jobs, beside any other
-- live blocks: a job that is completed is unlinked and freed, and no block is used that is not live. What is left
-- is the list that the loop leaves, and the live blocks are those of its jobs and the others.
pub settle_blocks-Makes :
    (hjs : List HeapJob) (s s' : Shell) (jobs : List Job) (last : Option ℕ) (live rest : List ℕ)
    → settle_jobs (map HeapJob.job hjs) s ≡ done jobs s'
    → IsLive last rest
    → Same live (jobs_blocks hjs ++ rest)
    → Makes (λ left. map HeapJob.job left ≡ jobs) jobs_blocks rest (settle_blocks last hjs live)
settle_blocks-Makes [] s s' jobs last live rest run in_rest h =
    ([], live, unfold settle_blocks in refl, settle_jobs-nil jobs s s' run, h)
settle_blocks-Makes (hj ∷ hjs) s s' jobs last live rest run in_rest h =
    let r = settle_jobs-Round hj.job (map HeapJob.job hjs) jobs s s' run in
    settle_round hj hjs r.v r.job r.others jobs last live rest r.updated r.all
      (λ last' live' rest'. settle_blocks-Makes hjs r.s2 r.s3 r.others last' live' rest' r.later)
      in_rest (λ c. h c ∙ ap (occurrences c) (append_assoc (job_blocks hj) (jobs_blocks hjs) rest))
