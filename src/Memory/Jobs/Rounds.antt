-- ===== src/Memory/Jobs/Rounds.antt =====
-- The blocks of one job in a round of func_JobNotification.
use mathlib.Core.Option
use operating_system_profoli.Base.{
  ℕ, ◌≤◌, ◌≡◌, refl, ap, inl, inr, Bool, true, false, ◌||◌, Option, none, some, List, [], ◌∷◌, ◌++◌,
  arith, ◌==◌, Bool-cases,
}
use operating_system_profoli.Memory.{occurrences, use_block}
use operating_system_profoli.Memory.Owned.{Same, Makes, occurrences-append, one_of_self}
use operating_system_profoli.Memory.Jobs.{
  HeapJob, job_blocks, read_processes, unlink, read_name, settle_block,
}
use operating_system_profoli.Memory.Jobs.Freed.{alloc_job_mem-Frees}
use operating_system_profoli.Shell as Run
use operating_system_profoli.Shell.{
  Shell, Job, Process, RunStatus, running, stopped, completed, Outcome, done, Cmd, some_or_fault,
}
use operating_system_profoli.Jobs.Notify as Text
use operating_system_profoli.Jobs.Notify.{settle_jobs}

-- A run that returns, in its two parts.
pub and_then-done :
    {A B : Type 0} (m : Outcome A) (k : A → Cmd B) (b : B) (s : Shell)
    → Run.and_then m k ≡ done b s
    → (a : A) × (s' : Shell) × (m ≡ done a s') × (k a s' ≡ done b s)
and_then-done (done a s') k b s h = (a, s', refl, h)
and_then-done (Outcome.exits n s') k b s h = cc
and_then-done (Outcome.blocked s') k b s h = cc
and_then-done Outcome.fault k b s h = cc

done_value : {A : Type 0} → A → Outcome A → A
done_value a (done x s) = x
done_value a (Outcome.exits n s) = a
done_value a (Outcome.blocked s) = a
done_value a Outcome.fault = a

pub done-injective : {A : Type 0} {a b : A} {s s' : Shell} → done a s ≡ done b s' → a ≡ b
unfolding done_value
done-injective {a = a} h = ap (done_value a) h

pub some_or_fault-done :
    {A : Type 0} (o : Option A) (a : A) (s s' : Shell) → some_or_fault o s ≡ done a s' → o ≡ some a
some_or_fault-done none a s s' h = cc
some_or_fault-done (some x) a s s' h = cc

abbrev pub option_blocks : Option HeapJob → List ℕ
option_blocks none = []
option_blocks (some hj) = job_blocks hj

-- A block that is live beside the jobs.
abbrev pub IsLive : Option ℕ → List ℕ → Type 0
IsLive none rest = Unit {0}
IsLive (some b) rest = 1 ≤ occurrences b rest

live_use : (b : ℕ) (live : List ℕ) → 1 ≤ occurrences b live → use_block b live ≡ some (tt, live)
unfolding use_block
live_use b live h = let e : (occurrences b live == 0) ≡ false = ground arith in rw e refl

pub read_processes-live :
    (found : Process → Bool) (bs : List ℕ) (ps : List Process) (live : List ℕ)
    → ((b : ℕ) → occurrences b bs ≤ occurrences b live)
    → read_processes found bs ps live ≡ some (tt, live)
unfolding read_processes occurrences
read_processes-live found [] ps live h = refl
read_processes-live found (b ∷ bs) [] live h = refl
read_processes-live found (b ∷ bs) (p ∷ ps) live h =
    let here = live_use b live (omega (arith, h b, one_of_self b)) in
    let later = read_processes-live found bs ps live (λ c. omega (arith, h c)) in
    elim (Bool-cases (found p)) [ inl e ↦ rw (here, e) refl | inr e ↦ rw (here, e) later ]

read_name-live :
    (hj : HeapJob) (live : List ℕ)
    → 1 ≤ occurrences hj.name live
    → read_name hj live ≡ some (tt, live)
unfolding read_name
read_name-live hj live h = elim (Bool-cases (hj.job.foreground || hj.job.notified)) [
  | inl e ↦ rw e refl
  | inr e ↦ rw e (live_use hj.name live h)
]

unlink-live :
    (last : Option ℕ) (live : List ℕ) → IsLive last live → unlink last live ≡ some (tt, live)
unfolding unlink
unlink-live none live h = refl
unlink-live (some b) live h = live_use b live h

IsLive-append :
    (last : Option ℕ) (xs rest live : List ℕ)
    → IsLive last rest
    → Same live (xs ++ rest)
    → IsLive last live
IsLive-append none xs rest live h same = tt
IsLive-append (some b) xs rest live h same = omega (arith, h, same b, occurrences-append b xs rest)

pub IsLive-more : (last : Option ℕ) (xs rest : List ℕ) → IsLive last rest → IsLive last (xs ++ rest)
IsLive-more none xs rest h = tt
IsLive-more (some b) xs rest h = omega (arith, h, occurrences-append b xs rest)

unfoldable pub settled_job : Job → RunStatus → Option Job
settled_job job completed = none
settled_job job stopped = some (record job { notified = true })
settled_job job running = some job

-- What a round of the loop over jobs leaves, whatever it tells.
pub settle_job-done :
    (job : Job) (v : RunStatus) (left : Option Job) (s s' : Shell)
    → Text.settle_job job v s ≡ done left s'
    → settled_job job v ≡ left
unfolding settled_job Text.settle_job
settle_job-done job completed left s s' h =
    let (_, s1, _, after) =
      and_then-done (Text.tell job (Run.say (Run.job_done job.job_num job.job_name)) s)
        (λ _. Run.pure none) left s' h in
    done-injective after
settle_job-done job stopped left s s' h =
    let (_, s1, _, after) =
      and_then-done (Text.tell job (Run.say (Run.job_stopped_note job.job_num)) s)
        (λ _. Run.pure (some (record job { notified = true }))) left s' h in
    done-injective after
settle_job-done job running left s s' h = done-injective h

pub settle_block-Makes :
    (hj : HeapJob) (v : RunStatus) (last : Option ℕ) (live rest : List ℕ)
    → IsLive last rest
    → Same live (job_blocks hj ++ rest)
    → Makes
        (λ o. Option.map HeapJob.job o ≡ settled_job hj.job v)
        option_blocks
        rest
        (settle_block last hj v live)
unfolding settle_block settled_job occurrences
settle_block-Makes hj completed last live rest in_rest h =
    let (live', run, left) = alloc_job_mem-Frees hj live rest h in
    (
      none,
      live',
      rw
          (
            read_name-live hj live (omega (arith, h hj.name, one_of_self hj.name)),
            unlink-live last live (IsLive-append last (job_blocks hj) rest live in_rest h),
            run,
          )
          refl,
      refl,
      left,
    )
settle_block-Makes hj stopped last live rest in_rest h =
    (some (record hj { job = record hj.job { notified = true } }), live, refl, refl, h)
settle_block-Makes hj running last live rest in_rest h = (some hj, live, refl, refl, h)
