-- ===== src/Jobs/Control/Waits.antt =====
-- The loop of MakeJobForeGround around `waitpid`.
use mathlib.Core.Option
use operating_system_profoli.Base.{
  ℕ, zero, suc, ◌≡◌, ◌⊎◌, refl, ap, inl, inr, false, ◌&&◌, length, Option, none, some, List, [],
  ◌∷◌, map, All, ltb, get_elem?, set, get_elem?-set_self, Bool-cases,
}
use operating_system_profoli.Shell.{
  Shell, Call, success, fail, Job, Os, Report, RunStatus, Cmd, Outcome, done, exits, fault, blocked,
  and_then, waitpid,
}
use operating_system_profoli.Jobs.Update.{is_running, updated_job_status_at, updated_process_status}
use operating_system_profoli.Jobs.Update.Verdict.{updated_job_status_lem}
use operating_system_profoli.Jobs.Update.Processes.{
  has_job, report_to_job, updated_process_status_lem, map-report_to_job, report_to_job-busy,
}
use operating_system_profoli.Jobs.Notify.Survivors.{HasProcess, verdict-some}
use operating_system_profoli.Jobs.Control.{wait_loop}
use operating_system_profoli.Jobs.Control.Places.{
  Waited, at-map, All-at, put-Waited, Waited-trans, still,
}

-- A run returns with this, or blocks in a `waitpid` in a state like that; it does nothing else.
abbrev pub Ends : {A : Type 0} → (A → Shell → Type 0) → (Shell → Type 0) → Outcome A → Type 0
Ends P B (done a s) = P a s
Ends P B (blocked s) = B s
Ends P B (exits n s) = ⊥
Ends P B fault = ⊥

pub Ends-and_then :
    {A C : Type 0} (P : A → Shell → Type 0) (Q : C → Shell → Type 0) (B D : Shell → Type 0)
    (m : Outcome A) (k : A → Cmd C)
    → Ends P B m
    → ((a : A) (s : Shell) → P a s → Ends Q D (k a s))
    → ((s : Shell) → B s → D s)
    → Ends Q D (and_then m k)
Ends-and_then P Q B D (done a s) k p next stuck = next a s p
Ends-and_then P Q B D (blocked s) k p next stuck = stuck s p
Ends-and_then P Q B D (exits n s) k p next stuck = absurd p
Ends-and_then P Q B D fault k p next stuck = absurd p

pub Ends-mono :
    {A : Type 0} (P Q : A → Shell → Type 0) (B D : Shell → Type 0) (m : Outcome A)
    → Ends P B m
    → ((a : A) (s : Shell) → P a s → Q a s)
    → ((s : Shell) → B s → D s)
    → Ends Q D m
Ends-mono P Q B D (done a s) p weaken stuck = weaken a s p
Ends-mono P Q B D (blocked s) p weaken stuck = stuck s p
Ends-mono P Q B D (exits n s) p weaken stuck = absurd p
Ends-mono P Q B D fault p weaken stuck = absurd p

-- A number of calls of `waitpid`, and the reports behind as many.
abbrev pub waits : ℕ → List Call → List Call
waits zero calls = calls
waits (suc n) calls = waits n (waitpid false ∷ calls)

abbrev pub behind : ℕ → List Report → List Report
behind zero rs = rs
behind (suc n) [] = []
behind (suc n) (r ∷ rs) = behind n rs

-- The answer of the last `waitpid` names no process of a job.
abbrev pub IsRefused : Option Report → Shell → Type 0
IsRefused none t = Unit {0}
IsRefused (some r) t = (ltb 0 r.process_id && has_job r.process_id t.job_head) ≡ false

-- The wait for the job at this place: at least one `waitpid`, up to the one at which the job does not
-- run, or whose answer is refused.
abbrev pub Over : ℕ → List Report → Shell → Shell → Type 0
Over j rs s t =
    Waited s t
    × ((k : ℕ) × (job : Job) × (t.calls ≡ waits (suc k) s.calls)
        × (t.reports ≡ behind (suc k) rs)
        × (get_elem? t.job_head j ≡ some job)
        × ((is_running job.run_status ≡ false) ⊎ IsRefused (get_elem? rs k) t))

-- Every report was taken, and there is a child to wait for.
abbrev pub IsStuck : Os → List Report → List Call → Shell → Type 0
IsStuck os rs start t =
    (waited : List Call) × (t.calls ≡ waitpid false ∷ waited)
    × (waited ≡ waits (length rs) start)
    × (os.childless waited ≡ false)

updated_at :
    (s : Shell) (j : ℕ) (job : Job)
    → All HasProcess s.job_head
    → get_elem? s.job_head j ≡ some job
    → (v : RunStatus) × (job' : Job) × (updated_job_status_at j s
        ≡ done v (record s { job_head = set s.job_head j job' }))
      × Waited s (record s { job_head = set s.job_head j job' })
      × (get_elem? (set s.job_head j job') j ≡ some job')
      × (job'.run_status ≡ v)
unfolding updated_job_status_at
updated_at s j job all h =
    let (v, e) = verdict-some job.process (All-at s.job_head j all h) in
    let (job', run, new, same, number) = (updated_job_status_lem job).1 v e in
    (
      v,
      job',
      rw (h, run) refl,
      put-Waited s j job' all h number (rw same (All-at s.job_head j all h)),
      get_elem?-set_self s.job_head j job' h,
      new,
    )

pub map-at :
    (l : List Job) (j : ℕ) {job : Job}
    → get_elem? l j ≡ some job
    → get_elem? (map Job.job_num l) j ≡ some job.job_num
map-at [] j {job} h = absurd (Option.none-ne-some job h)
map-at (x ∷ l) zero {job} h = ap (λ o. Option.map Job.job_num o) h
map-at (x ∷ l) (suc j) h = map-at l j h

-- A report that is taken leaves the jobs at their places.
taken-Waited :
    (id status : ℕ) (s : Shell)
    → All HasProcess s.job_head
    → Waited s (record s { job_head = report_to_job id status s.job_head })
taken-Waited id status s all = record {
  owner = refl;
  count = refl;
  numbers = map-report_to_job id status s.job_head;
  busy = report_to_job-busy id status s.job_head all;
}

-- Either the report is taken, or nothing changes.
taken_or_refused :
    (r : Report) (s : Shell)
    → (updated_process_status r.process_id r.status s
        ≡ done success (record s { job_head = report_to_job r.process_id r.status s.job_head }))
      ⊎ (((ltb 0 r.process_id && has_job r.process_id s.job_head) ≡ false)
          × (updated_process_status r.process_id r.status s ≡ done fail s))
taken_or_refused r s = elim (Bool-cases (ltb 0 r.process_id)) [
  | inr e ↦ inr (rw e refl, rw (updated_process_status_lem r.process_id r.status s, e) refl)
  | inl e ↦ elim (Bool-cases (has_job r.process_id s.job_head)) [
    | inl f ↦ inl (rw (updated_process_status_lem r.process_id r.status s, e, f) refl)
    | inr f ↦
        inr (rw (e, f) refl, rw (updated_process_status_lem r.process_id r.status s, e, f) refl)
  ]
]

module _ (os : Os) (j : ℕ) where
  pub wait_loop-Ends :
      (rs : List Report) (s : Shell) (job : Job)
      → s.reports ≡ rs
      → All HasProcess s.job_head
      → get_elem? s.job_head j ≡ some job
      → Ends (λ _ t. Over j rs s t) (IsStuck os rs s.calls) (wait_loop os j rs s)
  unfolding wait_loop
  wait_loop-Ends [] s job none_left all h = elim (Bool-cases (os.childless s.calls)) [
    | inr e ↦ rw e (s.calls, refl, refl, e)
    | inl e ↦
        let (v, job', run, w, at, new) =
          updated_at (record s { calls = waitpid false ∷ s.calls }) j job all h in
        rw (e, run)
          (
            record { owner = w.owner; count = w.count; numbers = w.numbers; busy = w.busy },
            (0, job', refl, none_left, at, inr tt),
          )
  ]
  wait_loop-Ends (r ∷ rs) s job some_left all h =
      let here : Shell = record s { calls = waitpid false ∷ s.calls; reports = rs } in
      let (v, job', run, w, at, new) = updated_at here j job all h in
      let there : Shell = record here { job_head = set s.job_head j job' } in
      let kept : Waited s there = record {
        owner = w.owner;
        count = w.count;
        numbers = w.numbers;
        busy = w.busy;
      } in
      elim (Bool-cases (is_running v)) [
        | inr e ↦ rw (run, e) (kept, (0, job', refl, refl, at, inl (rw (new, e) refl)))
        | inl e ↦ elim (taken_or_refused r there) [
          | inr (refused, same) ↦ rw (run, e, same) (kept, (0, job', refl, refl, at, inr refused))
          | inl taken ↦
              let later : Shell = record there {
                job_head = report_to_job r.process_id r.status there.job_head;
              } in
              let w' = taken-Waited r.process_id r.status there kept.busy in
              let (job'', at') =
                at-map later.job_head j (still j w' (map-at there.job_head j at)) in
              rw (run, e, taken)
                (Ends-mono (λ _ t. Over j rs later t) (λ _ t. Over j (r ∷ rs) s t)
                  (IsStuck os rs later.calls) (IsStuck os (r ∷ rs) s.calls)
                  (wait_loop os j rs later) (wait_loop-Ends rs later job'' refl w'.busy at')
                  (λ _ t (w'', (k, last, calls, reports, at'', why)). (
                    Waited-trans (Waited-trans kept w') w'',
                    (suc k, last, calls, reports, at'', why),
                  ))
                  (λ t stuck. stuck))
        ]
      ]
