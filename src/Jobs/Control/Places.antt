-- ===== src/Jobs/Control/Places.antt =====
-- The places and numbers of the jobs under UpdatedJobStatus and UpdatedProcessStatus.
use mathlib.Core.Path.{subst}
use mathlib.Core.Option
use operating_system_profoli.Base.{
  ℕ, zero, suc, ◌≡◌, refl, sym, ◌∙◌, ap, some, List, [], ◌∷◌, map, All, get_elem?, set,
}
use operating_system_profoli.Shell.{Shell, Job}
use operating_system_profoli.Jobs.Notify.Survivors.{HasProcess}

-- A place of the list of jobs, seen from the list of their numbers.
pub at-map :
    (l : List Job) (j : ℕ) {n : ℕ}
    → get_elem? (map Job.job_num l) j ≡ some n
    → (job : Job) × (get_elem? l j ≡ some job)
at-map [] j {n} h = absurd (Option.none-ne-some n h)
at-map (x ∷ l) zero h = (x, refl)
at-map (x ∷ l) (suc j) h = at-map l j h

pub All-at :
    (l : List Job) (j : ℕ) {job : Job}
    → All HasProcess l
    → get_elem? l j ≡ some job
    → HasProcess job
All-at [] j {job} all h = absurd (Option.none-ne-some job h)
All-at (x ∷ l) zero {job} all h = subst HasProcess (Option.some-injective x job h) all.0
All-at (x ∷ l) (suc j) all h = All-at l j all.1 h

All-set :
    (l : List Job) (j : ℕ) (job : Job)
    → All HasProcess l
    → HasProcess job
    → All HasProcess (set l j job)
All-set [] j job all h = tt
All-set (x ∷ l) zero job all h = (h, all.1)
All-set (x ∷ l) (suc j) job all h = (all.0, All-set l j job all.1 h)

map-set :
    (l : List Job) (j : ℕ) (job : Job) {old : Job}
    → get_elem? l j ≡ some old
    → job.job_num ≡ old.job_num
    → map Job.job_num (set l j job) ≡ map Job.job_num l
map-set [] j job h e = refl
map-set (x ∷ l) zero job {old} h e =
    ap (λ n. n ∷ map Job.job_num l) (e ∙ sym (ap Job.job_num (Option.some-injective x old h)))
map-set (x ∷ l) (suc j) job h e = ap (λ ns. x.job_num ∷ ns) (map-set l j job h e)

-- The jobs keep their numbers and their places, and each has a process; the terminal's owner and
-- the counter stay.
pub record Waited (s s' : Shell) : Type 0 where
  pub owner : s'.pid_terminal ≡ s.pid_terminal
  pub count : s'.num_jobs ≡ s.num_jobs
  pub numbers : map Job.job_num s'.job_head ≡ map Job.job_num s.job_head
  pub busy : All HasProcess s'.job_head

-- One job is written.
pub put-Waited :
    (s : Shell) (j : ℕ) (job : Job) {old : Job}
    → All HasProcess s.job_head
    → get_elem? s.job_head j ≡ some old
    → job.job_num ≡ old.job_num
    → HasProcess job
    → Waited s (record s { job_head = set s.job_head j job })
put-Waited s j job all h e busy = record {
  owner = refl;
  count = refl;
  numbers = map-set s.job_head j job h e;
  busy = All-set s.job_head j job all busy;
}

pub Waited-trans : {a b c : Shell} → Waited a b → Waited b c → Waited a c
Waited-trans p q = record {
  owner = q.owner ∙ p.owner;
  count = q.count ∙ p.count;
  numbers = q.numbers ∙ p.numbers;
  busy = q.busy;
}

-- The place is still there.
pub still :
    {s s' : Shell} (j : ℕ) {n : ℕ}
    → Waited s s'
    → get_elem? (map Job.job_num s.job_head) j ≡ some n
    → get_elem? (map Job.job_num s'.job_head) j ≡ some n
still j w h = ap (λ l. get_elem? l j) w.numbers ∙ h
