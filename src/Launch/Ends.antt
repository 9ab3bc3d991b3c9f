-- ===== src/Launch/Ends.antt =====
-- The ends of the pipes that the shell holds open while it starts a job.
use operating_system_profoli.Base.{
  without, ℕ, ◌+◌, ◌≡◌, ◌≢◌, ◌<◌, refl, sym, ◌∙◌, ap, inl, inr, Bool, true, false, Option, none,
  some, List, [], ◌∷◌, All, ◌==◌, if◌then◌else◌, arith, length, get_elem?, Bool-cases, Option-cases,
  ==_iff,
}
use operating_system_profoli.Command.{Command, z_cmd, pr_redirects}
use operating_system_profoli.Shell.{
  Shell, Spawn, done, pure, Call, open_pipe, close, fork, Os, fits,
}
use operating_system_profoli.Shell.Returns.{
  Returns, IfReturns, IfReturns-and_then, Returns-IfReturns,
}
use operating_system_profoli.Launch.{
  pipeline, pipe_in, stderr_flag, Pipes, Launch, close_unless, add_process, fork_call, open_stage,
  after_fork, launch_stage, launch_loop, add_job, start_job,
}
use operating_system_profoli.Launch.Plumbed.{Plumbed, pipeline-Plumbed}
use operating_system_profoli.Launch.Stages.{CanFork, Front, launch_loop-Front, pipeline-Chain}

abbrev pub with_pipe : Option (ℕ × ℕ) → List ℕ → List ℕ
with_pipe none ds = ds
with_pipe (some (fd_read, fd_write)) ds = fd_read ∷ fd_write ∷ ds

-- The ends that the calls of `pipe` opened and no `close` has closed since, the newest first.
unfoldable pub open_ends : Os → List Call → List ℕ
open_ends os [] = []
open_ends os (open_pipe ∷ calls) = with_pipe (os.pipe_fds calls) (open_ends os calls)
open_ends os (close fd ∷ calls) = without fd (open_ends os calls)
open_ends os (c ∷ calls) = open_ends os calls

-- `pipe` gives two descriptors that are not open and are none of 0 and 1.
pub record FreshPipes (os : Os) : Type 0 where
  pub fresh :
      (calls : List Call) (r w : ℕ)
      → os.pipe_fds calls ≡ some (r, w)
      → (1 < r) × (1 < w) × (r ≢ w) × All (λ d. (d ≢ r) × (d ≢ w)) (open_ends os calls)

==_ne : (m n : ℕ) → m ≢ n → (m == n) ≡ false
==_ne m n h = elim (Bool-cases (m == n)) [ inr e ↦ e | inl e ↦ absurd (h ((==_iff m n).0 e)) ]

without_self : (n : ℕ) (ds : List ℕ) → without n (n ∷ ds) ≡ ds
without_self n ds = rw ((==_iff n n).1 refl)

-- The end that the next stage reads from, with the others.
abbrev carried : ℕ → List ℕ → List ℕ
carried fd ds = if fd == 0 then ds else fd ∷ ds

module _ (os : Os) (ends : List ℕ) where
  abbrev Open : List ℕ → Shell → Type 0
  Open ds s = open_ends os s.calls ≡ ds

  add_process-Open :
      (id : ℕ) (b : Bool) (ds : List ℕ) (s : Shell)
      → Open ds s
      → IfReturns (λ _ t. Open ds t) (add_process id b s)
  unfolding add_process open_ends
  add_process-Open id b ds s h = elim (Option-cases (get_elem? s.job_head 0)) [
    | inl e ↦ rw e tt
    | inr (job, e) ↦ elim (Bool-cases b) [ inl f ↦ rw (e, f) h | inr f ↦ rw (e, f) h ]
  ]

  -- The end that was read from is closed; a new pipe may be open.
  close_read :
      (fd : ℕ) (s : Shell)
      → Open (carried fd ends) s
      → IfReturns (λ _ t. Open ends t) (close_unless fd 0 s)
  unfolding open_ends
  close_read fd s h = elim (Bool-cases (fd == 0)) [
    | inl e ↦ rw e (rw e at h)
    | inr e ↦
        let held : open_ends os s.calls ≡ fd ∷ ends = rw e at h in
        rw e (ap (without fd) held ∙ without_self fd ends)
  ]

  close_read_behind :
      (fd r w : ℕ) (s : Shell)
      → All (λ d. (d ≢ r) × (d ≢ w)) (carried fd ends)
      → Open (r ∷ w ∷ carried fd ends) s
      → IfReturns (λ _ t. Open (r ∷ w ∷ ends) t) (close_unless fd 0 s)
  unfolding open_ends
  close_read_behind fd r w s others h = elim (Bool-cases (fd == 0)) [
    | inl e ↦ rw e (rw e at h)
    | inr e ↦
        let held : open_ends os s.calls ≡ r ∷ w ∷ fd ∷ ends = rw e at h in
        let apart : All (λ d. (d ≢ r) × (d ≢ w)) (fd ∷ ends) = rw e at others in
        rw e (
          ap (without fd) held
          ∙ rw (==_ne r fd (λ q. apart.0.0 (sym q)), ==_ne w fd (λ q. apart.0.1 (sym q)))
              (ap (λ ds. r ∷ w ∷ ds) (without_self fd ends)))
  ]

  -- The end that was written to is closed.
  close_write :
      (r w : ℕ) (s : Shell)
      → r ≢ w
      → 1 < w
      → Open (r ∷ w ∷ ends) s
      → IfReturns (λ _ t. Open (r ∷ ends) t) (close_unless w 1 s)
  unfolding open_ends
  close_write r w s ne big h =
      rw (==_ne w 1 (λ q. omega (arith, q, big)))
        (ap (without w) h ∙ rw (==_ne r w ne) (ap (λ ds. r ∷ ds) (without_self w ends)))

module _ (os : Os) (ends : List ℕ) (l : Launch) where
  -- From the `fork` of a stage on, where its two `close` take the ends from `ds` to `ds'` and `ds''`.
  after_fork-Open :
      (v : Pipes) (fd_out : ℕ) (fds : Option (ℕ × ℕ)) (ds ds' ds'' : List ℕ) (id : Option ℕ)
      (s : Shell)
      → ((t : Shell)
          → Open os ends ds t
          → IfReturns (λ _ t'. Open os ends ds' t') (close_unless v.fd_in 0 t))
      → ((t : Shell)
          → Open os ends ds' t
          → IfReturns (λ _ t'. Open os ends ds'' t') (close_unless fd_out 1 t))
      → Open os ends ds s
      → IfReturns (λ fds' t. (fds' ≡ fds) × Open os ends ds'' t) (after_fork os l v fd_out fds id s)
  unfolding after_fork
  after_fork-Open v fd_out fds ds ds' ds'' none s first second h = tt
  after_fork-Open v fd_out fds ds ds' ds'' (some id) s first second h =
      IfReturns-and_then (λ _ t. Open os ends ds t) _ (add_process id l.interactive s) _
        (add_process-Open os ends id l.interactive ds s h)
        λ _ t h'.
          IfReturns-and_then (λ _ t. Open os ends ds' t) _ (close_unless v.fd_in 0 t) _ (first t h')
            λ _ t' h''.
              IfReturns-and_then (λ _ t. Open os ends ds'' t) _ (close_unless fd_out 1 t') _
                (second t' h'') λ _ t'' h'''. (refl, h''')

  launch_stage-Open :
      (v : Pipes) (pc : Command) (fd_out : ℕ) (fds : Option (ℕ × ℕ)) (ds ds' ds'' : List ℕ)
      (s t : Shell)
      → open_stage os (pipe_in (pr_redirects pc)) v s ≡ done (fd_out, fds) t
      → ((t : Shell)
          → Open os ends ds t
          → IfReturns (λ _ t'. Open os ends ds' t') (close_unless v.fd_in 0 t))
      → ((t : Shell)
          → Open os ends ds' t
          → IfReturns (λ _ t'. Open os ends ds'' t') (close_unless fd_out 1 t))
      → Open os ends ds t
      → IfReturns (λ r t'. (r.1 ≡ fds) × Open os ends ds'' t') (launch_stage os l v pc s)
  unfolding launch_stage fork_call open_ends
  launch_stage-Open v pc fd_out fds ds ds' ds'' s t opened first second h =
      rw opened (elim (Option-cases (get_elem? t.job_head 0)) [
        | inl e ↦ rw e tt
        | inr (job, e) ↦
            let flag = stderr_flag v.is_stderr (pipe_in (pr_redirects pc)) in
            let spawn : Spawn = record {
              pc = pc;
              envs = l.envs;
              pgid = job.process_group_id;
              fd_out = fd_out;
              fd_in = v.fd_in;
              is_stderr = flag;
              interactive = l.interactive;
              background = l.background;
            } in
            let here : Shell = record t { calls = fork spawn ∷ t.calls } in
            rw e (
              IfReturns-and_then (λ fds' t'. (fds' ≡ fds) × Open os ends ds'' t')
                (λ r t'. (r.1 ≡ fds) × Open os ends ds'' t')
                (after_fork os l v fd_out fds (os.forked t.calls) here) (λ fds'. pure (flag, fds'))
                (after_fork-Open v fd_out fds ds ds' ds'' (os.forked t.calls) here first second h)
                λ fds' t' h'. h')
      ])

  module _ (can : CanFork os) (pipes : FreshPipes os) where
    launch_loop-Open :
        (pcs : List Command) (v : Pipes) (s : Shell)
        → Plumbed pcs
        → Open os ends (carried v.fd_in ends) s
        → IfReturns (λ _ t. Open os ends ends t) (launch_loop os l v pcs s)
    unfolding launch_loop open_stage open_ends
    launch_loop-Open [] v s plumbed h = absurd plumbed
    launch_loop-Open (pc ∷ []) v s plumbed h =
        IfReturns-and_then (λ r t. (r.1 ≡ v.fd_pipe) × Open os ends ends t) _
          (launch_stage os l v pc s) _
          (launch_stage-Open v pc 1 v.fd_pipe (carried v.fd_in ends) ends ends s s (rw plumbed refl)
            (close_read os ends v.fd_in) (λ t h'. h') h)
          λ r t h'. h'.1
    launch_loop-Open (pc ∷ next ∷ rest) v s ((p, e), plumbed) h =
        let ((r, w), got) = can.pipes s.calls in
        let (big, big', ne, others) = pipes.fresh s.calls r w got in
        let here : Shell = record s { calls = open_pipe ∷ s.calls } in
        let held : open_ends os here.calls ≡ r ∷ w ∷ carried v.fd_in ends =
          rw got (ap (λ ds. r ∷ w ∷ ds) h) in
        IfReturns-and_then (λ q t. (q.1 ≡ some (r, w)) × Open os ends (r ∷ ends) t) _
          (launch_stage os l v pc s) _
          (launch_stage-Open v pc w (some (r, w)) (r ∷ w ∷ carried v.fd_in ends) (r ∷ w ∷ ends)
            (r ∷ ends) s here (rw (e, got) refl)
            (λ t. close_read_behind os ends v.fd_in r w t (rw h at others))
            (λ t. close_write os ends r w t ne big') held)
          λ (flag, fds) t (same, h').
            let v' : Pipes = record { fd_in = r; fd_pipe = some (r, w); is_stderr = flag } in
            rw same (
              launch_loop-Open (next ∷ rest) v' t plumbed
                (h' ∙ sym (rw (==_ne r 0 (λ q. omega (arith, q, big))) refl)))

-- Where the system can fork and make pipes, `pipe` gives fresh descriptors, and the name of the
-- command fits its buffer, ExecCommand starts the processes of the job, and afterwards the shell holds
-- the ends of pipes open that it held before: every end that it opened for the job is closed.
pub start_job-closed :
    (os : Os) (l : Launch) (pc : Command) (s : Shell)
    → CanFork os
    → FreshPipes os
    → fits (z_cmd pc) ≡ true
    → Returns (λ _ t. open_ends os t.calls ≡ open_ends os s.calls) (start_job os l pc s)
unfolding start_job add_job
start_job-closed os l pc s can pipes small = rw small (
    Returns-IfReturns
      (λ _ t. Front (s.num_jobs + 1) (s.num_jobs + 1) s.job_head (length (pipeline pc) + 0) t)
      (λ _ t. open_ends os t.calls ≡ open_ends os s.calls) _
      (launch_loop-Front (s.num_jobs + 1) (s.num_jobs + 1) s.job_head os can l (pipeline pc) _ 0 _
        (pipeline-Chain pc) (_, refl, refl, refl, refl))
      (launch_loop-Open os (open_ends os s.calls) l can pipes (pipeline pc) _ _
        (pipeline-Plumbed pc) refl))
