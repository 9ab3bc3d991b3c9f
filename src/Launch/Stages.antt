-- ===== src/Launch/Stages.antt =====
-- The loop over a pipeline: one process of the new job for each stage.
use operating_system_profoli.Base.{
  ℕ, suc, ◌+◌, ◌≡◌, ◌≢◌, refl, sym, ◌∙◌, ap, inl, inr, Bool, Option, none, some, List, [], ◌∷◌,
  ◌==◌, length, Bool-cases, Option-cases, arith,
}
use operating_system_profoli.Command.{
  Command, command, Redirects, no_redirect, file_redirect, pipe_redirect, PipeType, pr_redirects,
}
use operating_system_profoli.Shell.{Shell, Spawn, fork, Call, Job, Os, pure}
use operating_system_profoli.Shell.Returns.{Returns, Returns-mono, Returns-and_then}
use operating_system_profoli.Launch.{
  stages_in, pipeline, pipe_in, Pipes, Launch, close_unless, stderr_flag, add_process, fork_call,
  open_stage, after_fork, launch_stage, launch_loop,
}

-- The system can always fork and make a pipe.
pub record CanFork (os : Os) : Type 0 where
  pub forks : (calls : List Call) → (id : ℕ) × (os.forked calls ≡ some id)
  pub pipes : (calls : List Call) → (fds : ℕ × ℕ) × (os.pipe_fds calls ≡ some fds)

-- Every command but the last has a pipe.
abbrev pub Chain : List Command → Type 0
Chain [] = Unit {0}
Chain (pc ∷ []) = Unit {0}
Chain (pc ∷ next ∷ rest) = (pipe_in (pr_redirects pc) ≢ none) × Chain (next ∷ rest)

-- A list of redirections before the stages behind it.
stages-Chain :
    (pc : Command) (r : Redirects)
    → pipe_in (pr_redirects pc) ≡ pipe_in r
    → Chain (pc ∷ stages_in r)
unfolding stages_in pipe_in
stages-Chain pc no_redirect e = tt
stages-Chain pc (file_redirect t f r) e = stages-Chain pc r e
stages-Chain pc (pipe_redirect t (command z b a r n) rest) e =
    (λ q. absurd (some-ne-none (sym e ∙ q)), stages-Chain (command z b a r n) r refl)
  where
    some-ne-none : {t : PipeType} → some t ≢ none
    some-ne-none q = cc

pub pipeline-Chain : (pc : Command) → Chain (pipeline pc)
pipeline-Chain pc = stages-Chain pc (pr_redirects pc) refl

module _ (num top : ℕ) (js : List Job) where
  -- The newest job has this number and so many processes, and is in front of the others.
  abbrev pub Front : ℕ → Shell → Type 0
  Front k s =
      (job : Job) × (s.job_head ≡ job ∷ js)
      × (job.job_num ≡ num)
      × (length job.process ≡ k)
      × (s.num_jobs ≡ top)

  add_process-Front :
      (id k : ℕ) (b : Bool) (s : Shell)
      → Front k s
      → Returns (λ _ t. Front (suc k) t) (add_process id b s)
  unfolding add_process
  add_process-Front id k b s (job, e, n, len, c) = elim (Bool-cases b) [
    | inl f ↦ rw (e, f) (_, refl, n, ap suc len, c)
    | inr f ↦ rw (e, f) (_, refl, n, ap suc len, c)
  ]

  close_unless-Front :
      (fd standard k : ℕ) (s : Shell)
      → Front k s
      → Returns (λ _ t. Front k t) (close_unless fd standard s)
  close_unless-Front fd standard k s h = elim (Bool-cases (fd == standard)) [
    | inl f ↦ rw f h
    | inr f ↦ rw f h
  ]

  after_fork-Front :
      (os : Os) (l : Launch) (v : Pipes) (fd_out id k : ℕ) (fds : Option (ℕ × ℕ)) (s : Shell)
      → Front k s
      → Returns
          (λ fds' t. Front (suc k) t × (fds' ≡ fds))
          (after_fork os l v fd_out fds (some id) s)
  unfolding after_fork
  after_fork-Front os l v fd_out id k fds s h =
      Returns-and_then (λ _ t. Front (suc k) t) _ (add_process id l.interactive s) _
        (add_process-Front id k l.interactive s h)
        λ _ t h'.
          Returns-and_then (λ _ t. Front (suc k) t) _ (close_unless v.fd_in 0 t) _
            (close_unless-Front v.fd_in 0 (suc k) t h')
            λ _ t' h''.
              Returns-and_then (λ _ t. Front (suc k) t) _ (close_unless fd_out 1 t') _
                (close_unless-Front fd_out 1 (suc k) t' h'') λ _ t'' h'''. (h''', refl)

  recount : (k m : ℕ) (s : Shell) → k ≡ m → Front k s → Front m s
  recount k m s e (job, head, n, len, c) = (job, head, n, len ∙ e, c)

  module _ (os : Os) (can : CanFork os) (l : Launch) where
    open_stage-Front :
        (p : Option PipeType) (v : Pipes) (k : ℕ) (s : Shell)
        → Front k s
        → Returns (λ r t. Front k t × (p ≢ none → r.1 ≢ none)) (open_stage os p v s)
    unfolding open_stage
    open_stage-Front none v k s h = (h, λ ne. absurd (ne refl))
    open_stage-Front (some p) v k s h = let (fds, got) = can.pipes s.calls in rw got (h, λ _ q. cc)

    launch_stage-Front :
        (v : Pipes) (pc : Command) (k : ℕ) (s : Shell)
        → Front k s
        → Returns
            (λ r t. Front (suc k) t × (pipe_in (pr_redirects pc) ≢ none → r.1 ≢ none))
            (launch_stage os l v pc s)
    unfolding launch_stage fork_call
    launch_stage-Front v pc k s h =
        Returns-and_then (λ r t. Front k t × (pipe_in (pr_redirects pc) ≢ none → r.1 ≢ none)) _
          (open_stage os (pipe_in (pr_redirects pc)) v s) _
          (open_stage-Front (pipe_in (pr_redirects pc)) v k s h)
          λ (fd_out, fds) t ((job, e, n, len, c), opened).
            let (id, got) = can.forks t.calls in
            let flag = stderr_flag v.is_stderr (pipe_in (pr_redirects pc)) in
            let spawn : Spawn = record {
              pc = pc;
              envs = l.envs;
              pgid = job.process_group_id;
              fd_out = fd_out;
              fd_in = v.fd_in;
              is_stderr = flag;
              interactive = l.interactive;
              background = l.background;
            } in
            let here : Shell = record t { job_head = job ∷ js; calls = fork spawn ∷ t.calls } in
            rw (e, got)
              (Returns-and_then (λ fds' t'. Front (suc k) t' × (fds' ≡ fds))
                (λ r t'. Front (suc k) t' × (pipe_in (pr_redirects pc) ≢ none → r.1 ≢ none))
                (after_fork os l v fd_out fds (some id) here) (λ fds'. pure (flag, fds'))
                (after_fork-Front os l v fd_out id k fds here (job, refl, n, len, c))
                λ fds' t' (h'', same). (h'', rw same opened))

    pub launch_loop-Front :
        (pcs : List Command) (v : Pipes) (k : ℕ) (s : Shell)
        → Chain pcs
        → Front k s
        → Returns (λ _ t. Front (length pcs + k) t) (launch_loop os l v pcs s)
    unfolding launch_loop
    launch_loop-Front [] v k s chain h = recount k (length {A = Command} [] + k) s (omega arith) h
    launch_loop-Front (pc ∷ []) v k s chain h =
        Returns-and_then (λ r t. Front (suc k) t × (pipe_in (pr_redirects pc) ≢ none → r.1 ≢ none))
          (λ _ t. Front (length (pc ∷ []) + k) t) (launch_stage os l v pc s) (λ _. pure tt)
          (launch_stage-Front v pc k s h)
          λ r t (h', _). recount (suc k) (length (pc ∷ []) + k) t (omega arith) h'
    launch_loop-Front (pc ∷ next ∷ rest) v k s chain h =
        Returns-and_then (λ r t. Front (suc k) t × (pipe_in (pr_redirects pc) ≢ none → r.1 ≢ none))
          (λ _ t. Front (length (pc ∷ next ∷ rest) + k) t) (launch_stage os l v pc s) _
          (launch_stage-Front v pc k s h)
          λ (flag, fds) t (h', opened). elim (Option-cases fds) [
            | inl e ↦ absurd (opened chain.0 e)
            | inr ((fd_read, fd_write), e) ↦
                let v' : Pipes = record { fd_in = fd_read; fd_pipe = fds; is_stderr = flag } in
                rw e (
                  Returns-mono (λ _ t'. Front (length (next ∷ rest) + suc k) t')
                    (λ _ t'. Front (length (pc ∷ next ∷ rest) + k) t') _
                    (rw e at (launch_loop-Front (next ∷ rest) v' (suc k) t chain.1 h'))
                    λ _ t' h''.
                      recount (length (next ∷ rest) + suc k) (length (pc ∷ next ∷ rest) + k) t'
                        (omega arith) h'')
          ]
