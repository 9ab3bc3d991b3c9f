-- ===== src/Launch/Wired.antt =====
-- Which descriptors the stages of a pipeline are started with.
use operating_system_profoli.Base.{
  ℕ, ◌+◌, ◌≡◌, refl, sym, ap, ◌∙◌, inl, inr, Bool, true, false, Option, none, some, List, [], ◌∷◌,
  length, get_elem?, ◌==◌, Bool-cases, Option-cases,
}
use operating_system_profoli.Command.{Command, z_cmd, pr_redirects}
use operating_system_profoli.Shell.{Shell, Spawn, done, pure, Call, open_pipe, fork, Os, fits}
use operating_system_profoli.Shell.Returns.{
  Returns, IfReturns, IfReturns-and_then, IfReturns-mono, Returns-IfReturns,
}
use operating_system_profoli.Launch.{
  pipeline, pipe_in, stderr_flag, Pipes, Launch, close_unless, add_process, fork_call, open_stage,
  after_fork, launch_stage, launch_loop, add_job, start_job,
}
use operating_system_profoli.Launch.Stages.{CanFork, Front, launch_loop-Front, pipeline-Chain}
use operating_system_profoli.Launch.Plumbed.{Plumbed, pipeline-Plumbed}

-- The children that were started, the newest first.
unfoldable pub started : List Call → List Spawn
started [] = []
started (fork spawn ∷ calls) = spawn ∷ started calls
started (c ∷ calls) = started calls

abbrev pub newest_first : List Spawn → List Spawn → List Spawn
newest_first [] old = old
newest_first (spawn ∷ spawns) old = newest_first spawns (spawn ∷ old)

-- The arguments of ExecProcess in the child for a command: fd_in, and whether is_stderr is set.
abbrev pub IsStage : ℕ → Bool → Command → Spawn → Type 0
IsStage fd_in flag pc spawn =
    (spawn.pc ≡ pc)
    × (spawn.fd_in ≡ fd_in)
    × (spawn.is_stderr ≡ stderr_flag flag (pipe_in (pr_redirects pc)))

-- The children of a pipeline, the first one first: each writes to the end of a pipe that the next one
-- reads from, and the last one to descriptor 1. The flag for errors is handed on.
abbrev pub Wired : Os → ℕ → Bool → List Command → List Spawn → Type 0
Wired os fd_in flag [] spawns = ⊥
Wired os fd_in flag (pc ∷ []) spawns =
    (spawn : Spawn) × (spawns ≡ spawn ∷ []) × IsStage fd_in flag pc spawn × (spawn.fd_out ≡ 1)
Wired os fd_in flag (pc ∷ next ∷ rest) spawns =
    (spawn : Spawn) × (later : List Spawn) × (calls : List Call) × (fd_read : ℕ) × (spawns
      ≡ spawn ∷ later)
    × IsStage fd_in flag pc spawn
    × (os.pipe_fds calls ≡ some (fd_read, spawn.fd_out))
    × Wired os fd_read spawn.is_stderr (next ∷ rest) later

abbrev Same : Shell → Shell → Type 0
Same s t = started t.calls ≡ started s.calls

add_process-Same :
    (id : ℕ) (b : Bool) (s : Shell) → IfReturns (λ _ t. Same s t) (add_process id b s)
unfolding add_process started
add_process-Same id b s = elim (Option-cases (get_elem? s.job_head 0)) [
  | inl e ↦ rw e tt
  | inr (job, e) ↦ elim (Bool-cases b) [ inl f ↦ rw (e, f) refl | inr f ↦ rw (e, f) refl ]
]

close_unless-Same :
    (fd standard : ℕ) (s : Shell) → IfReturns (λ _ t. Same s t) (close_unless fd standard s)
unfolding started
close_unless-Same fd standard s = elim (Bool-cases (fd == standard)) [
  | inl e ↦ rw e refl
  | inr e ↦ rw e refl
]

after_fork-Same :
    (os : Os) (l : Launch) (v : Pipes) (fd_out : ℕ) (fds : Option (ℕ × ℕ)) (id : Option ℕ)
    (s : Shell)
    → IfReturns (λ fds' t. (fds' ≡ fds) × Same s t) (after_fork os l v fd_out fds id s)
unfolding after_fork
after_fork-Same os l v fd_out fds none s = tt
after_fork-Same os l v fd_out fds (some id) s =
    IfReturns-and_then (λ _ t. Same s t) _ (add_process id l.interactive s) _
      (add_process-Same id l.interactive s)
      λ _ t e.
        IfReturns-and_then (λ _ t'. Same t t') _ (close_unless v.fd_in 0 t) _
          (close_unless-Same v.fd_in 0 t)
          λ _ t' e'.
            IfReturns-and_then (λ _ t''. Same t' t'') _ (close_unless fd_out 1 t') _
              (close_unless-Same fd_out 1 t') λ _ t'' e''. (refl, e'' ∙ e' ∙ e)

-- A stage starts one child.
abbrev OneMore :
    Pipes → Command → ℕ → Option (ℕ × ℕ) → Shell → Bool × Option (ℕ × ℕ) → Shell → Type 0
OneMore v pc fd_out fds s r t =
    (spawn : Spawn) × (started t.calls ≡ spawn ∷ started s.calls)
    × IsStage v.fd_in v.is_stderr pc spawn
    × (spawn.fd_out ≡ fd_out)
    × (r ≡ (spawn.is_stderr, fds))

module _ (os : Os) (l : Launch) where
  launch_stage-OneMore :
      (v : Pipes) (pc : Command) (fd_out : ℕ) (fds : Option (ℕ × ℕ)) (s t : Shell)
      → open_stage os (pipe_in (pr_redirects pc)) v s ≡ done (fd_out, fds) t
      → IfReturns (OneMore v pc fd_out fds t) (launch_stage os l v pc s)
  unfolding launch_stage fork_call started
  launch_stage-OneMore v pc fd_out fds s t opened =
      rw opened (elim (Option-cases (get_elem? t.job_head 0)) [
        | inl e ↦ rw e tt
        | inr (job, e) ↦
            let spawn : Spawn = record {
              pc = pc;
              envs = l.envs;
              pgid = job.process_group_id;
              fd_out = fd_out;
              fd_in = v.fd_in;
              is_stderr = stderr_flag v.is_stderr (pipe_in (pr_redirects pc));
              interactive = l.interactive;
              background = l.background;
            } in
            let here : Shell = record t { calls = fork spawn ∷ t.calls } in
            rw e (
              IfReturns-and_then (λ fds' t'. (fds' ≡ fds) × Same here t')
                (OneMore v pc fd_out fds t) (after_fork os l v fd_out fds (os.forked t.calls) here)
                (λ fds'. pure (spawn.is_stderr, fds'))
                (after_fork-Same os l v fd_out fds (os.forked t.calls) here)
                λ fds' t' h. (spawn, h.1, (refl, refl, refl), refl, rw h.0 refl))
      ])

  -- The children that were started since.
  abbrev Extended : ℕ → Bool → List Command → Shell → Unit {0} → Shell → Type 0
  Extended fd_in flag pcs s _ t =
      (new : List Spawn) × (started t.calls ≡ newest_first new (started s.calls))
      × Wired os fd_in flag pcs new

  module _ (can : CanFork os) where
    launch_loop-Wired :
        (pcs : List Command) (v : Pipes) (s : Shell)
        → Plumbed pcs
        → IfReturns (Extended v.fd_in v.is_stderr pcs s) (launch_loop os l v pcs s)
    unfolding launch_loop open_stage started
    launch_loop-Wired [] v s plumbed = absurd plumbed
    launch_loop-Wired (pc ∷ []) v s plumbed =
        IfReturns-and_then (OneMore v pc 1 v.fd_pipe s) _ (launch_stage os l v pc s) _
          (launch_stage-OneMore v pc 1 v.fd_pipe s s (rw plumbed refl))
          λ r t (spawn, more, stage, out, _). (spawn ∷ [], more, (spawn, refl, stage, out))
    launch_loop-Wired (pc ∷ next ∷ rest) v s ((p, e), plumbed) =
        let ((r, w), got) = can.pipes s.calls in
        let here : Shell = record s { calls = open_pipe ∷ s.calls } in
        IfReturns-and_then (OneMore v pc w (some (r, w)) here) _ (launch_stage os l v pc s) _
          (launch_stage-OneMore v pc w (some (r, w)) s here (rw (e, got) refl))
          λ (flag, fds) t (spawn, more, stage, out, same).
            let v' : Pipes = record {
              fd_in = r;
              fd_pipe = some (r, w);
              is_stderr = spawn.is_stderr;
            } in
            let told : flag ≡ spawn.is_stderr = ap (λ q. q.0) same in
            let given : fds ≡ some (r, w) = ap (λ q. q.1) same in
            rw (given, told)
              (IfReturns-mono (Extended v'.fd_in v'.is_stderr (next ∷ rest) t)
                (Extended v.fd_in v.is_stderr (pc ∷ next ∷ rest) s) _
                (launch_loop-Wired (next ∷ rest) v' t plumbed)
                λ _ t' (later, all, wired). (
                  spawn ∷ later,
                  all ∙ ap (newest_first later) more,
                  (
                    spawn,
                    later,
                    s.calls,
                    r,
                    refl,
                    stage,
                    got ∙ ap (λ d. some (r, d)) (sym out),
                    wired,
                  ),
                ))

-- Where the system can fork and make pipes, and the name of the command fits its buffer, ExecCommand
-- calls ExecProcess in one child for each command of the pipeline, in order, with these arguments: fd_in is
-- 0 for the first one, fd_out of each but the last is the write end of a pipe whose read end is fd_in of
-- the next, and fd_out of the last one is 1; is_stderr is set if there is a `|&` behind the command or
-- behind one before it.
pub start_job-Wired :
    (os : Os) (l : Launch) (pc : Command) (s : Shell)
    → CanFork os
    → fits (z_cmd pc) ≡ true
    → Returns
        (λ _ t.
          (new : List Spawn) × (started t.calls ≡ newest_first new (started s.calls))
          × Wired os 0 false (pipeline pc) new)
        (start_job os l pc s)
unfolding start_job add_job
start_job-Wired os l pc s can small = rw small (
    Returns-IfReturns
      (λ _ t. Front (s.num_jobs + 1) (s.num_jobs + 1) s.job_head (length (pipeline pc) + 0) t)
      (λ _ t.
        (new : List Spawn) × (started t.calls ≡ newest_first new (started s.calls))
        × Wired os 0 false (pipeline pc) new)
      _
      (launch_loop-Front (s.num_jobs + 1) (s.num_jobs + 1) s.job_head os can l (pipeline pc) _ 0 _
        (pipeline-Chain pc) (_, refl, refl, refl, refl))
      (launch_loop-Wired os l can (pipeline pc) _ _ (pipeline-Plumbed pc)))
