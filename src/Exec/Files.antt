-- ===== src/Exec/Files.antt =====
-- What the redirections of a command do to the descriptors of the child.
use operating_system_profoli.Base.{ℕ, ◌≡◌, refl, true, false, Option, some, List, ◌∷◌, Text}
use operating_system_profoli.Command.{
  pr_redirects, no_redirect, file_redirect, redirect_in, redirect_out,
}
use operating_system_profoli.Shell.{
  Shell, Cmd, Os, Spawn, Call, OpenFlags, o_rdonly, o_wronly, Outcome, done, exits, blocked, fault,
  and_then, open_file,
}
use operating_system_profoli.Redirect.{func_io_redirection}
use operating_system_profoli.Exec.{flag, interactive_setup, child, exec_process}

and_then_cong :
    {A B : Type 0} (m : Outcome A) (k k' : A → Cmd B)
    → ((a : A) (s : Shell) → k a s ≡ k' a s)
    → and_then m k ≡ and_then m k'
and_then_cong (done a s) k k' h = h a s
and_then_cong (exits n s) k k' h = refl
and_then_cong (blocked s) k k' h = refl
and_then_cong fault k k' h = refl

module _ (os : Os) (rows : ℕ → Text) (spawn : Spawn) (f : Text) (fd : ℕ) (s : Shell) where
  -- After the set-up and the `open`, the child goes on with these descriptors.
  abbrev pub GoesOn : OpenFlags → (fd_in fd_out : ℕ) → Option ℕ → Type 0
  GoesOn flags fd_in fd_out is_stderr =
      exec_process os rows spawn s
      ≡ and_then (interactive_setup os spawn s) λ _ s'.
        child os rows spawn.pc fd_in fd_out is_stderr
          (record s' { calls = open_file f flags ∷ s'.calls })

  -- A command whose only redirection is `> f`, where the file opens, runs with the descriptors that
  -- the shell gave it, the file not among them. One whose only redirection is `< f` runs with the
  -- shell's descriptor for its input, and with the file as its output.
  pub exec_process_files :
      ((calls : List Call) (flags : OpenFlags) → os.opened calls f flags ≡ some fd)
      → (pr_redirects spawn.pc ≡ file_redirect redirect_out f no_redirect
          → GoesOn (o_wronly false true) spawn.fd_in spawn.fd_out (flag spawn.is_stderr))
        × (pr_redirects spawn.pc ≡ file_redirect redirect_in f no_redirect
            → GoesOn o_rdonly spawn.fd_in fd (some 0))
  unfolding exec_process func_io_redirection
  exec_process_files opens = (
    λ e.
        and_then_cong (interactive_setup os spawn s) _ _
          λ u s'. rw (e, opens s'.calls (o_wronly false true)),
    λ e. and_then_cong (interactive_setup os spawn s) _ _ λ u s'. rw (e, opens s'.calls o_rdonly),
  )
