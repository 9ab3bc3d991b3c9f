-- ===== src/Redirect.antt =====
-- Redirections and pipelines in impl/ish.c: NextPipelineCommand, CheckPipelineAmbiguity and
-- func_IORedirection.
pub mod Ambiguity
pub mod Described
pub mod Opened
pub mod Held
use operating_system_profoli.Base.{ℕ, Bool, true, false, Option, none, some, Text, if◌then◌else◌}
use operating_system_profoli.Command.{
  Command, command, Redirects, no_redirect, file_redirect, pipe_redirect, FileType, redirect_in,
  redirect_out, redirect_error, append, append_error,
}
use operating_system_profoli.Shell.{
  Shell, Cmd, Os, Ret, success, fail, OpenFlags, o_rdonly, o_wronly, open_file, close, system_error,
  ambiguous_output, ambiguous_input, ◌>>=◌, ◌>>◌, pure, complain, record_call,
}

-- The command behind the first pipe among the redirections.
next_in : Redirects → Option Command
next_in no_redirect = none
next_in (file_redirect t f r) = next_in r
next_in (pipe_redirect t c r) = some c

unfoldable pub next_pipeline_command : Command → Option Command
unfolding next_in
next_pipeline_command (command z b a r n) = next_in r

-- The loop of CheckPipelineAmbiguity, with `is_redir_out` and `*is_pipe`. At a pipe it goes on
-- with the redirections of the next command.
ambiguity_loop : Redirects → (is_redir_out is_pipe : Bool) → Cmd (Ret × Bool)
ambiguity_loop no_redirect out piped = pure (success, piped)
ambiguity_loop (pipe_redirect t (command z b a r n) rest) out piped =
    if out then (do complain ambiguous_output; pure (fail, piped)) else ambiguity_loop r out true
ambiguity_loop (file_redirect redirect_in f rest) out piped =
    if piped
    then (do complain ambiguous_input; pure (fail, piped))
    else ambiguity_loop rest out piped
ambiguity_loop (file_redirect redirect_error f rest) out piped =
    if piped
    then (do complain ambiguous_input; pure (fail, piped))
    else ambiguity_loop rest out piped
ambiguity_loop (file_redirect redirect_out f rest) out piped = ambiguity_loop rest true piped
ambiguity_loop (file_redirect append f rest) out piped = ambiguity_loop rest true piped
ambiguity_loop (file_redirect append_error f rest) out piped = ambiguity_loop rest true piped

-- The result and the new value of `*is_pipe`.
unfoldable pub check_pipeline_ambiguity : Command → Bool → Cmd (Ret × Bool)
unfolding ambiguity_loop
check_pipeline_ambiguity (command z b a r n) is_pipe = ambiguity_loop r false is_pipe

-- The three variables that func_IORedirection writes through its pointers, in its order; `none` is
-- the value -1.
pub record IoCells : Type 0 where
  pub check_stderror : Option ℕ
  pub fd_in : Option ℕ
  pub fd_out : Option ℕ

-- The flags of `open` for an output file; the file mode is always the same.
abbrev pub out_flags : FileType → OpenFlags
out_flags append = o_wronly true false
out_flags redirect_error = o_wronly false true
out_flags redirect_out = o_wronly false true
out_flags append_error = o_wronly true false
out_flags redirect_in = o_rdonly

-- `*check_stderror` after an output file of this type.
abbrev pub stderror_after : FileType → Option ℕ → Option ℕ
stderror_after redirect_error old = some 1
stderror_after append_error old = some 1
stderror_after redirect_out old = old
stderror_after append old = old
stderror_after redirect_in old = old

-- `if (*fd != -1) close(*fd);`
abbrev pub close_opened : Option ℕ → Cmd (Unit {0})
close_opened none = pure tt
close_opened (some fd) = record_call (close fd)

module _ (os : Os) where
  -- `open(…)`: the call and its answer.
  open_call : Text → OpenFlags → Cmd (Option ℕ)
  open_call f flags s = (do record_call (open_file f flags); pure (os.opened s.calls f flags)) s

  -- What follows the `open` of an input file, and of an output file.
  after_in : Text → IoCells → Option ℕ → Cmd (Ret × IoCells) → Cmd (Ret × IoCells)
  after_in f c none rest = do
    complain (system_error f)
    close_opened c.fd_out
    pure (fail, record c { fd_in = none })
  after_in f c (some fd) rest = rest

  after_out : Text → IoCells → Option ℕ → Cmd (Ret × IoCells) → Cmd (Ret × IoCells)
  after_out f c none rest = do
    complain (system_error f)
    close_opened c.fd_in
    pure (fail, record c { fd_out = none })
  after_out f c (some fd) rest = rest

  unfoldable pub func_io_redirection : Redirects → IoCells → Cmd (Ret × IoCells)
  unfolding open_call after_in after_out
  func_io_redirection no_redirect c = pure (success, c)
  func_io_redirection (pipe_redirect t p r) c = func_io_redirection r c
  func_io_redirection (file_redirect redirect_in f r) c = do
    fd ← open_call f o_rdonly
    after_in f c fd (func_io_redirection r (record c { fd_in = fd }))
  func_io_redirection (file_redirect t f r) c =
      let marked = record c { check_stderror = stderror_after t c.check_stderror } in
      do
        fd ← open_call f (out_flags t)
        after_out f marked fd (func_io_redirection r (record marked { fd_out = fd }))
