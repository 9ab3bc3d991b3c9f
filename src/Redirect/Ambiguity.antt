-- ===== src/Redirect/Ambiguity.antt =====
-- CheckPipelineAmbiguity against an order on the redirections that it meets.
use operating_system_profoli.Base.{
  ◌≡◌, refl, Bool, true, false, not, ◌&&◌, ◌||◌, List, [], ◌∷◌, if◌then◌else◌, arith, Bool-cases,
  inl, inr,
}
use operating_system_profoli.Command.{
  Command, command, Redirects, no_redirect, file_redirect, pipe_redirect, FileType, redirect_in,
  redirect_out, redirect_error, append, append_error, pr_redirects,
}
use operating_system_profoli.Shell.{
  Shell, Outcome, done, Ret, Message, success, fail, ambiguous_output, ambiguous_input, print_err,
  ◌>>◌, complain, pure,
}
use operating_system_profoli.Redirect.{ambiguity_loop, check_pipeline_ambiguity}

-- What the code makes of a redirection: it counts `>&` as input.
pub data Kind : Type 0 where
  input output piping : Kind

abbrev pub kind : FileType → Kind
kind redirect_in = input
kind redirect_error = input
kind redirect_out = output
kind append = output
kind append_error = output

-- The redirections of a command up to its first pipe, then those of the next command, and so on.
unfoldable pub kinds : Redirects → List Kind
kinds no_redirect = []
kinds (file_redirect t f r) = kind t ∷ kinds r
kinds (pipe_redirect t (command z b a r n) rest) = piping ∷ kinds r

abbrev pub is_input : Kind → Bool
is_input input = true
is_input _ = false

abbrev pub is_piping : Kind → Bool
is_piping piping = true
is_piping _ = false

abbrev pub any : (Kind → Bool) → List Kind → Bool
any p [] = false
any p (k ∷ ks) = p k || any p ks

-- No output stands before a pipe, and no input behind one.
abbrev pub unambiguous : List Kind → Bool
unambiguous [] = true
unambiguous (input ∷ ks) = unambiguous ks
unambiguous (output ∷ ks) = not (any is_piping ks) && unambiguous ks
unambiguous (piping ∷ ks) = not (any is_input ks) && unambiguous ks

abbrev accepted : (out piped : Bool) → List Kind → Bool
accepted out piped ks =
    unambiguous ks && (not (out && any is_piping ks) && not (piped && any is_input ks))

-- The result is SUCCESS where the test holds, with nothing printed, and FAIL with one message
-- where it does not.
abbrev pub Decides : Bool → (is_pipe : Bool) → Shell → Outcome (Ret × Bool) → Type 0
Decides true is_pipe s run = run ≡ done (success, is_pipe) s
Decides false is_pipe s run =
    (m : Message) × (piped : Bool) × (run
      ≡ done (fail, piped) (record s { calls = print_err m ∷ s.calls }))

accepted-piping :
    (out piped : Bool) (ks : List Kind)
    → accepted out piped (piping ∷ ks) ≡ (not out && accepted out true ks)
accepted-piping out piped ks = ground arith

accepted-input :
    (out piped : Bool) (ks : List Kind)
    → accepted out piped (input ∷ ks) ≡ (not piped && accepted out piped ks)
accepted-input out piped ks = ground arith

accepted-output :
    (out piped : Bool) (ks : List Kind) → accepted out piped (output ∷ ks) ≡ accepted true piped ks
accepted-output out piped ks = ground arith

accepted-start : (ks : List Kind) → accepted false false ks ≡ unambiguous ks
accepted-start ks = ground arith

or_true : (b : Bool) → (b || true) ≡ true
or_true true = refl
or_true false = refl

-- One input redirection.
input-Decides :
    (r : Redirects) (out piped : Bool) (s : Shell)
    → Decides
        (accepted out piped (kinds r))
        (piped || any is_piping (kinds r))
        s
        (ambiguity_loop r out piped s)
    → Decides (accepted out piped (input ∷ kinds r)) (piped || any is_piping (kinds r)) s (
        (if piped
            then (do complain ambiguous_input; pure (fail, piped))
            else ambiguity_loop r out piped)
          s)
input-Decides r out piped s ih = elim (Bool-cases piped) [
  | inl e ↦ rw (accepted-input out piped (kinds r), e) (ambiguous_input, true, refl)
  | inr e ↦ rw (accepted-input out piped (kinds r)) (rw e (rw e at ih))
]

ambiguity_loop-Decides :
    (r : Redirects) (out piped : Bool) (s : Shell)
    → Decides
        (accepted out piped (kinds r))
        (piped || any is_piping (kinds r))
        s
        (ambiguity_loop r out piped s)
unfolding ambiguity_loop kinds
ambiguity_loop-Decides no_redirect true true s = refl
ambiguity_loop-Decides no_redirect true false s = refl
ambiguity_loop-Decides no_redirect false true s = refl
ambiguity_loop-Decides no_redirect false false s = refl
ambiguity_loop-Decides (pipe_redirect t (command z b a r n) rest) out piped s =
    rw (accepted-piping out piped (kinds r), or_true piped)
      (elim (Bool-cases out) [
        | inl e ↦ rw e (ambiguous_output, piped, refl)
        | inr e ↦ rw e (rw e at (ambiguity_loop-Decides r out true s))
      ])
ambiguity_loop-Decides (file_redirect redirect_in f rest) out piped s =
    input-Decides rest out piped s (ambiguity_loop-Decides rest out piped s)
ambiguity_loop-Decides (file_redirect redirect_error f rest) out piped s =
    input-Decides rest out piped s (ambiguity_loop-Decides rest out piped s)
ambiguity_loop-Decides (file_redirect redirect_out f rest) out piped s =
    rw (accepted-output out piped (kinds rest)) (ambiguity_loop-Decides rest true piped s)
ambiguity_loop-Decides (file_redirect append f rest) out piped s =
    rw (accepted-output out piped (kinds rest)) (ambiguity_loop-Decides rest true piped s)
ambiguity_loop-Decides (file_redirect append_error f rest) out piped s =
    rw (accepted-output out piped (kinds rest)) (ambiguity_loop-Decides rest true piped s)

-- CheckPipelineAmbiguity accepts a pipeline, and tells whether it has a pipe, where no output
-- redirection stands before a pipe and no input redirection (`<`, and `>&` too) behind one. It
-- refuses every other pipeline, with one message. Nothing else changes.
pub check_pipeline_ambiguity-Decides :
    (pc : Command) (s : Shell)
    → Decides
        (unambiguous (kinds (pr_redirects pc)))
        (any is_piping (kinds (pr_redirects pc)))
        s
        (check_pipeline_ambiguity pc false s)
unfolding check_pipeline_ambiguity
check_pipeline_ambiguity-Decides (command z b a r n) s =
    rw (accepted-start (kinds r)) at (ambiguity_loop-Decides r false false s)
