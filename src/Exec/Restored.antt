-- ===== src/Exec/Restored.antt =====
-- The descriptors 0, 1 and 2 of the shell in a built-in command, and behind it.
use mathlib.Core.Option
use operating_system_profoli.Base.{
  ℕ, ◌≡◌, ◌≢◌, refl, ◌∙◌, if◌then◌else◌, arith, none, some, List, ◌∷◌, Text, write_self,
}
use operating_system_profoli.Command.{Command, pr_redirects, Redirects, file_redirect, redirect_in}
use operating_system_profoli.Shell.{
  Shell, Cmd, Os, Ret, success, fail, print_err, system_error, open_file, o_rdonly, Call, dup,
  close, Outcome, done, exits, blocked, fault, and_then, pure, ◌>>◌,
}
use operating_system_profoli.Shell.Descriptors.{files, KeptBy}
use operating_system_profoli.Redirect.{IoCells, func_io_redirection}
use operating_system_profoli.Redirect.Described.{last_input, takes_errors}
use operating_system_profoli.Redirect.Held.{
  Grants, Held, Extends, IsOpen-Extends, InputOf, func_io_redirection-Held,
}
use operating_system_profoli.Builtin.{execute_built_in_comds}
use operating_system_profoli.Builtin.Keeps.{execute_built_in_comds-Keeps}
use operating_system_profoli.Exec.{dup_call, restore, run_built_in}
use operating_system_profoli.Exec.Saved.{
  Saved, SameStandard, IsStandard, restored, restored-Same, saved_o, saved_i, saved_e, dups-Saved,
  dups-old,
}
use operating_system_profoli.Exec.Placed.{
  placed_in, placed_out, redirect_shell_lem, placed-Saved, placed-RedirectedBy, RedirectedBy,
}

abbrev no_cells : IoCells
no_cells = record { check_stderror = none; fd_in = none; fd_out = some 0 }

not_one : no_cells.fd_out ≢ some 1
not_one e = omega (arith, Option.some-injective 0 1 e)

module _ (os : Os) where
  -- The run ends as the built-in command does; where that returns, only calls follow, and the standard
  -- descriptors stand for what they stood for before.
  abbrev pub Restored : List Call → Outcome Ret → Outcome Ret → Type 0
  Restored before (done ret t) run =
      (calls : List Call) × (run ≡ done ret (record t { calls = calls }))
      × SameStandard os calls before
  Restored before (exits n t) run = run ≡ exits n t
  Restored before (blocked t) run = run ≡ blocked t
  Restored before fault run = run ≡ fault

  finish : (i o e : ℕ) → Ret → Cmd Ret
  unfolding restore
  finish i o e ret = do restore i 0; restore o 1; restore e 2; pure ret

  Saved-same :
      (before calls calls' : List Call) (i o e : ℕ)
      → ((fd : ℕ) → files os calls' fd ≡ files os calls fd)
      → Saved os before calls i o e
      → Saved os before calls' i o e
  Saved-same before calls calls' i o e same h = record {
    i_file = same i ∙ h.i_file;
    o_file = same o ∙ h.o_file;
    e_file = same e ∙ h.e_file;
    i_new = h.i_new;
    o_new = h.o_new;
    e_new = h.e_new;
    i_o = h.i_o;
    e_i = h.e_i;
    e_o = h.e_o;
  }

  finish-Restored :
      (first before : List Call) (i o e : ℕ) (here : Shell) (run : Outcome Ret)
      → SameStandard os before first
      → IsStandard os before
      → KeptBy os here run
      → Saved os before here.calls i o e
      → Restored first run (and_then run (finish i o e))
  unfolding finish
  finish-Restored first before i o e here (done ret t) same std kept h =
      let back =
        restored-Same os before t.calls i o e std
          (Saved-same before here.calls t.calls i o e kept h) in
      (restored os i o e t.calls, refl, (back.0 ∙ same.0, back.1 ∙ same.1, back.2 ∙ same.2))
  finish-Restored first before i o e here (exits n t) same std kept h = refl
  finish-Restored first before i o e here (blocked t) same std kept h = refl
  finish-Restored first before i o e here fault same std kept h = refl

  -- Running a built-in command between some calls that put its descriptors in place and those that put the
  -- old ones back.
  abbrev pub RunsBetween : (ℕ → Text) → Command → Shell → Type 0
  RunsBetween rows pc s =
      (calls : List Call) × RedirectedBy os (pr_redirects pc) s.calls calls
      × Restored s.calls (execute_built_in_comds os rows pc (record s { calls = calls }))
          (run_built_in os rows pc s)

  built_in_opened :
      (rows : ℕ → Text) (pc : Command) (s : Shell) (c : IoCells) (before : List Call)
      → Grants os
      → IsStandard os s.calls
      → func_io_redirection os (pr_redirects pc) no_cells s
        ≡ done (success, c) (record s { calls = before })
      → Extends os s.calls before
      → Held os before c.fd_in
      → c.check_stderror ≡ (if takes_errors (pr_redirects pc) then some 1 else none)
      → InputOf os (last_input (pr_redirects pc)) none s.calls c.fd_in before
      → c.fd_out ≢ some 1
      → RunsBetween rows pc s
  unfolding run_built_in dup_call finish
  built_in_opened rows pc s c before g std opened ext held flag input other =
      let std' : IsStandard os before = (
        IsOpen-Extends os s.calls before 0 ext std.0,
        IsOpen-Extends os s.calls before 1 ext std.1,
        IsOpen-Extends os s.calls before 2 ext std.2,
      ) in
      let b = takes_errors (pr_redirects pc) in
      let dups = dup 2 ∷ dup 0 ∷ dup 1 ∷ before in
      let here = placed_out c.fd_in (placed_in b dups) in
      let saved =
        placed-Saved os before dups (saved_i os before) (saved_o os before) (saved_e os before) b
          c.fd_in std' held (dups-Saved os before g std') in
      (
        here,
        placed-RedirectedBy os (pr_redirects pc) s.calls before dups c.fd_in std
            (λ fd o. dups-old os before fd g (IsOpen-Extends os s.calls before fd ext o) ∙ ext fd o)
            (λ fd o. dups-old os before fd g o) input,
        rw
            (
              opened,
              redirect_shell_lem b c.check_stderror c.fd_in c.fd_out (record s { calls = dups })
                  flag other,
            )
            (finish-Restored s.calls before (saved_i os before) (saved_o os before)
              (saved_e os before) (record s { calls = here })
              (execute_built_in_comds os rows pc (record s { calls = here }))
              (ext 0 std.0, ext 1 std.1, ext 2 std.2) std'
              (execute_built_in_comds-Keeps os rows pc (record s { calls = here })) saved),
      )

  -- In a shell whose standard descriptors are open, where every file opens, and `open` and `dup` give
  -- descriptors that are not in use: a built-in command with redirections ends as the command itself does
  -- from a state that differs in the calls alone, and where it returns the descriptors 0, 1 and 2 stand for
  -- what they stood for before. The command itself has as descriptor 1 the last file of a `<`; without one
  -- it has its old descriptor 1, or none where there is a `>&` or `>>&`. As descriptor 0 it has in that
  -- case what 1 stood for, and else the old one. Descriptor 2 is the old one.
  pub run_built_in-Restored :
      (rows : ℕ → Text) (pc : Command) (s : Shell)
      → Grants os
      → IsStandard os s.calls
      → RunsBetween rows pc s
  run_built_in-Restored rows pc s g std =
      let (c, before, opened, ext, held_in, held_out, flag, input, other) =
        func_io_redirection-Held os (pr_redirects pc) no_cells s g std.1 tt tt not_one in
      built_in_opened rows pc s c before g std opened ext held_out flag input other

  -- Where the first redirection of a built-in command is `< f` and the file does not open, the command is
  -- not run: the result is FAIL, the error is printed, and the shell is left with its standard input closed.
  pub run_built_in_closes :
      (rows : ℕ → Text) (pc : Command) (f : Text) (rest : Redirects) (s : Shell)
      → pr_redirects pc ≡ file_redirect redirect_in f rest
      → os.opened s.calls f o_rdonly ≡ none
      → (t : Shell) × (run_built_in os rows pc s ≡ done fail t)
        × (t ≡ record s {
          calls = close 0 ∷ print_err (system_error f) ∷ open_file f o_rdonly ∷ s.calls;
        })
        × (files os t.calls 0 ≡ none)
  unfolding run_built_in func_io_redirection files
  run_built_in_closes rows pc f rest s first refused = (
    record s { calls = close 0 ∷ print_err (system_error f) ∷ open_file f o_rdonly ∷ s.calls },
    rw (first, refused) refl,
    refl,
    write_self (files os (print_err (system_error f) ∷ open_file f o_rdonly ∷ s.calls)) 0 none,
  )
