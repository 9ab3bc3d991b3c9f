-- ===== src/Tests/Descriptors.antt =====
-- Examples for the descriptors of the shell.
use mathlib.Core.Option
use operating_system_profoli.Base.{
  ℕ, ◌+◌, ◌≤◌, ◌≡◌, refl, sym, ◌∙◌, false, none, some, List, [], ◌∷◌, codes, arith, write, write_ne,
}
use operating_system_profoli.Command.{
  Command, command, file_redirect, redirect_in, append_error, no_redirect, no_command,
}
use operating_system_profoli.Shell.{
  Shell, Os, Call, dup2, dup, close, open_file, print_err, system_error, o_rdonly, done, fail,
}
use operating_system_profoli.Shell.Descriptors.{files}
use operating_system_profoli.Redirect.Held.{Grants}
use operating_system_profoli.Exec.{run_built_in}
use operating_system_profoli.Exec.Saved.{IsStandard}
use operating_system_profoli.Exec.Restored.{RunsBetween, run_built_in-Restored, run_built_in_closes}
use operating_system_profoli.Tests.{friendly, shell, args_of}

-- More than every descriptor that these calls gave.
unfoldable bound : List Call → ℕ
bound [] = 3
bound (dup2 old new ∷ calls) = bound calls + (new + 1)
bound (dup old ∷ calls) = bound calls + 1
bound (open_file f flags ∷ calls) = bound calls + 1
bound (c ∷ calls) = bound calls

-- A system that numbers its descriptors upwards, and has no pipes.
abbrev counting : Os
counting = record friendly {
  opened = λ calls _ _. some (bound calls);
  dup_fd = λ calls _. bound calls;
  pipe_fds = λ _. none;
}

unused : (calls : List Call) (n : ℕ) → bound calls ≤ n → files counting calls n ≡ none
unfolding bound files write
unused [] n h = ground arith
unused (dup2 old new ∷ calls) n h =
    write_ne (files counting calls) new (files counting calls old) n (λ e. omega (arith, e, h))
    ∙ unused calls n (omega (arith, h))
unused (dup old ∷ calls) n h =
    write_ne (files counting calls) (bound calls) (files counting calls old) n
      (λ e. omega (arith, e, h))
    ∙ unused calls n (omega (arith, h))
unused (open_file f flags ∷ calls) n h =
    write_ne (files counting calls) (bound calls) _ n (λ e. omega (arith, e, h))
    ∙ unused calls n (omega (arith, h))
unused (close old ∷ calls) n h = ground (arith, unused calls n h)
unused (c ∷ calls) n h = unused calls n h

counting-Grants : Grants counting
counting-Grants = record {
  opens = λ calls f flags. (bound calls, refl, unused calls (bound calls) (omega arith));
  dups = λ calls fd. unused calls (bound calls) (omega arith);
}

-- `jobs < f >>& g`
abbrev jobs_from_f_into_g : Command
jobs_from_f_into_g =
    command (codes "jobs") false (args_of (codes "jobs" ∷ []))
      (file_redirect redirect_in (codes "f") (file_redirect append_error (codes "g") no_redirect))
      no_command

standard : IsStandard counting []
unfolding files
standard = (
  (λ e. Option.none-ne-some _ (sym e)),
  (λ e. Option.none-ne-some _ (sym e)),
  (λ e. Option.none-ne-some _ (sym e)),
)

run_built_in-Restored_example : RunsBetween counting (λ _. []) jobs_from_f_into_g shell
run_built_in-Restored_example =
    run_built_in-Restored counting (λ _. []) jobs_from_f_into_g shell counting-Grants standard

-- `jobs < f`, where no file opens.
abbrev jobs_from_f : Command
jobs_from_f =
    command (codes "jobs") false (args_of (codes "jobs" ∷ []))
      (file_redirect redirect_in (codes "f") no_redirect) no_command

abbrev refusing : Os
refusing = record friendly { opened = λ _ _ _. none }

run_built_in_closes_example :
    (t : Shell) × (run_built_in refusing (λ _. []) jobs_from_f shell ≡ done fail t)
    × (t ≡ record shell {
      calls = close 0 ∷ print_err (system_error (codes "f")) ∷ open_file (codes "f") o_rdonly ∷ [];
    })
    × (files refusing t.calls 0 ≡ none)
run_built_in_closes_example =
    run_built_in_closes refusing (λ _. []) jobs_from_f (codes "f") no_redirect shell refl refl
