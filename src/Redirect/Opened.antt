-- ===== src/Redirect/Opened.antt =====
-- What func_IORedirection makes of a list of redirections.
use operating_system_profoli.Base.{
  ℕ, ◌≡◌, Option, none, some, List, [], ◌∷◌, ◌++◌, Text, if◌then◌else◌,
}
use operating_system_profoli.Command.{
  FileType, redirect_in, redirect_out, redirect_error, append, append_error,
}
use operating_system_profoli.Shell.{Shell, Call, Ret, open_file, print_err, system_error}
use operating_system_profoli.Shell.Returns.{Returns}
use operating_system_profoli.Redirect.{IoCells, out_flags}
use operating_system_profoli.Redirect.Described.{
  is_input, is_output, has_error, opens, Described, close_call, closing, last_fd, first_missing,
  until_missing,
}

-- A descriptor may be closed at the end.
abbrev Closed : Option ℕ → Ret × IoCells → Shell → Ret × IoCells → Shell → Type 0
Closed fd x s y t = (y ≡ x) × (t ≡ record s { calls = close_call fd ++ s.calls })

abbrev failed : FileType → Text → Shell → List Call
failed t f s = print_err (system_error f) ∷ open_file f (out_flags t) ∷ s.calls

module _ (file : Text → Option ℕ) where
  -- The same for a first file of which it is known whether it opens.
  abbrev OpenedWith :
      Option ℕ
      → FileType
      → Text
      → List (FileType × Text)
      → IoCells
      → Shell
      → Ret × IoCells
      → Shell
      → Type 0
  OpenedWith o t f fs c s =
      Described (elim o [ none ↦ some f | some fd ↦ first_missing file fs ])
        (opens ((t, f) ∷ fs) s.calls)
        (opens ((t, f) ∷ elim o [ none ↦ [] | some fd ↦ until_missing file fs ]) s.calls)
        (elim o [
          | none ↦ close_call (if is_input t then c.fd_out else c.fd_in)
          | some fd ↦
              closing file (if is_input t then some fd else c.fd_in)
                (if is_output t then some fd else c.fd_out) fs
        ])
        (last_fd file is_input (if is_input t then o else c.fd_in) fs)
        (last_fd file is_output (if is_output t then o else c.fd_out) fs)
        (if has_error ((t, f) ∷ fs) then some 1 else c.check_stderror)
        (λ calls. record s { calls = calls })

  abbrev moved : FileType → ℕ → IoCells → IoCells
  moved redirect_in fd c = record c { fd_in = some fd }
  moved redirect_out fd c = record c { fd_out = some fd }
  moved append fd c = record c { fd_out = some fd }
  moved redirect_error fd c = record c { check_stderror = some 1; fd_out = some fd }
  moved append_error fd c = record c { check_stderror = some 1; fd_out = some fd }
