-- ===== src/Redirect/Described.antt =====
-- A description of what a list of redirections leaves.
use operating_system_profoli.Base.{
  ℕ, ◌≡◌, refl, Bool, true, false, Option, none, some, List, [], ◌∷◌, ◌++◌, Text, if◌then◌else◌,
}
use operating_system_profoli.Command.{
  Redirects, no_redirect, file_redirect, pipe_redirect, FileType, redirect_in, redirect_out,
  redirect_error, append, append_error,
}
use operating_system_profoli.Shell.{
  Shell, Call, Ret, success, fail, open_file, close, print_err, system_error,
}
use operating_system_profoli.Redirect.{IoCells, out_flags, stderror_after}

-- The files, with the pipes left out.
abbrev pub files : Redirects → List (FileType × Text)
files no_redirect = []
files (file_redirect t f r) = (t, f) ∷ files r
files (pipe_redirect t p r) = files r

abbrev pub is_input : FileType → Bool
is_input redirect_in = true
is_input redirect_out = false
is_input redirect_error = false
is_input append = false
is_input append_error = false

abbrev pub is_output : FileType → Bool
is_output redirect_in = false
is_output redirect_out = true
is_output redirect_error = true
is_output append = true
is_output append_error = true

abbrev pub has_error : List (FileType × Text) → Bool
has_error [] = false
has_error ((redirect_error, f) ∷ fs) = true
has_error ((append_error, f) ∷ fs) = true
has_error ((redirect_in, f) ∷ fs) = has_error fs
has_error ((redirect_out, f) ∷ fs) = has_error fs
has_error ((append, f) ∷ fs) = has_error fs

-- The last file of a `<`.
abbrev pub last_input : Redirects → Option Text
last_input no_redirect = none
last_input (pipe_redirect t p r) = last_input r
last_input (file_redirect redirect_in f r) = elim (last_input r) [ none ↦ some f | some g ↦ some g ]
last_input (file_redirect redirect_out f r) = last_input r
last_input (file_redirect redirect_error f r) = last_input r
last_input (file_redirect append f r) = last_input r
last_input (file_redirect append_error f r) = last_input r

-- Whether there is a `>&` or a `>>&`.
abbrev pub takes_errors : Redirects → Bool
takes_errors r = has_error (files r)

pub if_same : {A : Type 0} (b : Bool) (a : A) → (if b then a else a) ≡ a
if_same true a = refl
if_same false a = refl

pub takes_errors-stderror :
    (t : FileType) (f : Text) (r : Redirects) (v : Option ℕ)
    → (if takes_errors r then some 1 else stderror_after t v)
      ≡ (if takes_errors (file_redirect t f r) then some 1 else v)
takes_errors-stderror redirect_in f r v = refl
takes_errors-stderror redirect_out f r v = refl
takes_errors-stderror append f r v = refl
takes_errors-stderror redirect_error f r v = if_same (takes_errors r) (some 1)
takes_errors-stderror append_error f r v = if_same (takes_errors r) (some 1)

-- The calls of `open`, the newest first.
abbrev pub opens : List (FileType × Text) → List Call → List Call
opens [] calls = calls
opens ((t, f) ∷ fs) calls = opens fs (open_file f (out_flags t) ∷ calls)

-- What is left: all files are open, with the descriptors and the flag for errors, or the one that does
-- not open is reported, and a descriptor may be closed.
abbrev pub Described :
    Option Text
    → (opened tried closing : List Call) → (fd_in fd_out flag : Option ℕ) → (List Call → Shell)
    → Ret × IoCells
    → Shell
    → Type 0
Described none opened tried closing fd_in fd_out flag at (ret, cells) u =
    (ret ≡ success)
    × (cells.fd_in ≡ fd_in)
    × (cells.fd_out ≡ fd_out)
    × (cells.check_stderror ≡ flag)
    × (u ≡ at opened)
Described (some f) opened tried closing fd_in fd_out flag at (ret, cells) u =
    (ret ≡ fail) × (u ≡ at (closing ++ (print_err (system_error f) ∷ tried)))

abbrev pub close_call : Option ℕ → List Call
close_call none = []
close_call (some fd) = close fd ∷ []

module _ (file : Text → Option ℕ) where
  -- The descriptor of the last file of some types, or an old one.
  abbrev pub last_fd : (FileType → Bool) → Option ℕ → List (FileType × Text) → Option ℕ
  last_fd test old [] = old
  last_fd test old ((t, f) ∷ fs) = last_fd test (if test t then file f else old) fs

  -- The first file that does not open, and the files up to it.
  abbrev pub first_missing : List (FileType × Text) → Option Text
  first_missing [] = none
  first_missing ((t, f) ∷ fs) = elim (file f) [ none ↦ some f | some fd ↦ first_missing fs ]

  abbrev pub until_missing : List (FileType × Text) → List (FileType × Text)
  until_missing [] = []
  until_missing ((t, f) ∷ fs) = (t, f) ∷ elim (file f) [ none ↦ [] | some fd ↦ until_missing fs ]

  -- What is closed at the first file that does not open: the file that was opened last for the other
  -- direction, or what its variable held before.
  abbrev pub closing : (fd_in fd_out : Option ℕ) → List (FileType × Text) → List Call
  closing fd_in fd_out [] = []
  closing fd_in fd_out ((t, f) ∷ fs) = elim (file f) [
    | none ↦ close_call (if is_input t then fd_out else fd_in)
    | some fd ↦
        closing (if is_input t then some fd else fd_in) (if is_output t then some fd else fd_out) fs
  ]

  -- The last file of each kind is given, or the first one that does not open is reported.
  abbrev pub Opened : List (FileType × Text) → IoCells → Shell → Ret × IoCells → Shell → Type 0
  Opened fs c s =
      Described (first_missing fs) (opens fs s.calls) (opens (until_missing fs) s.calls)
        (closing c.fd_in c.fd_out fs) (last_fd is_input c.fd_in fs) (last_fd is_output c.fd_out fs)
        (if has_error fs then some 1 else c.check_stderror) (λ calls. record s { calls = calls })
