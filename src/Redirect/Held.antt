-- ===== src/Redirect/Held.antt =====
-- func_IORedirection and the descriptors that are open.
use mathlib.Core.Option
use operating_system_profoli.Base.{
  ℕ, ◌≡◌, ◌≢◌, refl, sym, ◌∙◌, ap, length, Option, none, some, List, ◌∷◌, Text, if◌then◌else◌,
  write, write_ne, write_self,
}
use operating_system_profoli.Command.{
  Redirects, no_redirect, file_redirect, pipe_redirect, FileType, redirect_in, redirect_out,
  redirect_error, append, append_error,
}
use operating_system_profoli.Shell.{Shell, Os, Call, OpenFlags, o_rdonly, open_file, done, success}
use operating_system_profoli.Shell.Descriptors.{opened, files}
use operating_system_profoli.Redirect.Described.{last_input, takes_errors, takes_errors-stderror}
use operating_system_profoli.Redirect.{IoCells, out_flags, stderror_after, func_io_redirection}

-- `open` and `dup` give descriptors that are not in use, and every file opens.
pub record Grants (os : Os) : Type 0 where
  pub opens :
      (calls : List Call) (f : Text) (flags : OpenFlags)
      → (n : ℕ) × (os.opened calls f flags ≡ some n) × (files os calls n ≡ none)
  pub dups : (calls : List Call) (fd : ℕ) → files os calls (os.dup_fd calls fd) ≡ none

module _ (os : Os) where
  abbrev pub IsOpen : List Call → ℕ → Type 0
  IsOpen calls fd = files os calls fd ≢ none

  -- A variable that holds -1 or an open descriptor.
  abbrev pub Held : List Call → Option ℕ → Type 0
  Held calls none = Unit {0}
  Held calls (some fd) = IsOpen calls fd

  -- What is open stays as it is.
  abbrev pub Extends : List Call → List Call → Type 0
  Extends calls calls' = (fd : ℕ) → IsOpen calls fd → files os calls' fd ≡ files os calls fd

  pub IsOpen-Extends :
      (calls calls' : List Call) (fd : ℕ)
      → Extends calls calls'
      → IsOpen calls fd
      → IsOpen calls' fd
  IsOpen-Extends calls calls' fd ext open_fd e = open_fd (sym (ext fd open_fd) ∙ e)

  pub Held-Extends :
      (calls calls' : List Call) (v : Option ℕ)
      → Extends calls calls'
      → Held calls v
      → Held calls' v
  Held-Extends calls calls' none ext h = tt
  Held-Extends calls calls' (some fd) ext h = IsOpen-Extends calls calls' fd ext h

  files_opened :
      (calls : List Call) (f : Text) (flags : OpenFlags) (n fd : ℕ)
      → os.opened calls f flags ≡ some n
      → files os (open_file f flags ∷ calls) fd
        ≡ write (files os calls) n (some (opened f flags (length calls))) fd
  unfolding files
  files_opened calls f flags n fd e = rw (files, e) refl

  open_file-Extends :
      (calls : List Call) (f : Text) (flags : OpenFlags) (n : ℕ)
      → os.opened calls f flags ≡ some n
      → files os calls n ≡ none
      → Extends calls (open_file f flags ∷ calls) × IsOpen (open_file f flags ∷ calls) n
  open_file-Extends calls f flags n e unused = (
    λ fd is_open.
        files_opened calls f flags n fd e
        ∙ write_ne (files os calls) n (some (opened f flags (length calls))) fd
            (λ same. is_open (ap (files os calls) same ∙ unused)),
    λ h. Option.none-ne-some (opened f flags (length calls)) (
        sym h
        ∙ files_opened calls f flags n n e
        ∙ write_self (files os calls) n (some (opened f flags (length calls)))),
  )

  stderror-Held :
      (calls : List Call) (t : FileType) (v : Option ℕ)
      → IsOpen calls 1
      → Held calls v
      → Held calls (stderror_after t v)
  stderror-Held calls redirect_error v one h = one
  stderror-Held calls append_error v one h = one
  stderror-Held calls redirect_out v one h = h
  stderror-Held calls append v one h = h
  stderror-Held calls redirect_in v one h = h

  -- What is in the variable for the input file: a new descriptor of the last one, or what was there.
  abbrev pub InputOf : Option Text → Option ℕ → List Call → Option ℕ → List Call → Type 0
  InputOf none old before new calls = new ≡ old
  InputOf (some f) old before new calls =
      (fd : ℕ) × (n : ℕ) × (new ≡ some fd)
      × (files os calls fd ≡ some (opened f o_rdonly n))
      × ((k : ℕ) → IsOpen before k → k ≢ fd)

  InputOf-earlier :
      (o : Option Text) (old : Option ℕ) (before calls1 : List Call) (new : Option ℕ)
      (calls : List Call)
      → Extends before calls1
      → InputOf o old calls1 new calls
      → InputOf o old before new calls
  InputOf-earlier none old before calls1 new calls ext h = h
  InputOf-earlier (some f) old before calls1 new calls ext (fd, n, e, file, fresh) =
      (fd, n, e, file, λ k open_k. fresh k (IsOpen-Extends before calls1 k ext open_k))

  InputOf-first :
      (o : Option Text) (f : Text) (old : Option ℕ) (before : List Call) (fd n : ℕ) (new : Option ℕ)
      (calls : List Call)
      → files os calls fd ≡ some (opened f o_rdonly n)
      → ((k : ℕ) → IsOpen before k → k ≢ fd)
      → InputOf o (some fd) before new calls
      → InputOf (elim o [ none ↦ some f | some g ↦ some g ]) old before new calls
  InputOf-first none f old before fd n new calls file fresh h = (fd, n, h, file, fresh)
  InputOf-first (some g) f old before fd n new calls file fresh h = h

  -- What a run of func_IORedirection that succeeds leaves.
  abbrev pub HoldsOpen : Redirects → IoCells → Shell → Type 0
  HoldsOpen r c s =
      (c' : IoCells) × (calls : List Call) × (func_io_redirection os r c s
        ≡ done (success, c') (record s { calls = calls }))
      × Extends s.calls calls
      × Held calls c'.check_stderror
      × Held calls c'.fd_in
      × (c'.check_stderror ≡ (if takes_errors r then some 1 else c.check_stderror))
      × InputOf (last_input r) c.fd_in s.calls c'.fd_in calls
      × (c'.fd_out ≢ some 1)

  -- A round with an output file, from what the later rounds leave.
  out-HoldsOpen :
      (t : FileType) (f : Text) (r : Redirects) (c : IoCells) (s : Shell)
      → Grants os
      → IsOpen s.calls 1
      → Held s.calls c.check_stderror
      → Held s.calls c.fd_in
      → last_input (file_redirect t f r) ≡ last_input r
      → ((c1 : IoCells) (s1 : Shell)
          → IsOpen s1.calls 1
          → Held s1.calls c1.check_stderror
          → Held s1.calls c1.fd_in
          → c1.fd_out ≢ some 1
          → HoldsOpen r c1 s1)
      → ((n : ℕ)
          → os.opened s.calls f (out_flags t) ≡ some n
          → func_io_redirection os (file_redirect t f r) c s
            ≡ func_io_redirection os r
                (record c { check_stderror = stderror_after t c.check_stderror; fd_out = some n })
                (record s { calls = open_file f (out_flags t) ∷ s.calls }))
      → HoldsOpen (file_redirect t f r) c s
  out-HoldsOpen t f r c s g one h i inputs rounds step =
      let (n, e, unused) = g.opens s.calls f (out_flags t) in
      let (ext, is_open) = open_file-Extends s.calls f (out_flags t) n e unused in
      let calls1 = open_file f (out_flags t) ∷ s.calls in
      let (c', calls, run, later, h', i', flag, input, out) =
        rounds (record c { check_stderror = stderror_after t c.check_stderror; fd_out = some n })
          (record s { calls = calls1 }) (IsOpen-Extends s.calls calls1 1 ext one)
          (Held-Extends s.calls calls1 (stderror_after t c.check_stderror) ext
            (stderror-Held s.calls t c.check_stderror one h))
          (Held-Extends s.calls calls1 c.fd_in ext i)
          (λ same. one (ap (files os s.calls) (sym (Option.some-injective n 1 same)) ∙ unused)) in
      (
        c',
        calls,
        step n e ∙ run,
        (λ fd o. later fd (IsOpen-Extends s.calls calls1 fd ext o) ∙ ext fd o),
        h',
        i',
        flag ∙ takes_errors-stderror t f r c.check_stderror,
        (rw inputs
            (InputOf-earlier (last_input r) c.fd_in s.calls calls1 c'.fd_in calls ext input)),
        out,
      )

  pub func_io_redirection-Held :
      (r : Redirects) (c : IoCells) (s : Shell)
      → Grants os
      → IsOpen s.calls 1
      → Held s.calls c.check_stderror
      → Held s.calls c.fd_in
      → c.fd_out ≢ some 1
      → HoldsOpen r c s
  unfolding func_io_redirection
  func_io_redirection-Held no_redirect c s g one h i d =
      (c, s.calls, refl, (λ fd _. refl), h, i, refl, refl, d)
  func_io_redirection-Held (pipe_redirect t p r) c s g one h i d =
      func_io_redirection-Held r c s g one h i d
  func_io_redirection-Held (file_redirect redirect_in f r) c s g one h i d =
      let (n, e, unused) = g.opens s.calls f o_rdonly in
      let (ext, is_open) = open_file-Extends s.calls f o_rdonly n e unused in
      let (c', calls, run, later, h', i', flag, input, out) =
        func_io_redirection-Held r (record c { fd_in = some n })
          (record s { calls = open_file f o_rdonly ∷ s.calls }) g
          (IsOpen-Extends s.calls (open_file f o_rdonly ∷ s.calls) 1 ext one)
          (Held-Extends s.calls (open_file f o_rdonly ∷ s.calls) c.check_stderror ext h) is_open
          d in
      (
        c',
        calls,
        rw e run,
        (λ fd o.
            later fd (IsOpen-Extends s.calls (open_file f o_rdonly ∷ s.calls) fd ext o) ∙ ext fd o),
        h',
        i',
        flag,
        InputOf-first (last_input r) f c.fd_in s.calls n (length s.calls) c'.fd_in calls
            (later n is_open
              ∙ files_opened s.calls f o_rdonly n n e
              ∙ write_self (files os s.calls) n (some (opened f o_rdonly (length s.calls))))
            (λ k open_k same. open_k (ap (files os s.calls) same ∙ unused))
            (InputOf-earlier (last_input r) (some n) s.calls (open_file f o_rdonly ∷ s.calls)
              c'.fd_in calls ext input),
        out,
      )
  func_io_redirection-Held (file_redirect redirect_out f r) c s g one h i d =
      out-HoldsOpen redirect_out f r c s g one h i refl
        (λ c1 s1. func_io_redirection-Held r c1 s1 g) λ n e. rw e refl
  func_io_redirection-Held (file_redirect redirect_error f r) c s g one h i d =
      out-HoldsOpen redirect_error f r c s g one h i refl
        (λ c1 s1. func_io_redirection-Held r c1 s1 g) λ n e. rw e refl
  func_io_redirection-Held (file_redirect append f r) c s g one h i d =
      out-HoldsOpen append f r c s g one h i refl (λ c1 s1. func_io_redirection-Held r c1 s1 g)
        λ n e. rw e refl
  func_io_redirection-Held (file_redirect append_error f r) c s g one h i d =
      out-HoldsOpen append_error f r c s g one h i refl
        (λ c1 s1. func_io_redirection-Held r c1 s1 g) λ n e. rw e refl
