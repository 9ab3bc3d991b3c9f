-- ===== src/Exec/Placed.antt =====
-- What the redirections of a built-in command put in place of the descriptors 0, 1 and 2 of the shell.
use mathlib.Core.Option
use operating_system_profoli.Base.{
  ℕ, ◌≡◌, ◌≢◌, refl, sym, ◌∙◌, ap, inl, inr, Bool, true, false, Option, none, some, List, ◌∷◌, Text,
  if◌then◌else◌, ◌==◌, Bool-cases, ==_iff, arith, write_self,
}
use operating_system_profoli.Command.{Redirects}
use operating_system_profoli.Shell.{Shell, Os, Call, close, dup2, o_rdonly, done}
use operating_system_profoli.Shell.Descriptors.{files, opened}
use operating_system_profoli.Redirect.Described.{last_input, takes_errors}
use operating_system_profoli.Redirect.Held.{IsOpen, Held, InputOf}
use operating_system_profoli.Exec.{is_one, redirect_shell}
use operating_system_profoli.Exec.Saved.{
  Saved, Saved-close, Saved-dup2, IsStandard, past_close, past_dup2, at_dup2,
}

-- The calls of `redirect_shell`, for the variables that func_IORedirection fills.
abbrev pub placed_in : Bool → List Call → List Call
placed_in b calls = if b then close 1 ∷ dup2 1 0 ∷ calls else calls

abbrev pub placed_out : Option ℕ → List Call → List Call
placed_out none calls = calls
placed_out (some fd) calls = close fd ∷ dup2 fd 1 ∷ calls

is_one-other : (v : Option ℕ) → v ≢ some 1 → is_one v ≡ false
is_one-other none h = refl
is_one-other (some n) h = elim (Bool-cases (n == 1)) [
  | inl e ↦ absurd (h (ap some ((==_iff n 1).0 e)))
  | inr e ↦ e
]

placed_out-run :
    (fd_out is_stderr : Option ℕ) (s : Shell)
    → is_stderr ≢ some 1
    → redirect_shell none fd_out is_stderr s
      ≡ done tt (record s { calls = placed_out fd_out s.calls })
unfolding redirect_shell
placed_out-run none is_stderr s other = refl
placed_out-run (some fd) is_stderr s other = rw (is_one-other is_stderr other)

pub redirect_shell_lem :
    (b : Bool) (fd_in fd_out is_stderr : Option ℕ) (s : Shell)
    → fd_in ≡ (if b then some 1 else none)
    → is_stderr ≢ some 1
    → redirect_shell fd_in fd_out is_stderr s
      ≡ done tt (record s { calls = placed_out fd_out (placed_in b s.calls) })
unfolding redirect_shell
redirect_shell_lem true fd_in fd_out is_stderr s e other =
    rw e (placed_out-run fd_out is_stderr (record s { calls = close 1 ∷ dup2 1 0 ∷ s.calls }) other)
redirect_shell_lem false fd_in fd_out is_stderr s e other =
    rw e (placed_out-run fd_out is_stderr s other)

module _ (os : Os) where
  placed_in-Saved :
      (before calls : List Call) (i o e : ℕ) (b : Bool)
      → IsStandard os before
      → Saved os before calls i o e
      → Saved os before (placed_in b calls) i o e
  placed_in-Saved before calls i o e true std h =
      Saved-close os before (dup2 1 0 ∷ calls) i o e 1 std.1
        (Saved-dup2 os before calls i o e 1 0 std.0 h)
  placed_in-Saved before calls i o e false std h = h

  pub placed-Saved :
      (before calls : List Call) (i o e : ℕ) (b : Bool) (fd_out : Option ℕ)
      → IsStandard os before
      → Held os before fd_out
      → Saved os before calls i o e
      → Saved os before (placed_out fd_out (placed_in b calls)) i o e
  placed-Saved before calls i o e b none std held h = placed_in-Saved before calls i o e b std h
  placed-Saved before calls i o e b (some fd) std held h =
      Saved-close os before (dup2 fd 1 ∷ placed_in b calls) i o e fd held (
        Saved-dup2 os before (placed_in b calls) i o e fd 1 std.1
          (placed_in-Saved before calls i o e b std h))

  -- Descriptor 1 is the last input file; without one it is closed or as it was.
  abbrev pub Target : Option Text → Bool → List Call → List Call → Type 0
  Target none b first calls = files os calls 1 ≡ (if b then none else files os first 1)
  Target (some f) b first calls = (n : ℕ) × (files os calls 1 ≡ some (opened f o_rdonly n))

  -- What the code makes of the redirections of a built-in command. The variables that it hands to
  -- func_IORedirection stand in another order than the parameters.
  abbrev pub RedirectedBy : Redirects → List Call → List Call → Type 0
  RedirectedBy r first calls =
      (files os calls 0 ≡ (if takes_errors r then files os first 1 else files os first 0))
      × Target (last_input r) (takes_errors r) first calls
      × (files os calls 2 ≡ files os first 2)

  in_zero :
      (b : Bool) (calls : List Call)
      → files os (placed_in b calls) 0 ≡ (if b then files os calls 1 else files os calls 0)
  in_zero true calls =
      past_close os 1 0 (dup2 1 0 ∷ calls) (λ q. omega (arith, q)) ∙ at_dup2 os 1 0 calls
  in_zero false calls = refl

  in_one :
      (b : Bool) (calls : List Call)
      → files os (placed_in b calls) 1 ≡ (if b then none else files os calls 1)
  unfolding files
  in_one true calls = write_self (files os (dup2 1 0 ∷ calls)) 1 none
  in_one false calls = refl

  in_other :
      (b : Bool) (fd : ℕ) (calls : List Call)
      → fd ≢ 0
      → fd ≢ 1
      → files os (placed_in b calls) fd ≡ files os calls fd
  in_other true fd calls n0 n1 =
      past_close os 1 fd (dup2 1 0 ∷ calls) n1 ∙ past_dup2 os 1 0 fd calls n0
  in_other false fd calls n0 n1 = refl

  module _ (first before calls : List Call) (b : Bool) (std : IsStandard os first)
      (same : (fd : ℕ) → IsOpen os first fd → files os calls fd ≡ files os first fd) where
    zero_placed :
        files os (placed_in b calls) 0 ≡ (if b then files os first 1 else files os first 0)
    zero_placed =
        in_zero b calls
        ∙ ap (λ x. if b then x else files os calls 0) (same 1 std.1)
        ∙ ap (λ x. if b then files os first 1 else x) (same 0 std.0)

    by_input :
        (o : Option Text) (fd_out : Option ℕ)
        → ((fd : ℕ) → IsOpen os before fd → files os calls fd ≡ files os before fd)
        → InputOf os o none first fd_out before
        → (files os (placed_out fd_out (placed_in b calls)) 0
            ≡ (if b then files os first 1 else files os first 0))
          × Target o b first (placed_out fd_out (placed_in b calls))
          × (files os (placed_out fd_out (placed_in b calls)) 2 ≡ files os first 2)
    by_input none fd_out kept empty = rw empty (
      zero_placed,
      in_one b calls ∙ ap (λ x. if b then none else x) (same 1 std.1),
      in_other b 2 calls (λ q. omega (arith, q)) (λ q. omega (arith, q)) ∙ same 2 std.2,
    )
    by_input (some f) fd_out kept (fd, n, holds, file, fresh) =
        let c1 = placed_in b calls in
        rw holds (
          past_close os fd 0 (dup2 fd 1 ∷ c1) (fresh 0 std.0)
              ∙ past_dup2 os fd 1 0 c1 (λ q. omega (arith, q))
              ∙ zero_placed,
          (
            n,
            past_close os fd 1 (dup2 fd 1 ∷ c1) (fresh 1 std.1)
                ∙ at_dup2 os fd 1 c1
                ∙ in_other b fd calls (λ q. fresh 0 std.0 (sym q)) (λ q. fresh 1 std.1 (sym q))
                ∙ kept fd (λ none_there. Option.none-ne-some _ (sym none_there ∙ file))
                ∙ file,
          ),
          past_close os fd 2 (dup2 fd 1 ∷ c1) (fresh 2 std.2)
              ∙ past_dup2 os fd 1 2 c1 (λ q. omega (arith, q))
              ∙ in_other b 2 calls (λ q. omega (arith, q)) (λ q. omega (arith, q))
              ∙ same 2 std.2,
        )

  -- From calls after which the open descriptors stand for what they stood for at first.
  pub placed-RedirectedBy :
      (r : Redirects) (first before calls : List Call) (fd_out : Option ℕ)
      → IsStandard os first
      → ((fd : ℕ) → IsOpen os first fd → files os calls fd ≡ files os first fd)
      → ((fd : ℕ) → IsOpen os before fd → files os calls fd ≡ files os before fd)
      → InputOf os (last_input r) none first fd_out before
      → RedirectedBy r first (placed_out fd_out (placed_in (takes_errors r) calls))
  placed-RedirectedBy r first before calls fd_out std same kept input =
      by_input first before calls (takes_errors r) std same (last_input r) fd_out kept input
