-- ===== src/Shell/Descriptors.antt =====
-- What the descriptors stand for after the calls that the shell has made.
use operating_system_profoli.Base.{
  ℕ, ◌≡◌, refl, ◌∙◌, Bool, true, false, Option, none, some, List, [], ◌∷◌, Text, ltb, length, write,
  if◌then◌else◌,
}
use operating_system_profoli.Shell.{
  Shell, Cmd, Os, OpenFlags, Call, Outcome, dup2, dup, close, open_file, open_pipe, pure, ◌>>=◌,
  Message, say, complain, some_or_fault, undefined, strcpy_word, fits,
}
use operating_system_profoli.Shell.Returns.{IfReturns, IfReturns-and_then, IfReturns-mono}

-- What a descriptor can stand for. A file or a pipe is known by the number of calls before it was opened.
pub data OpenFile : Type 0 where
  inherited : ℕ → OpenFile
  opened : Text → OpenFlags → ℕ → OpenFile
  read_end write_end : ℕ → OpenFile

unfoldable pub files : Os → List Call → ℕ → Option OpenFile
files os [] fd = if ltb fd 3 then some (inherited fd) else none
files os (dup2 old new ∷ calls) fd = write (files os calls) new (files os calls old) fd
files os (dup old ∷ calls) fd = write (files os calls) (os.dup_fd calls old) (files os calls old) fd
files os (close old ∷ calls) fd = write (files os calls) old none fd
files os (open_file f flags ∷ calls) fd = elim (os.opened calls f flags) [
  | none ↦ files os calls fd
  | some n ↦ write (files os calls) n (some (opened f flags (length calls))) fd
]
files os (open_pipe ∷ calls) fd = elim (os.pipe_fds calls) [
  | none ↦ files os calls fd
  | some (r, w) ↦
      write (write (files os calls) r (some (read_end (length calls)))) w
        (some (write_end (length calls))) fd
]
files os (c ∷ calls) fd = files os calls fd

module _ (os : Os) where
  -- A run after which each descriptor stands for what it stood for before.
  abbrev pub Keeps : {A : Type 0} → Cmd A → Type 0
  Keeps m =
      (s : Shell) → IfReturns (λ _ t. (fd : ℕ) → files os t.calls fd ≡ files os s.calls fd) (m s)

  pub Keeps-pure : {A : Type 0} (a : A) → Keeps (pure a)
  Keeps-pure a s fd = refl

  pub Keeps-then :
      {A B : Type 0} (m : Cmd A) (k : A → Cmd B)
      → Keeps m
      → ((a : A) → Keeps (k a))
      → Keeps (m >>= k)
  Keeps-then m k first next s =
      IfReturns-and_then (λ _ t. (fd : ℕ) → files os t.calls fd ≡ files os s.calls fd)
        (λ _ t. (fd : ℕ) → files os t.calls fd ≡ files os s.calls fd) (m s) k (first s)
        λ a t e.
          IfReturns-mono (λ _ u. (fd : ℕ) → files os u.calls fd ≡ files os t.calls fd) _ (k a t)
            (next a t) λ b u f fd. f fd ∙ e fd

  pub Keeps-if :
      {A : Type 0} (b : Bool) (m n : Cmd A) → Keeps m → Keeps n → Keeps (if b then m else n)
  Keeps-if true m n p q = p
  Keeps-if false m n p q = q

  pub Keeps-say : (m : Message) → Keeps (say m)
  unfolding files
  Keeps-say m s fd = refl

  pub Keeps-complain : (m : Message) → Keeps (complain m)
  unfolding files
  Keeps-complain m s fd = refl

  pub Keeps-some : {A : Type 0} (o : Option A) → Keeps (some_or_fault o)
  Keeps-some none = λ s. tt
  Keeps-some (some a) = Keeps-pure a

  pub Keeps-strcpy : (t : Text) → Keeps (strcpy_word t)
  Keeps-strcpy t = Keeps-if (fits t) (pure t) undefined (Keeps-pure t) (λ s. tt)

  -- A run of which the state is given.
  abbrev pub KeptBy : {A : Type 0} → Shell → Outcome A → Type 0
  KeptBy s o = IfReturns (λ _ t. (fd : ℕ) → files os t.calls fd ≡ files os s.calls fd) o

  pub KeptBy-if :
      {A : Type 0} (s : Shell) (b : Bool) (x y : Outcome A)
      → KeptBy s x
      → KeptBy s y
      → KeptBy s (if b then x else y)
  KeptBy-if s true x y p q = p
  KeptBy-if s false x y p q = q

  pub KeptBy-option :
      {A B : Type 0} (s : Shell) (o : Option A) (x : Outcome B) (f : A → Outcome B)
      → KeptBy s x
      → ((a : A) → KeptBy s (f a))
      → KeptBy s (elim o [ none ↦ x | some a ↦ f a ])
  KeptBy-option s none x f p q = p
  KeptBy-option s (some a) x f p q = q a

  -- A run that may look at the state first.
  pub Keeps-option :
      {A B : Type 0} (o : Option A) (n : Cmd B) (f : A → Cmd B)
      → Keeps n
      → ((a : A) → Keeps (f a))
      → Keeps (elim o [ none ↦ n | some a ↦ f a ])
  Keeps-option none n f p q = p
  Keeps-option (some a) n f p q = q a

  pub Keeps-state :
      {A : Type 0} (m : Shell → Cmd A) → ((s : Shell) → Keeps (m s)) → Keeps (λ s. m s s)
  Keeps-state m h s = h s s
