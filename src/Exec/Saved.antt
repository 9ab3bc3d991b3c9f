-- ===== src/Exec/Saved.antt =====
-- The descriptors that the shell saves around a built-in command.
use operating_system_profoli.Base.{
  ℕ, ◌≡◌, ◌≢◌, sym, ◌∙◌, ap, none, List, ◌∷◌, write_ne, write_self, arith,
}
use operating_system_profoli.Shell.{Os, Call, dup2, dup, close}
use operating_system_profoli.Shell.Descriptors.{files}
use operating_system_profoli.Redirect.Held.{Grants, IsOpen}

module _ (os : Os) where
  pub past_close :
      (x fd : ℕ) (calls : List Call) → fd ≢ x → files os (close x ∷ calls) fd ≡ files os calls fd
  unfolding files
  past_close x fd calls h = write_ne (files os calls) x none fd h

  pub past_dup2 :
      (old new fd : ℕ) (calls : List Call)
      → fd ≢ new
      → files os (dup2 old new ∷ calls) fd ≡ files os calls fd
  unfolding files
  past_dup2 old new fd calls h = write_ne (files os calls) new (files os calls old) fd h

  pub at_dup2 :
      (old new : ℕ) (calls : List Call) → files os (dup2 old new ∷ calls) new ≡ files os calls old
  unfolding files
  at_dup2 old new calls = write_self (files os calls) new (files os calls old)

  past_dup :
      (old fd : ℕ) (calls : List Call)
      → fd ≢ os.dup_fd calls old
      → files os (dup old ∷ calls) fd ≡ files os calls fd
  unfolding files
  past_dup old fd calls h =
      write_ne (files os calls) (os.dup_fd calls old) (files os calls old) fd h

  at_dup :
      (old : ℕ) (calls : List Call)
      → files os (dup old ∷ calls) (os.dup_fd calls old) ≡ files os calls old
  unfolding files
  at_dup old calls = write_self (files os calls) (os.dup_fd calls old) (files os calls old)

  -- An open descriptor is none that is not in use.
  apart : (calls : List Call) (x y : ℕ) → IsOpen os calls x → files os calls y ≡ none → y ≢ x
  apart calls x y is_open unused same = is_open (ap (files os calls) (sym same) ∙ unused)

  -- Three descriptors, not in use before, that hold what the standard ones stood for.
  pub record Saved (before calls : List Call) (i o e : ℕ) : Type 0 where
    pub i_file : files os calls i ≡ files os before 0
    pub o_file : files os calls o ≡ files os before 1
    pub e_file : files os calls e ≡ files os before 2
    pub i_new : files os before i ≡ none
    pub o_new : files os before o ≡ none
    pub e_new : files os before e ≡ none
    pub i_o : i ≢ o
    pub e_i : e ≢ i
    pub e_o : e ≢ o

  pub Saved-dup2 :
      (before calls : List Call) (i o e old new : ℕ)
      → IsOpen os before new
      → Saved before calls i o e
      → Saved before (dup2 old new ∷ calls) i o e
  Saved-dup2 before calls i o e old new is_open h = record {
    i_file = past_dup2 old new i calls (apart before new i is_open h.i_new) ∙ h.i_file;
    o_file = past_dup2 old new o calls (apart before new o is_open h.o_new) ∙ h.o_file;
    e_file = past_dup2 old new e calls (apart before new e is_open h.e_new) ∙ h.e_file;
    i_new = h.i_new;
    o_new = h.o_new;
    e_new = h.e_new;
    i_o = h.i_o;
    e_i = h.e_i;
    e_o = h.e_o;
  }

  pub Saved-close :
      (before calls : List Call) (i o e x : ℕ)
      → IsOpen os before x
      → Saved before calls i o e
      → Saved before (close x ∷ calls) i o e
  Saved-close before calls i o e x is_open h = record {
    i_file = past_close x i calls (apart before x i is_open h.i_new) ∙ h.i_file;
    o_file = past_close x o calls (apart before x o is_open h.o_new) ∙ h.o_file;
    e_file = past_close x e calls (apart before x e is_open h.e_new) ∙ h.e_file;
    i_new = h.i_new;
    o_new = h.o_new;
    e_new = h.e_new;
    i_o = h.i_o;
    e_i = h.e_i;
    e_o = h.e_o;
  }

  -- The standard descriptors stand for the same in both.
  abbrev pub SameStandard : List Call → List Call → Type 0
  SameStandard calls calls' =
      (files os calls 0 ≡ files os calls' 0)
      × (files os calls 1 ≡ files os calls' 1)
      × (files os calls 2 ≡ files os calls' 2)

  abbrev pub IsStandard : List Call → Type 0
  IsStandard calls = IsOpen os calls 0 × IsOpen os calls 1 × IsOpen os calls 2

  abbrev pub restored : (i o e : ℕ) → List Call → List Call
  restored i o e calls = close e ∷ dup2 e 2 ∷ close o ∷ dup2 o 1 ∷ close i ∷ dup2 i 0 ∷ calls

  pub restored-Same :
      (before calls : List Call) (i o e : ℕ)
      → IsStandard before
      → Saved before calls i o e
      → SameStandard (restored i o e calls) before
  restored-Same before calls i o e open_std h =
      let not_i =
        λ (k : ℕ) (p : IsOpen os before k) (q : k ≡ i). apart before k i p h.i_new (sym q) in
      let not_o =
        λ (k : ℕ) (p : IsOpen os before k) (q : k ≡ o). apart before k o p h.o_new (sym q) in
      let not_e =
        λ (k : ℕ) (p : IsOpen os before k) (q : k ≡ e). apart before k e p h.e_new (sym q) in
      let c1 = dup2 i 0 ∷ calls in
      let c2 = close i ∷ c1 in
      let c3 = dup2 o 1 ∷ c2 in
      let c4 = close o ∷ c3 in
      let c5 = dup2 e 2 ∷ c4 in
      (
        past_close e 0 c5 (not_e 0 open_std.0)
            ∙ past_dup2 e 2 0 c4 (λ q. omega (arith, q))
            ∙ past_close o 0 c3 (not_o 0 open_std.0)
            ∙ past_dup2 o 1 0 c2 (λ q. omega (arith, q))
            ∙ past_close i 0 c1 (not_i 0 open_std.0)
            ∙ at_dup2 i 0 calls
            ∙ h.i_file,
        past_close e 1 c5 (not_e 1 open_std.1)
            ∙ past_dup2 e 2 1 c4 (λ q. omega (arith, q))
            ∙ past_close o 1 c3 (not_o 1 open_std.1)
            ∙ at_dup2 o 1 c2
            ∙ past_close i o c1 (λ q. h.i_o (sym q))
            ∙ past_dup2 i 0 o calls (λ q. not_o 0 open_std.0 (sym q))
            ∙ h.o_file,
        past_close e 2 c5 (not_e 2 open_std.2)
            ∙ at_dup2 e 2 c4
            ∙ past_close o e c3 h.e_o
            ∙ past_dup2 o 1 e c2 (λ q. not_e 1 open_std.1 (sym q))
            ∙ past_close i e c1 h.e_i
            ∙ past_dup2 i 0 e calls (λ q. not_e 0 open_std.0 (sym q))
            ∙ h.e_file,
      )

  -- The calls of the three `dup`, and their answers.
  abbrev pub saved_o : List Call → ℕ
  saved_o calls = os.dup_fd calls 1

  abbrev pub saved_i : List Call → ℕ
  saved_i calls = os.dup_fd (dup 1 ∷ calls) 0

  abbrev pub saved_e : List Call → ℕ
  saved_e calls = os.dup_fd (dup 0 ∷ dup 1 ∷ calls) 2

  -- `dup` leaves what is open, and gives a descriptor that was not open.
  dup-new :
      (old fd : ℕ) (calls : List Call)
      → Grants os
      → files os (dup old ∷ calls) fd ≡ none
      → IsOpen os calls old
      → (fd ≢ os.dup_fd calls old) × (files os calls fd ≡ none)
  dup-new old fd calls g unused is_open =
      let ne = λ (q : fd ≡ os.dup_fd calls old).
        is_open (sym (at_dup old calls) ∙ ap (files os (dup old ∷ calls)) (sym q) ∙ unused) in
      (ne, sym (past_dup old fd calls ne) ∙ unused)

  pub dup-old :
      (old fd : ℕ) (calls : List Call)
      → Grants os
      → IsOpen os calls fd
      → files os (dup old ∷ calls) fd ≡ files os calls fd
  dup-old old fd calls g is_open =
      past_dup old fd calls
        λ q. apart calls fd (os.dup_fd calls old) is_open (g.dups calls old) (sym q)

  -- The three `dup` leave what is open.
  pub dups-old :
      (calls : List Call) (fd : ℕ)
      → Grants os
      → IsOpen os calls fd
      → files os (dup 2 ∷ dup 0 ∷ dup 1 ∷ calls) fd ≡ files os calls fd
  dups-old calls fd g is_open =
      let d1 = dup 1 ∷ calls in
      let one = dup-old 1 fd calls g is_open in
      let two = dup-old 0 fd d1 g (λ q. is_open (sym one ∙ q)) in
      dup-old 2 fd (dup 0 ∷ d1) g (λ q. is_open (sym one ∙ sym two ∙ q)) ∙ two ∙ one

  pub dups-Saved :
      (calls : List Call)
      → Grants os
      → IsStandard calls
      → Saved calls (dup 2 ∷ dup 0 ∷ dup 1 ∷ calls) (saved_i calls) (saved_o calls) (saved_e calls)
  dups-Saved calls g std =
      let o = saved_o calls in
      let i = saved_i calls in
      let e = saved_e calls in
      let d1 = dup 1 ∷ calls in
      let d2 = dup 0 ∷ d1 in
      let (i_o, i_new) = dup-new 1 i calls g (g.dups d1 0) std.1 in
      let zero_1 = dup-old 1 0 calls g std.0 in
      let two_1 = dup-old 1 2 calls g std.2 in
      let two_2 = dup-old 0 2 d1 g (λ q. std.2 (sym two_1 ∙ q)) in
      let (e_i, e_1) = dup-new 0 e d1 g (g.dups d2 2) (λ q. std.0 (sym zero_1 ∙ q)) in
      let (e_o, e_new) = dup-new 1 e calls g e_1 std.1 in
      record {
        i_file = past_dup 2 i d2 (λ q. e_i (sym q)) ∙ at_dup 0 d1 ∙ zero_1;
        o_file =
            past_dup 2 o d2 (λ q. e_o (sym q))
            ∙ past_dup 0 o d1 (λ q. i_o (sym q))
            ∙ at_dup 1 calls;
        e_file = at_dup 2 d2 ∙ two_2 ∙ two_1;
        i_new = i_new;
        o_new = g.dups calls 1;
        e_new = e_new;
        i_o = i_o;
        e_i = e_i;
        e_o = e_o;
      }
