-- ===== src/Memory/Owned.antt =====
-- Lists of blocks up to order, and runs that free or leave a given list.
use mathlib.Core.List.{append_assoc}
use operating_system_profoli.Base.{
  ℕ, ◌+◌, ◌≤◌, ◌≡◌, refl, sym, ◌∙◌, ap, false, Option, some, List, [], ◌∷◌, ◌++◌, ◌==◌, without,
  arith, ==_iff,
}
use operating_system_profoli.Memory.{one_of, occurrences, Memory, and_then, ◌>>◌, use_block, free}

-- The same blocks, each as often.
abbrev pub Same : List ℕ → List ℕ → Type 0
Same xs ys = (b : ℕ) → occurrences b xs ≡ occurrences b ys

pub occurrences-append :
    (b : ℕ) (xs ys : List ℕ) → occurrences b (xs ++ ys) ≡ occurrences b xs + occurrences b ys
unfolding occurrences
occurrences-append b [] ys = omega arith
occurrences-append b (x ∷ xs) ys = omega (arith, occurrences-append b xs ys)

pub occurrences-without :
    (b c : ℕ) (xs : List ℕ)
    → 1 ≤ occurrences c xs
    → one_of b c + occurrences b (without c xs) ≡ occurrences b xs
unfolding occurrences one_of
occurrences-without b c [] h = absurd (omega arith)
occurrences-without b c (x ∷ xs) h = ground (arith, occurrences-without b c xs)

pub one_of_self : (b : ℕ) → one_of b b ≡ 1
unfolding one_of
one_of_self b = rw ((==_iff b b).1 refl)

-- A block at the head is live.
pub head-live :
    (b : ℕ) (live rest : List ℕ) → Same live (b ∷ rest) → (occurrences b live == 0) ≡ false
unfolding occurrences
head-live b live rest h = ground (arith, h b, one_of_self b)

-- From the blocks of a list, whatever else is live, the run returns, and leaves what else was live.
abbrev pub Frees : Memory (Unit {0}) → List ℕ → Type 0
Frees m blocks =
    (live rest : List ℕ)
    → Same live (blocks ++ rest)
    → (live' : List ℕ) × (m live ≡ some (tt, live')) × Same live' rest

pub Frees-free : (b : ℕ) → Frees (free b) (b ∷ [])
unfolding free occurrences
Frees-free b live rest h = (
  without b live,
  rw (head-live b live rest h) refl,
  λ c. omega (arith, h c, occurrences-without c b live (ground (arith, h b, one_of_self b))),
)

pub Frees-then :
    (m k : Memory (Unit {0})) (xs ys : List ℕ) → Frees m xs → Frees k ys → Frees (m >> k) (xs ++ ys)
Frees-then m k xs ys first second live rest h =
    let (live', run, left) =
      first live (ys ++ rest) (λ b. h b ∙ ap (occurrences b) (append_assoc xs ys rest)) in
    let (live'', run', left') = second live' rest left in (live'', rw (run, run'), left')

pub Frees-mono : (m : Memory (Unit {0})) (xs ys : List ℕ) → Same xs ys → Frees m xs → Frees m ys
Frees-mono m xs ys same frees live rest h = frees live rest λ b.
    h b
    ∙ occurrences-append b ys rest
    ∙ ap (λ n. n + occurrences b rest) (sym (same b))
    ∙ sym (occurrences-append b xs rest)

-- A block may be used before it is freed.
pub Frees-use :
    (b : ℕ) (m : Memory (Unit {0})) (xs : List ℕ)
    → 1 ≤ occurrences b xs
    → Frees m xs
    → Frees (use_block b >> m) xs
unfolding use_block
Frees-use b m xs here frees live rest h =
    let (live', run, left) = frees live rest h in
    let at : (occurrences b live == 0) ≡ false =
      ground (arith, h b, occurrences-append b xs rest) in
    (live', rw (at, run), left)

-- A run that returns a value with a property, which owns these blocks beside what else is live.
abbrev pub Makes :
    {A : Type 0} → (A → Type 0) → (A → List ℕ) → List ℕ → Option (A × List ℕ) → Type 0
Makes {A} P blocks rest o =
    (a : A) × (live' : List ℕ) × (o ≡ some (a, live')) × P a × Same live' (blocks a ++ rest)

pub occurrences-append_append :
    (b : ℕ) (xs ys zs : List ℕ)
    → occurrences b (xs ++ (ys ++ zs)) ≡ occurrences b xs + (occurrences b ys + occurrences b zs)
occurrences-append_append b xs ys zs =
    omega (arith, occurrences-append b xs (ys ++ zs), occurrences-append b ys zs)

pub Same-swap :
    (live xs ys zs : List ℕ) → Same live (xs ++ (ys ++ zs)) → Same live (ys ++ (xs ++ zs))
Same-swap live xs ys zs h b =
    omega (arith, h b, occurrences-append_append b xs ys zs, occurrences-append_append b ys xs zs)

-- A run goes on from what the one before it made.
pub Makes-then :
    {A B : Type 0} (P : A → Type 0) (Q : B → Type 0) (blocks : A → List ℕ) (blocks' : B → List ℕ)
    (rest rest' : List ℕ) (o : Option (A × List ℕ)) (k : A → Memory B)
    → Makes P blocks rest o
    → ((a : A) (live : List ℕ)
        → P a
        → Same live (blocks a ++ rest)
        → Makes Q blocks' rest' (k a live))
    → Makes Q blocks' rest' (and_then o k)
Makes-then P Q blocks blocks' rest rest' o k (a, live, run, is, left) next =
    let (b, live', run', is', left') = next a live is left in
    (b, live', ap (λ x. and_then x k) run ∙ run', is', left')

pub Makes-mono :
    {A : Type 0} (P Q : A → Type 0) (blocks : A → List ℕ) (rest : List ℕ) (o : Option (A × List ℕ))
    → ((a : A) → P a → Q a)
    → Makes P blocks rest o
    → Makes Q blocks rest o
Makes-mono P Q blocks rest o weaker (a, live, run, is, left) = (a, live, run, weaker a is, left)
