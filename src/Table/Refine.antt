-- ===== src/Table/Refine.antt =====
-- The loops over the arrays do to the entries what the list functions do.
use operating_system_profoli.Base.{
  ℕ, zero, suc, ◌+◌, ◌-◌, ◌≤◌, ◌<◌, ◌≡◌, refl, sym, ◌∙◌, ap, inl, inr, none, some, ◌∷◌, Text,
  str_eq, str_eq→≡, arith, Bool-cases, write, slice, shift_down, write_self, write_ne,
  slice-write_out, slice_ext, shift_down_moved, shift_down_below,
}
use mathlib.Core.Path.{subst}
use mathlib.Core.Option
use mathlib.Core.Option.{some-injective, some-ne-none, none-ne-some}
use operating_system_profoli.Table.{find, lookup, insert, delete}

-- The loop stops at the first entry with the key, or passes them all.
pub find-some :
    (keys : ℕ → Text) (k : Text) (i n : ℕ) {m : ℕ}
    → find keys k i n ≡ some m
    → (i ≤ m) × (m < i + n) × (keys m ≡ k)
unfolding find
find-some keys k i zero h = cc
find-some keys k i (suc n) {m} h = elim (Bool-cases (str_eq (keys i) k)) [
  | inl e ↦
      let here : i ≡ m = some-injective i m (rw e at h) in
      rw (← here) (omega arith, omega arith, str_eq→≡ (keys i) k e)
  | inr e ↦
      let (low, high, same) = find-some keys k (suc i) n (rw e at h) in
      (omega arith, omega arith, same)
]

module _ {A : Type 0} (key : A → Text) where
  -- `find` meets the entry that `lookup` finds.
  pub lookup-slice :
      (a : ℕ → A) (k : Text) (i n : ℕ)
      → lookup key k (slice a i n) ≡ Option.map a (find (λ j. key (a j)) k i n)
  unfolding lookup slice find
  lookup-slice a k i zero = refl
  lookup-slice a k i (suc n) = elim (Bool-cases (str_eq (key (a i)) k)) [
    | inl e ↦ rw e
    | inr e ↦ rw e (lookup-slice a k (suc i) n)
  ]

  -- A write at the hit is an insertion.
  pub insert-hit :
      (a : ℕ → A) (x : A) (i n : ℕ) {m : ℕ}
      → find (λ j. key (a j)) (key x) i n ≡ some m
      → slice (write a m x) i n ≡ insert key x (slice a i n)
  unfolding find slice insert
  insert-hit a x i zero h = cc
  insert-hit a x i (suc n) {m} h = elim (Bool-cases (str_eq (key (a i)) (key x))) [
    | inl e ↦
        subst (λ t. slice (write a t x) i (suc n) ≡ insert key x (slice a i (suc n)))
          (some-injective i m (rw e at h))
          (rw (e, write_self a i x)
            (ap (λ l. x ∷ l) (slice-write_out a x i (suc i) n λ j lt q. omega arith)))
    | inr e ↦
        let later : find (λ j. key (a j)) (key x) (suc i) n ≡ some m = rw e at h in
        rw
          (
            e,
            write_ne a m x i λ q. omega (arith, find-some (λ j. key (a j)) (key x) (suc i) n later),
          )
          (ap (λ l. a i ∷ l) (insert-hit a x (suc i) n later))
  ]

  -- A write behind the entries, where there was no hit, is one too.
  pub insert-miss :
      (a : ℕ → A) (x : A) (i n m : ℕ)
      → m ≡ i + n
      → find (λ j. key (a j)) (key x) i n ≡ none
      → slice (write a m x) i (suc n) ≡ insert key x (slice a i n)
  unfolding find slice insert
  insert-miss a x i zero m e h = let here : m ≡ i = omega arith in rw here (rw (write_self a i x))
  insert-miss a x i (suc n) m e h = elim (Bool-cases (str_eq (key (a i)) (key x))) [
    | inl q ↦ absurd (some-ne-none i (rw q at h))
    | inr q ↦
        rw (q, write_ne a m x i λ p. omega arith)
          (ap (λ l. a i ∷ l) (insert-miss a x (suc i) n m (omega arith) (rw q at h)))
  ]

  drop_first :
      (a : ℕ → A) (i n r m : ℕ)
      → m ≡ i
      → suc m + r ≡ i + suc n
      → slice (shift_down a m r) i n ≡ slice a (suc i) n
  drop_first a i n r m here e =
      let all : r ≡ n = omega arith in
      rw (here, all)
        (slice_ext (shift_down a i n) a i (suc i) n λ j lt.
          shift_down_moved a i n (i + j) (omega arith) (omega arith)
          ∙ ap a (let e : suc (i + j) ≡ suc i + j = omega arith in e))

  -- Moving the later entries down by one is a deletion.
  pub delete-hit :
      (a : ℕ → A) (k : Text) (i n r : ℕ) {m : ℕ}
      → find (λ j. key (a j)) k i (suc n) ≡ some m
      → suc m + r ≡ i + suc n
      → slice (shift_down a m r) i n ≡ delete key k (slice a i (suc n))
  unfolding find slice delete
  delete-hit a k i zero r {m} h e = elim (Bool-cases (str_eq (key (a i)) k)) [
    | inl q ↦ rw q
    | inr q ↦ absurd (none-ne-some m (rw q at h))
  ]
  delete-hit a k i (suc n) r {m} h e = elim (Bool-cases (str_eq (key (a i)) k)) [
    | inl q ↦ rw q (drop_first a i (suc n) r m (sym (some-injective i m (rw q at h))) (omega arith))
    | inr q ↦
        let later : find (λ j. key (a j)) k (suc i) (suc n) ≡ some m = rw q at h in
        let above : suc i ≤ m = (find-some (λ j. key (a j)) k (suc i) (suc n) later).0 in
        rw (q, shift_down_below a m r i above)
          (ap (λ l. a i ∷ l) (delete-hit a k (suc i) n r later (omega arith)))
  ]

  -- The same for a whole table, with the bounds that the code computes.
  pub delete-found :
      (a : ℕ → A) (k : Text) (n m : ℕ)
      → find (λ j. key (a j)) k 0 n ≡ some m
      → slice (shift_down a m (n - suc m)) 0 (n - 1) ≡ delete key k (slice a 0 n)
  delete-found a k zero m h = absurd (none-ne-some m (unfold find in h))
  delete-found a k (suc n) m h =
      let less : suc n - 1 ≡ n = omega arith in
      rw less (
        delete-hit a k 0 n (suc n - suc m) h
          (omega (arith, find-some (λ j. key (a j)) k 0 (suc n) h)))

  pub delete-miss :
      (a : ℕ → A) (k : Text) (i n : ℕ)
      → find (λ j. key (a j)) k i n ≡ none
      → delete key k (slice a i n) ≡ slice a i n
  unfolding find slice delete
  delete-miss a k i zero h = refl
  delete-miss a k i (suc n) h = elim (Bool-cases (str_eq (key (a i)) k)) [
    | inl e ↦ absurd (some-ne-none i (rw e at h))
    | inr e ↦ rw e (ap (λ l. a i ∷ l) (delete-miss a k (suc i) n (rw e at h)))
  ]
