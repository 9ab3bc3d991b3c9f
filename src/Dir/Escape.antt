-- ===== src/Dir/Escape.antt =====
-- A path that leaves the root and then names a directory makes FixDirPath write before its rows.
use mathlib.Core.Path.{subst}
use operating_system_profoli.Base.{
  ℕ, zero, suc, ◌≤◌, ◌≡◌, ◌≢◌, refl, ap, inl, inr, true, some, List, [], ◌∷◌, ◌++◌, Text, All,
  str_eq, str_eq_ne, length, length-append, arith, Bool-cases, ltb→lt, tokens, length-tokens,
  tokens-short,
}
use operating_system_profoli.Shell.{
  Shell, Outcome, done, exits, blocked, fault, and_then, word_size, fits,
}
use operating_system_profoli.Dir.{slash, ℤ, pos, pred_ℤ, push_token, fix_loop, fix_dir_path}
use operating_system_profoli.Dir.Fix.{dot_dot, counted, stack_of, fix_loop-counted, tokens-fit}

abbrev continue_with : List Text → (ℕ → Text) × ℤ → Shell → Outcome ((ℕ → Text) × ℤ)
continue_with ys r = fix_loop ys r.0 r.1

after_push :
    (xs ys : List Text) (m : Outcome ((ℕ → Text) × ℤ))
    → ((a : ℕ → Text) (c : ℤ) (s : Shell)
        → fix_loop (xs ++ ys) a c s ≡ and_then (fix_loop xs a c s) (continue_with ys))
    → and_then m (continue_with (xs ++ ys))
      ≡ and_then (and_then m (continue_with xs)) (continue_with ys)
after_push xs ys (done (a, c) s) ih = ih a c s
after_push xs ys (exits n s) ih = refl
after_push xs ys (blocked s) ih = refl
after_push xs ys fault ih = refl

-- The loop over two lists runs over one and then over the other.
fix_loop-append :
    (xs ys : List Text) (a : ℕ → Text) (c : ℤ) (s : Shell)
    → fix_loop (xs ++ ys) a c s ≡ and_then (fix_loop xs a c s) (continue_with ys)
unfolding fix_loop
fix_loop-append [] ys a c s = refl
fix_loop-append (x ∷ xs) ys a c s = elim (Bool-cases (str_eq x dot_dot)) [
  | inl e ↦ rw e (fix_loop-append xs ys a (pred_ℤ c) s)
  | inr e ↦ rw e (after_push xs ys (push_token x a c s) (fix_loop-append xs ys))
]

All-append_left :
    (n : ℕ) (xs ys : List Text) → All (λ w. length w ≤ n) (xs ++ ys) → All (λ w. length w ≤ n) xs
All-append_left n [] ys h = tt
All-append_left n (x ∷ xs) ys h = (h.0, All-append_left n xs ys h.1)

empty : (b : ℕ → Text) (m : ℕ) → stack_of b m ≡ [] → m ≡ 0
unfolding stack_of
empty b zero h = refl
empty b (suc m) h = cc

-- Where the tokens of the path come back to the root, a `.` counting as a directory, then go up, and then
-- name a directory, FixDirPath writes row -1 of its array.
pub fix_dir_path_escape :
    (rows : ℕ → Text) (before after : List Text) (t : Text) (s : Shell)
    → fits s.curr_directory ≡ true
    → tokens slash s.curr_directory ≡ before ++ (dot_dot ∷ t ∷ after)
    → counted [] before ≡ some []
    → t ≢ dot_dot
    → fix_dir_path rows s ≡ fault
unfolding fix_dir_path stack_of str_eq
fix_dir_path_escape rows before after t s given split root name =
    let short = ltb→lt (length s.curr_directory) word_size given in
    let small =
      subst (All (λ w. length w ≤ length s.curr_directory)) split
        (tokens-short slash s.curr_directory) in
    let few = length-append before (dot_dot ∷ t ∷ after) in
    let count = length-tokens slash s.curr_directory in
    let (b, m, run, view) =
      fix_loop-counted before rows 0 [] s root (omega (arith, ap length split)) (
        tokens-fit (length s.curr_directory) before short
          (All-append_left (length s.curr_directory) before (dot_dot ∷ t ∷ after) small)) in
    let at_root : m ≡ 0 = empty b m view in
    rw (split, fix_loop-append before (dot_dot ∷ t ∷ after) rows (pos 0) s, run, at_root)
      (unfold fix_loop push_token in rw (str_eq_ne t dot_dot name))
