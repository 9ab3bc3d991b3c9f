-- ===== src/Dir/Fix.antt =====
-- FixDirPath against the meaning of a path: the directories that are entered and left in order. The
-- code takes `.` for a directory, so that a path has its meaning where it has no `.` in it.
use mathlib.Core.Option
use mathlib.Core.List.{reverse-cons, append-nil, append_assoc}
use operating_system_profoli.Base.{
  ℕ, zero, suc, ◌+◌, ◌≤◌, ◌<◌, ◌≡◌, ◌≢◌, refl, sym, ◌∙◌, ap, inl, inr, true, Option, none, some,
  List, [], ◌∷◌, ◌++◌, reverse, Text, codes, All, if◌then◌else◌, str_eq, str_eq_ne, write,
  write_self, write_ne, slice, length, arith, Bool-cases, ltb→lt, lt→ltb, tokens, join,
  length-tokens, tokens-short,
}
use operating_system_profoli.Shell.Buffers.{fits-prefix}
use operating_system_profoli.Shell.{Shell, done, word_size, fits}
use operating_system_profoli.Dir.{slash, pos, push_token, fix_loop, rebuild, fix_dir_path}

abbrev pub dot_dot : Text
dot_dot = codes ".."

abbrev pub dot : Text
dot = codes "."

-- The directories that stay open, the innermost first; `none` where the path leaves the root.
unfoldable pub walk : List Text → List Text → Option (List Text)
walk stack [] = some stack
walk stack (t ∷ ts) =
    let up : Option (List Text) = elim stack [ [] ↦ none | _ ∷ rest ↦ walk rest ts ] in
    let here = walk stack ts in
    let down = walk (t ∷ stack) ts in
    if str_eq t dot then here else if str_eq t dot_dot then up else down

-- The directories as FixDirPath counts them: a `.` is one more.
unfoldable pub counted : List Text → List Text → Option (List Text)
counted stack [] = some stack
counted stack (t ∷ ts) =
    let up : Option (List Text) = elim stack [ [] ↦ none | _ ∷ rest ↦ counted rest ts ] in
    let down = counted (t ∷ stack) ts in if str_eq t dot_dot then up else down

-- The first rows of the array, the last one first.
unfoldable pub stack_of : (ℕ → Text) → ℕ → List Text
stack_of a zero = []
stack_of a (suc n) = a n ∷ stack_of a n

stack_of-write :
    (a : ℕ → Text) (t : Text) (m n : ℕ) → n ≤ m → stack_of (write a m t) n ≡ stack_of a n
unfolding stack_of
stack_of-write a t m zero h = refl
stack_of-write a t m (suc n) h =
    rw (write_ne a m t n λ e. omega arith, stack_of-write a t m n (omega arith))

stack_of-push :
    (a : ℕ → Text) (t : Text) (n : ℕ) → stack_of (write a n t) (suc n) ≡ t ∷ stack_of a n
unfolding stack_of
stack_of-push a t n = rw (write_self a n t, stack_of-write a t n n (omega arith))

slice_last : (a : ℕ → Text) (i n j : ℕ) → j ≡ i + n → slice a i (suc n) ≡ slice a i n ++ (a j ∷ [])
unfolding slice
slice_last a i zero j e = let here : j ≡ i = omega arith in rw here
slice_last a i (suc n) j e = ap (λ l. a i ∷ l) (slice_last a (suc i) n j (omega arith))

reverse-stack_of : (a : ℕ → Text) (n : ℕ) → reverse (stack_of a n) ≡ slice a 0 n
unfolding stack_of slice
reverse-stack_of a zero = refl
reverse-stack_of a (suc n) =
    reverse-cons (a n) (stack_of a n)
    ∙ ap (λ l. l ++ (a n ∷ [])) (reverse-stack_of a n)
    ∙ sym (slice_last a 0 n n (omega arith))

-- The loop keeps the directories that `counted` gives in the rows.
pub fix_loop-counted :
    (ts : List Text) (a : ℕ → Text) (n : ℕ) (st : List Text) (s : Shell)
    → counted (stack_of a n) ts ≡ some st
    → n + length ts ≤ word_size
    → All (λ t. fits t ≡ true) ts
    → (b : ℕ → Text) × (m : ℕ) × (fix_loop ts a (pos n) s ≡ done (b, pos m) s) × (stack_of b m ≡ st)
unfolding fix_loop counted stack_of push_token
fix_loop-counted [] a n st s h room small = (a, n, refl, Option.some-injective (stack_of a n) st h)
fix_loop-counted (t ∷ ts) a zero st s h room small = elim (Bool-cases (str_eq t dot_dot)) [
  | inl e ↦ absurd (Option.none-ne-some st (rw e at h))
  | inr e ↦
      rw (e, small.0)
        (fix_loop-counted ts (write a 0 t) 1 st s
          (ap (λ l. counted l ts) (stack_of-push a t 0) ∙ (rw e at h)) (omega arith) small.1)
]
fix_loop-counted (t ∷ ts) a (suc n) st s h room small = elim (Bool-cases (str_eq t dot_dot)) [
  | inl e ↦ rw e (fix_loop-counted ts a n st s (rw e at h) (omega arith) small.1)
  | inr e ↦
      rw (e, lt→ltb (suc n) word_size (omega arith), small.0)
        (fix_loop-counted ts (write a (suc n) t) (suc (suc n)) st s
          (ap (λ l. counted l ts) (stack_of-push a t (suc n)) ∙ (rw e at h)) (omega arith) small.1)
]

-- The second loop appends each row with a slash behind it.
rebuild-join :
    (a : ℕ → Text) (i n : ℕ) (path : Text) (s : Shell)
    → fits (path ++ join slash (slice a i n)) ≡ true
    → rebuild a i n path s ≡ done (path ++ join slash (slice a i n)) s
unfolding rebuild slice join
rebuild-join a i zero path s h = ap (λ p. done p s) (sym (append-nil path))
rebuild-join a i (suc n) path s h =
    let named = path ++ a i in
    let slashed = named ++ codes "/" in
    let rest = join slash (slice a (suc i) n) in
    let grouped : slashed ++ rest ≡ path ++ (a i ++ (slash ∷ rest)) =
      append_assoc named (codes "/") rest ∙ append_assoc path (a i) (slash ∷ rest) in
    let small : fits (slashed ++ rest) ≡ true = rw grouped h in
    let small' : fits slashed ≡ true = fits-prefix slashed rest small in
    rw (
      fits-prefix named (codes "/") small',
      small',
      rebuild-join a (suc i) n slashed s small,
      grouped,
    )

pub tokens-fit :
    (n : ℕ) (ws : List Text)
    → n < word_size
    → All (λ w. length w ≤ n) ws
    → All (λ w. fits w ≡ true) ws
tokens-fit n [] h small = tt
tokens-fit n (w ∷ ws) h small =
    (lt→ltb (length w) word_size (omega (arith, small.0)), tokens-fit n ws h small.1)

-- FixDirPath writes the directories that it counts, for every path.
pub fix_dir_path-counted :
    (rows : ℕ → Text) (st : List Text) (s : Shell)
    → fits s.curr_directory ≡ true
    → counted [] (tokens slash s.curr_directory) ≡ some st
    → fits (slash ∷ join slash (reverse st)) ≡ true
    → fix_dir_path rows s ≡ done tt (record s { curr_directory = slash ∷ join slash (reverse st) })
unfolding fix_dir_path stack_of
fix_dir_path-counted rows st s given stays small =
    let t = s.curr_directory in
    let ts = tokens slash t in
    let short : length t < word_size = ltb→lt (length t) word_size given in
    let (b, m, run, view) =
      fix_loop-counted ts rows 0 st s stays (omega (arith, length-tokens slash t))
        (tokens-fit (length t) ts short (tokens-short slash t)) in
    let rows_of : slice b 0 m ≡ reverse st = sym (reverse-stack_of b m) ∙ ap reverse view in
    rw (run, rebuild-join b 0 m (codes "/") s (rw rows_of small), rows_of)

pub counted-walk : (st ts : List Text) → All (λ t. t ≢ dot) ts → counted st ts ≡ walk st ts
unfolding counted walk
counted-walk st [] h = refl
counted-walk [] (t ∷ ts) h = rw (str_eq_ne t dot h.0, counted-walk (t ∷ []) ts h.1)
counted-walk (d ∷ st) (t ∷ ts) h =
    rw (str_eq_ne t dot h.0, counted-walk st ts h.1, counted-walk (t ∷ d ∷ st) ts h.1)

-- Where the path in the working directory has no `.` in it, stays below the root, and its directories,
-- with a slash behind each, fit the buffer, FixDirPath returns, writes the directories that stay open
-- there, and changes nothing else.
pub fix_dir_path-walk :
    (rows : ℕ → Text) (st : List Text) (s : Shell)
    → fits s.curr_directory ≡ true
    → All (λ t. t ≢ dot) (tokens slash s.curr_directory)
    → walk [] (tokens slash s.curr_directory) ≡ some st
    → fits (slash ∷ join slash (reverse st)) ≡ true
    → fix_dir_path rows s ≡ done tt (record s { curr_directory = slash ∷ join slash (reverse st) })
fix_dir_path-walk rows st s given names stays small =
    fix_dir_path-counted rows st s given
      (counted-walk [] (tokens slash s.curr_directory) names ∙ stays) small
