-- ===== src/Dir/Normal.antt =====
-- The paths that FixDirPath writes are normal, and a path that leaves the root breaks it.
use mathlib.Core.Path.{subst}
use mathlib.Core.Option
use mathlib.Core.List.{reverse-reverse, reverse_aux}
use operating_system_profoli.Base.{
  ℕ, ◌≡◌, ◌≢◌, refl, ◌∙◌, ap, inl, inr, true, some, List, [], ◌∷◌, reverse, Text, All, str_eq,
  str_eq_ne, ne_of_str_eq, Bool-cases, tokens, join, IsWord, tokens-join, tokens-sep, tokens-IsWord,
}
use operating_system_profoli.Shell.{Shell, done, fits}
use operating_system_profoli.Shell.Returns.{Returns}
use operating_system_profoli.Dir.{slash, fix_dir_path}
use operating_system_profoli.Dir.Fix.{dot, dot_dot, counted, walk, fix_dir_path-counted}

-- A directory of a normal path: a name, and not `..`.
abbrev pub IsDir : Text → Type 0
IsDir w = IsWord slash w × (w ≢ dot_dot)

counted-IsDir :
    (st ts r : List Text)
    → All (IsWord slash) ts
    → All IsDir st
    → counted st ts ≡ some r
    → All IsDir r
unfolding counted
counted-IsDir st [] r words dirs h = subst (All IsDir) (Option.some-injective st r h) dirs
counted-IsDir [] (t ∷ ts) r words dirs h = elim (Bool-cases (str_eq t dot_dot)) [
  | inl e ↦ absurd (Option.none-ne-some r (rw e at h))
  | inr e ↦
      counted-IsDir (t ∷ []) ts r words.1 ((words.0, ne_of_str_eq t dot_dot e), tt) (rw e at h)
]
counted-IsDir (d ∷ st) (t ∷ ts) r words dirs h = elim (Bool-cases (str_eq t dot_dot)) [
  | inl e ↦ counted-IsDir st ts r words.1 dirs.1 (rw e at h)
  | inr e ↦
      counted-IsDir (t ∷ d ∷ st) ts r words.1 ((words.0, ne_of_str_eq t dot_dot e), dirs)
        (rw e at h)
]

-- Names alone are all entered.
counted-names : (st ws : List Text) → All IsDir ws → counted st ws ≡ some (reverse_aux ws st)
unfolding counted
counted-names st [] h = refl
counted-names st (w ∷ ws) h = rw (str_eq_ne w dot_dot h.0.1) (counted-names (w ∷ st) ws h.1)

pub All-reverse_aux :
    (P : Text → Type 0) (ws st : List Text) → All P ws → All P st → All P (reverse_aux ws st)
All-reverse_aux P [] st h k = k
All-reverse_aux P (w ∷ ws) st h k = All-reverse_aux P ws (w ∷ st) h.1 (h.0, k)

-- What holds of the directories on the way holds of those that stay open.
pub walk-All :
    (P : Text → Type 0) (st ts r : List Text) → All P st → All P ts → walk st ts ≡ some r → All P r
unfolding walk
walk-All P st [] r dirs h e = subst (All P) (Option.some-injective st r e) dirs
walk-All P [] (t ∷ ts) r dirs h e = elim (Bool-cases (str_eq t dot)) [
  | inl e1 ↦ walk-All P [] ts r dirs h.1 (rw e1 at e)
  | inr e1 ↦ elim (Bool-cases (str_eq t dot_dot)) [
    | inl e2 ↦ absurd (Option.none-ne-some r (rw (e1, e2) at e))
    | inr e2 ↦ walk-All P (t ∷ []) ts r (h.0, dirs) h.1 (rw (e1, e2) at e)
  ]
]
walk-All P (d ∷ st) (t ∷ ts) r dirs h e = elim (Bool-cases (str_eq t dot)) [
  | inl e1 ↦ walk-All P (d ∷ st) ts r dirs h.1 (rw e1 at e)
  | inr e1 ↦ elim (Bool-cases (str_eq t dot_dot)) [
    | inl e2 ↦ walk-All P st ts r dirs.1 h.1 (rw (e1, e2) at e)
    | inr e2 ↦ walk-All P (t ∷ d ∷ st) ts r (h.0, dirs) h.1 (rw (e1, e2) at e)
  ]
]

pub words_of : (ws : List Text) → All IsDir ws → All (IsWord slash) ws
words_of [] h = tt
words_of (w ∷ ws) h = (h.0.0, words_of ws h.1)

-- The directories that `counted` gives for a path.
pub counted-tokens-IsDir :
    (t : Text) (st : List Text) → counted [] (tokens slash t) ≡ some st → All IsDir (reverse st)
counted-tokens-IsDir t st h =
    All-reverse_aux IsDir st [] (counted-IsDir [] (tokens slash t) st (tokens-IsWord slash t) tt h)
      tt

-- Where the path in the working directory stays below the root and what FixDirPath writes fits the
-- buffer, a second run of FixDirPath changes nothing.
pub fix_dir_path_idem :
    (rows rows' : ℕ → Text) (st : List Text) (s : Shell)
    → fits s.curr_directory ≡ true
    → counted [] (tokens slash s.curr_directory) ≡ some st
    → fits (slash ∷ join slash (reverse st)) ≡ true
    → Returns (λ _ s'. fix_dir_path rows' s' ≡ done tt s') (fix_dir_path rows s)
fix_dir_path_idem rows rows' st s given stays small =
    let dirs = counted-tokens-IsDir s.curr_directory st stays in
    let path = slash ∷ join slash (reverse st) in
    let again : counted [] (tokens slash path) ≡ some st =
      ap (counted []) (
        tokens-sep slash (join slash (reverse st))
        ∙ tokens-join slash (reverse st) (words_of (reverse st) dirs))
      ∙ counted-names [] (reverse st) dirs
      ∙ ap some (reverse-reverse st) in
    rw (fix_dir_path-counted rows st s given stays small)
      (fix_dir_path-counted rows' st (record s { curr_directory = path }) small again small)
