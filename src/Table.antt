-- ===== src/Table.antt =====
-- Tables of entries with a text key, as impl/ish.c keeps its aliases and its environment: an array
-- with a count. `find` is the search loop that the functions on them share. The other functions say
-- what the tables stand for: a list of entries, each found by the first one with its key.
pub mod Laws
pub mod Refine
use operating_system_profoli.Base.{
  ℕ, zero, suc, ◌<◌, ◌≡◌, ◌≢◌, true, false, Option, none, some, List, [], ◌∷◌, Text, All,
  if◌then◌else◌, str_eq,
}

-- `for (int i = from; rounds more; i++) if (strcmp(keys[i], k) == 0) …`: the index of the hit.
unfoldable pub find : (ℕ → Text) → Text → ℕ → ℕ → Option ℕ
find keys k i zero = none
find keys k i (suc rounds) = if str_eq (keys i) k then some i else find keys k (suc i) rounds

module _ {ℓ} {A : Type ℓ} (key : A → Text) where
  -- The first entry with the key.
  unfoldable pub lookup : Text → List A → Option A
  lookup k [] = none
  lookup k (x ∷ xs) = if str_eq (key x) k then some x else lookup k xs

  -- The entry in place of the first one with its key, or behind all others.
  unfoldable pub insert : A → List A → List A
  insert x [] = x ∷ []
  insert x (y ∷ ys) = if str_eq (key y) (key x) then x ∷ ys else y ∷ insert x ys

  -- The list less the first entry with the key.
  unfoldable pub delete : Text → List A → List A
  delete k [] = []
  delete k (x ∷ xs) = if str_eq (key x) k then xs else x ∷ delete k xs

  -- No two entries have the same key.
  abbrev pub Distinct : List A → Type 0
  Distinct [] = Unit {0}
  Distinct (x ∷ xs) = All (λ y. key y ≢ key x) xs × Distinct xs
