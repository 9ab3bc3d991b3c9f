-- ===== src/Memory.antt =====
-- The blocks that impl/command.c allocates and frees. What `malloc`, `calloc`, `strdup` and `realloc`
-- give is a parameter, which may depend on the blocks that are live; allocation succeeds.
pub mod Owned
pub mod Blocks
pub mod Destroy
pub mod Build
pub mod Jobs
use operating_system_profoli.Base.{
  ℕ, ◌+◌, ◌≡◌, Bool, true, false, Option, none, some, List, [], ◌∷◌, ◌==◌, if◌then◌else◌, without,
}

-- How often a block is in a list.
pub one_of : ℕ → ℕ → ℕ
one_of b c = if b == c then 1 else 0

unfoldable pub occurrences : ℕ → List ℕ → ℕ
occurrences b [] = 0
occurrences b (c ∷ cs) = one_of b c + occurrences b cs

-- A run on the live blocks; `none` is an access to a block that is not live, or another fault.
abbrev pub Memory : Type 0 → Type 0
Memory A = List ℕ → Option (A × List ℕ)

abbrev pub pure : {A : Type 0} → A → Memory A
pure a live = some (a, live)

module _ {A B : Type 0} where
  abbrev pub and_then : Option (A × List ℕ) → (A → Memory B) → Option (B × List ℕ)
  and_then none k = none
  and_then (some (a, live)) k = k a live

  infixl 5 ◌>>=◌ ◌>>◌
  abbrev pub ◌>>=◌ : Memory A → (A → Memory B) → Memory B
  m >>= k = λ live. and_then (m live) k

  abbrev pub ◌>>◌ : Memory A → Memory B → Memory B
  m >> k = m >>= λ _. k

-- A step that has no part in the blocks.
abbrev pub lift : {A : Type 0} → Option A → Memory A
lift none live = none
lift (some a) live = some (a, live)

-- A read or a write in a block.
unfoldable pub use_block : ℕ → Memory (Unit {0})
use_block b live = if occurrences b live == 0 then none else some (tt, live)

unfoldable pub free : ℕ → Memory (Unit {0})
free b live = if occurrences b live == 0 then none else some (tt, without b live)

unfoldable pub free_unless_null : Option ℕ → Memory (Unit {0})
unfolding free
free_unless_null none = pure tt
free_unless_null (some b) = free b

unfoldable pub malloc : (List ℕ → ℕ) → Memory ℕ
malloc alloc live = some (alloc live, alloc live ∷ live)
