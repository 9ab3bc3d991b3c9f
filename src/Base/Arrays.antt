-- ===== src/Base/Arrays.antt =====
-- An array as a function of the index, and the entries below a count as a list.
use Prim.Native.Nat.{ℕ, zero, suc, ◌+◌, ◌<◌, ◌≤◌}
use mathlib.Core.Path.{◌≡◌, refl, ap₂, ap, ◌∙◌}
use mathlib.Core.Logic.{◌≢◌, inl, inr}
use mathlib.Core.List.{List, [], ◌∷◌, ◌++◌}
use native.Mathlib.Omega.{arith}
use operating_system_profoli.Base.Tests.{
  ==_iff, ne_of_==_false, Bool-cases, ◌==◌, if◌then◌else◌, ==_self, ==_ne,
}
use operating_system_profoli.Base.Lists.{length}

module _ {ℓ} {A : Type ℓ} where
  -- `a[i] = v`
  unfoldable pub write : (ℕ → A) → ℕ → A → ℕ → A
  write a i v j = if j == i then v else a j

  -- `rounds` entries from index `i` on.
  unfoldable pub slice : (ℕ → A) → ℕ → ℕ → List A
  slice a i zero = []
  slice a i (suc rounds) = a i ∷ slice a (suc i) rounds

  -- `for (j = i + 1; rounds more; j++) a[j - 1] = a[j];`
  unfoldable pub shift_down : (ℕ → A) → ℕ → ℕ → ℕ → A
  shift_down a i zero = a
  shift_down a i (suc rounds) = shift_down (write a i (a (suc i))) (suc i) rounds

  pub write_self : (a : ℕ → A) (i : ℕ) (v : A) → write a i v i ≡ v
  unfolding write
  write_self a i v = rw (==_self i)

  pub write_ne : (a : ℕ → A) (i : ℕ) (v : A) (j : ℕ) → j ≢ i → write a i v j ≡ a j
  unfolding write
  write_ne a i v j h = rw (==_ne j i h)

module _ {ℓ} {A : Type ℓ} where
  pub length-slice : (a : ℕ → A) (i n : ℕ) → length (slice a i n) ≡ n
  unfolding slice
  length-slice a i zero = refl
  length-slice a i (suc n) = ap suc (length-slice a (suc i) n)

  -- Two slices agree when their entries do.
  pub slice_ext :
      (a b : ℕ → A) (i j n : ℕ)
      → ((k : ℕ) → k < n → a (i + k) ≡ b (j + k))
      → slice a i n ≡ slice b j n
  unfolding slice
  slice_ext a b i j zero h = refl
  slice_ext a b i j (suc n) h =
      ap₂ ◌∷◌ (rw (ap a (zero_right i), ap b (zero_right j)) at (h 0 (omega arith))) (
        slice_ext a b (suc i) (suc j) n
          λ k lt. rw (ap a (step i k), ap b (step j k)) at (h (suc k) (omega arith)))
    where
      zero_right : (m : ℕ) → m + 0 ≡ m
      zero_right m = omega arith

      step : (m k : ℕ) → m + suc k ≡ suc m + k
      step m k = omega arith

  pub slice-append : (a : ℕ → A) (i m n : ℕ) → slice a i (m + n) ≡ slice a i m ++ slice a (i + m) n
  unfolding slice
  slice-append a i zero n = ground arith
  slice-append a i (suc m) n =
      ap (slice a i) (suc_left m n)
      ∙ ap (λ l. a i ∷ l)
          (slice-append a (suc i) m n ∙ ap (λ j. slice a (suc i) m ++ slice a j n) (suc_right i m))
    where
      suc_left : (m n : ℕ) → suc m + n ≡ suc (m + n)
      suc_left m n = omega arith

      suc_right : (i m : ℕ) → suc i + m ≡ i + suc m
      suc_right i m = omega arith

  -- A write outside the entries is not seen.
  pub slice-write_out :
      (a : ℕ → A) (v : A) (k i n : ℕ)
      → ((j : ℕ) → j < n → i + j ≢ k)
      → slice (write a k v) i n ≡ slice a i n
  slice-write_out a v k i n h =
      slice_ext (write a k v) a i i n λ j lt. write_ne a k v (i + j) (h j lt)

  -- The loop leaves what is below its first write, and moves the rest down by one.
  pub shift_down_below : (a : ℕ → A) (i n k : ℕ) → k < i → shift_down a i n k ≡ a k
  unfolding shift_down
  shift_down_below a i zero k h = refl
  shift_down_below a i (suc n) k h =
      shift_down_below (write a i (a (suc i))) (suc i) n k (omega arith)
      ∙ write_ne a i (a (suc i)) k (λ e. omega arith)

  pub shift_down_moved :
      (a : ℕ → A) (i n k : ℕ) → i ≤ k → k < i + n → shift_down a i n k ≡ a (suc k)
  unfolding shift_down
  shift_down_moved a i zero k h p = absurd (omega arith)
  shift_down_moved a i (suc n) k h p = elim (Bool-cases (k == i)) [
    | inl e ↦
        let same : k ≡ i = (==_iff k i).0 e in
        shift_down_below (write a i (a (suc i))) (suc i) n k (omega arith)
        ∙ rw same (write_self a i (a (suc i)))
    | inr e ↦
        let apart : k ≢ i = ne_of_==_false k i e in
        shift_down_moved (write a i (a (suc i))) (suc i) n k (omega arith) (omega arith)
        ∙ write_ne a i (a (suc i)) (suc k) (λ q. omega arith)
  ]
