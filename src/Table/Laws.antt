-- ===== src/Table/Laws.antt =====
-- The laws of tables as lists of entries.
use mathlib.Core.Path.{subst}
use operating_system_profoli.Base.{
  ◌≡◌, ◌≢◌, refl, sym, ◌∙◌, ◌⊎◌, inl, inr, true, false, none, some, List, [], ◌∷◌, Text, All,
  if◌then◌else◌, str_eq, str_eq→≡, str_eq_iff, ne_of_str_eq, arith, Bool-cases,
}
use operating_system_profoli.Table.{lookup, insert, delete, Distinct}

module _ {A : Type 0} (key : A → Text) where
  -- What a key is bound to after an insertion.
  pub lookup-insert :
      (k : Text) (x : A) (l : List A)
      → lookup key k (insert key x l) ≡ (if str_eq (key x) k then some x else lookup key k l)
  unfolding lookup insert
  lookup-insert k x [] = refl
  lookup-insert k x (y ∷ ys) = ground (
    arith,
    str_eq_iff (key y) (key x),
    str_eq_iff (key x) k,
    str_eq_iff (key y) k,
    lookup-insert k x ys,
  )

  pub All-insert : (P : A → Type 0) (x : A) (l : List A) → P x → All P l → All P (insert key x l)
  unfolding insert
  All-insert P x [] p h = (p, tt)
  All-insert P x (y ∷ ys) p h = elim (Bool-cases (str_eq (key y) (key x))) [
    | inl e ↦ rw e (p, h.1)
    | inr e ↦ rw e (h.0, All-insert P x ys p h.1)
  ]

  pub All-delete : (P : A → Type 0) (k : Text) (l : List A) → All P l → All P (delete key k l)
  unfolding delete
  All-delete P k [] h = h
  All-delete P k (y ∷ ys) h = elim (Bool-cases (str_eq (key y) k)) [
    | inl e ↦ rw e h.1
    | inr e ↦ rw e (h.0, All-delete P k ys h.1)
  ]

  pub insert-Distinct : (x : A) (l : List A) → Distinct key l → Distinct key (insert key x l)
  unfolding insert
  insert-Distinct x [] h = (tt, tt)
  insert-Distinct x (y ∷ ys) h = elim (Bool-cases (str_eq (key y) (key x))) [
    | inl e ↦ rw e (rw (← str_eq→≡ (key y) (key x) e) h.0, h.1)
    | inr e ↦ rw e (
      All-insert (λ z. key z ≢ key y) x ys (λ q. ne_of_str_eq (key y) (key x) e (sym q)) h.0,
      insert-Distinct x ys h.1,
    )
  ]

  pub delete-Distinct : (k : Text) (l : List A) → Distinct key l → Distinct key (delete key k l)
  unfolding delete
  delete-Distinct k [] h = h
  delete-Distinct k (y ∷ ys) h = elim (Bool-cases (str_eq (key y) k)) [
    | inl e ↦ rw e h.1
    | inr e ↦ rw e (All-delete (λ z. key z ≢ key y) k ys h.0, delete-Distinct k ys h.1)
  ]

  lookup-absent : (k : Text) (l : List A) → All (λ z. key z ≢ k) l → lookup key k l ≡ none
  unfolding lookup
  lookup-absent k [] h = refl
  lookup-absent k (y ∷ ys) h = ground (arith, h.0, str_eq_iff (key y) k, lookup-absent k ys h.1)

  -- After a deletion the key is bound to nothing, and the others keep their entries.
  pub lookup-delete :
      (k j : Text) (l : List A)
      → Distinct key l
      → lookup key j (delete key k l) ≡ (if str_eq k j then none else lookup key j l)
  unfolding lookup delete
  lookup-delete k j [] h = ground arith
  lookup-delete k j (y ∷ ys) h = elim (Bool-cases (str_eq (key y) k)) [
    | inl e ↦ rw e (removed e (Bool-cases (str_eq k j)))
    | inr e ↦ rw e (
        ground (
          arith,
          str_eq_iff (key y) k,
          str_eq_iff k j,
          str_eq_iff (key y) j,
          lookup-delete k j ys h.1,
        ))
  ]
    where
      removed :
          str_eq (key y) k ≡ true
          → (str_eq k j ≡ true) ⊎ (str_eq k j ≡ false)
          → lookup key j ys
            ≡ (if str_eq k j then none else if str_eq (key y) j then some y else lookup key j ys)
      removed e (inl q) = rw q (
          lookup-absent j ys
            (subst (λ t. All (λ z. key z ≢ t) ys) (str_eq→≡ (key y) k e ∙ str_eq→≡ k j q) h.0))
      removed e (inr q) = rw (str_eq→≡ (key y) k e, q)
