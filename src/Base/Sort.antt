-- ===== src/Base/Sort.antt =====
-- `sort.Slice` by an order test, as an insertion sort.
use s21_identity_service.Base.{
  ◌≡◌, Bool, true, false, List, [], ◌∷◌, arith, Bool-cases, inl, inr, Has, ◌⊎◌, ◌↔◌, if◌then◌else◌,
}
use mathlib.Core.List.{Perm}
use mathlib.Core.List.Perm

module _ {ℓ} {A : Type ℓ} (less : A → A → Bool) where
  insert_by : A → List A → List A
  insert_by x [] = x ∷ []
  insert_by x (y ∷ ys) = if less y x then y ∷ insert_by x ys else x ∷ y ∷ ys

  unfoldable pub sort : List A → List A
  unfolding insert_by
  sort [] = []
  sort (x ∷ xs) = insert_by x (sort xs)

  -- No element comes before a smaller one.
  abbrev pub IsSorted : List A → Type 0
  IsSorted [] = Unit
  IsSorted (x ∷ []) = Unit
  IsSorted (x ∷ y ∷ ys) = (less y x ≡ false) × IsSorted (y ∷ ys)

  insert_by-perm : (x : A) (ys : List A) → Perm (insert_by x ys) (x ∷ ys)
  unfolding insert_by
  insert_by-perm x [] = Perm.refl (x ∷ [])
  insert_by-perm x (y ∷ ys) = elim (Bool-cases (less y x)) [
    | inl e ↦ rw e (Perm.trans (Perm.cons y (insert_by-perm x ys)) (Perm.swap x y ys))
    | inr e ↦ rw e (Perm.refl (x ∷ y ∷ ys))
  ]

  pub sort-perm : (xs : List A) → Perm (sort xs) xs
  unfolding sort
  sort-perm [] = Perm.refl []
  sort-perm (x ∷ xs) = Perm.trans (insert_by-perm x (sort xs)) (Perm.cons x (sort-perm xs))

  module _ (asym : (x y : A) → less x y ≡ true → less y x ≡ false) where
    insert_by-IsSorted : (x : A) (ys : List A) → IsSorted ys → IsSorted (insert_by x ys)
    unfolding insert_by
    insert_by-IsSorted x [] s = tt
    insert_by-IsSorted x (y ∷ []) s = ground (arith, asym y x)
    insert_by-IsSorted x (y ∷ z ∷ zs) s =
        ground (arith, asym y x, insert_by-IsSorted x (z ∷ zs) s.1)

    pub sort-IsSorted : (xs : List A) → IsSorted (sort xs)
    unfolding sort
    sort-IsSorted [] = tt
    sort-IsSorted (x ∷ xs) = insert_by-IsSorted x (sort xs) (sort-IsSorted xs)

module _ {A : Type 0} (less : A → A → Bool) (a : A) where
  insert_by-Has : (x : A) (ys : List A) → Has a (insert_by less x ys) ↔ ((x ≡ a) ⊎ Has a ys)
  unfolding insert_by
  insert_by-Has x [] = (λ h. h, λ h. h)
  insert_by-Has x (y ∷ ys) = ground (arith, insert_by-Has x ys)

  -- Sorting keeps what occurs in a list.
  pub sort-Has : (xs : List A) → Has a (sort less xs) ↔ Has a xs
  unfolding sort
  sort-Has [] = (λ h. h, λ h. h)
  sort-Has (x ∷ xs) = ground (arith, insert_by-Has x (sort less xs), sort-Has xs)
