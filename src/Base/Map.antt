-- ===== src/Base/Map.antt =====
-- A Go map as an association list; the order of the list is the order of one `range` over it.
use s21_identity_service.Base.{
  ◌+◌, ◌≡◌, refl, Option, none, some, List, [], ◌∷◌, arith, Eq, ◌==◌, length, if◌then◌else◌,
}

abbrev pub Map {ℓ} : Type ℓ → Type ℓ → Type ℓ
Map K V = List (K × V)

module _ {ℓ} {K V : Type ℓ} ⦃e : Eq K⦄ where
  unfoldable pub lookup : K → Map K V → Option V
  lookup k [] = none
  lookup k ((j, v) ∷ m) = if j == k then some v else lookup k m

  -- `m[k] = v`: an entry of the key is overwritten, a new one is added.
  unfoldable pub insert : K → V → Map K V → Map K V
  insert k v [] = (k, v) ∷ []
  insert k v ((j, w) ∷ m) = if j == k then (k, v) ∷ m else (j, w) ∷ insert k v m

  -- `delete(m, k)`
  unfoldable pub erase : K → Map K V → Map K V
  erase k [] = []
  erase k ((j, w) ∷ m) = let rest = erase k m in if j == k then rest else (j, w) ∷ rest

  -- A Go map holds a key once.
  abbrev pub NodupKeys : Map K V → Type ℓ
  NodupKeys [] = Unit
  NodupKeys ((k, v) ∷ m) = (lookup k m ≡ none) × NodupKeys m

  pub lookup-insert :
      (k j : K) (v : V) (m : Map K V)
      → lookup j (insert k v m) ≡ (if k == j then some v else lookup j m)
  unfolding lookup insert
  lookup-insert k j v [] = refl
  lookup-insert k j v (_ ∷ m) = ground (arith, lookup-insert k j v m)

  pub lookup-erase :
      (k j : K) (m : Map K V) → lookup j (erase k m) ≡ (if k == j then none else lookup j m)
  unfolding lookup erase
  lookup-erase k j [] = ground arith
  lookup-erase k j (_ ∷ m) = ground (arith, lookup-erase k j m)

  pub insert-NodupKeys : (k : K) (v : V) (m : Map K V) → NodupKeys m → NodupKeys (insert k v m)
  unfolding lookup insert
  insert-NodupKeys k v [] u = (refl, tt)
  insert-NodupKeys k v ((j, _) ∷ m) (fresh, u) =
      ground (arith, insert-NodupKeys k v m u, lookup-insert k j v m)

  pub erase-NodupKeys : (k : K) (m : Map K V) → NodupKeys m → NodupKeys (erase k m)
  unfolding lookup erase
  erase-NodupKeys k [] u = tt
  erase-NodupKeys k ((j, _) ∷ m) (fresh, u) =
      ground (arith, erase-NodupKeys k m u, lookup-erase k j m)

  pub length-insert_new :
      (k : K) (v : V) (m : Map K V) → lookup k m ≡ none → length (insert k v m) ≡ length m + 1
  unfolding lookup insert
  length-insert_new k v [] h = refl
  length-insert_new k v (_ ∷ m) h = ground (arith, length-insert_new k v m)

  pub erase_absent : (k : K) (m : Map K V) → lookup k m ≡ none → erase k m ≡ m
  unfolding lookup erase
  erase_absent k [] h = refl
  erase_absent k (_ ∷ m) h = ground (arith, erase_absent k m)

  pub erase-insert_new :
      (k : K) (v : V) (m : Map K V) → lookup k m ≡ none → erase k (insert k v m) ≡ m
  unfolding lookup insert erase
  erase-insert_new k v [] h = ground arith
  erase-insert_new k v (_ ∷ m) h = ground (arith, erase-insert_new k v m, erase_absent k m)

  pub length-erase_found :
      (k : K) (v : V) (m : Map K V)
      → NodupKeys m
      → lookup k m ≡ some v
      → length (erase k m) + 1 ≡ length m
  unfolding lookup erase
  length-erase_found k v [] u h = absurd (ground arith)
  length-erase_found k v ((j, _) ∷ m) (fresh, u) h =
      ground (arith, length-erase_found k v m u, erase_absent k m)

  -- Every value stands under the key that it has itself.
  pub record IsKeyed (key_of : V → K) (m : Map K V) : Type ℓ where
    pub nodup : NodupKeys m
    pub keyed : (k : K) (v : V) → lookup k m ≡ some v → key_of v ≡ k

  pub insert-IsKeyed :
      (key_of : V → K) (v : V) (m : Map K V)
      → IsKeyed key_of m
      → IsKeyed key_of (insert (key_of v) v m)
  insert-IsKeyed key_of v m i = record {
    nodup = insert-NodupKeys (key_of v) v m i.nodup;
    keyed = λ k x l. ground (arith, lookup-insert (key_of v) k v m, i.keyed k x);
  }

  pub erase-IsKeyed :
      (key_of : V → K) (k : K) (m : Map K V) → IsKeyed key_of m → IsKeyed key_of (erase k m)
  erase-IsKeyed key_of k m i = record {
    nodup = erase-NodupKeys k m i.nodup;
    keyed = λ j x l. ground (arith, lookup-erase k j m, i.keyed j x);
  }
