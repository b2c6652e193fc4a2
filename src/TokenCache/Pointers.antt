-- ===== src/TokenCache/Pointers.antt =====
-- Lists of pointers without repetition, as in pkg/api/s21_token_cache.go, and what they point to.
use s21_identity_service.Base.{
  ℕ, zero, suc, ◌+◌, ◌<◌, ◌≤◌, ◌≡◌, refl, ap, ◌≢◌, true, false, not, ◌&&◌, none, some, List, [],
  ◌∷◌, map, arith, length, ◌==ℕ◌, text_eq,
}
use s21_identity_service.Text.{Text}
use s21_identity_service.TokenCache.Defs.{Entry, contains, remove, back, write}
use s21_identity_service.TokenCache.Recency.{Recent, find, forget, first}

abbrev pub IsDistinct : List ℕ → Type 0
IsDistinct [] = Unit
IsDistinct (x ∷ l) = (contains l x ≡ false) × IsDistinct l

pub contains-remove :
    (a x : ℕ) (l : List ℕ) → contains (remove a l) x ≡ (not (x ==ℕ a) && contains l x)
unfolding remove
contains-remove a x [] = ground arith
contains-remove a x (y ∷ l) = ground (arith, contains-remove a x l)

pub remove-IsDistinct : (a : ℕ) (l : List ℕ) → IsDistinct l → IsDistinct (remove a l)
unfolding remove
remove-IsDistinct a [] d = tt
remove-IsDistinct a (y ∷ l) (n, d) = ground (arith, remove-IsDistinct a l d, contains-remove a y l)

pub remove_absent : (a : ℕ) (l : List ℕ) → contains l a ≡ false → remove a l ≡ l
unfolding remove
remove_absent a [] h = refl
remove_absent a (y ∷ l) h = ground (arith, remove_absent a l)

pub length-remove :
    (a : ℕ) (l : List ℕ) → IsDistinct l → contains l a ≡ true → length (remove a l) + 1 ≡ length l
unfolding remove
length-remove a [] d h = cc
length-remove a (y ∷ l) (n, d) h = ground (arith, length-remove a l d, remove_absent a l)

pub contains-back : (b : ℕ) (l : List ℕ) → back l ≡ some b → contains l b ≡ true
unfolding back
contains-back b [] h = cc
contains-back b (x ∷ []) h = ground arith
contains-back b (x ∷ y ∷ l) h = ground (arith, contains-back b (y ∷ l))

pub back-some : (x : ℕ) (l : List ℕ) → (b : ℕ) × (back (x ∷ l) ≡ some b)
unfolding back
back-some x [] = (x, refl)
back-some x (y ∷ l) = back-some y l

module _ (heap : ℕ → Entry) where
  -- What the pointers of a list hold, in its order.
  abbrev pub values : List ℕ → Recent
  values = map heap

  -- Only `a` among the pointers of the list holds an entry of the hash `h`.
  abbrev pub OnlyAt : Text → ℕ → List ℕ → Type 0
  OnlyAt h a l = (x : ℕ) → contains l x ≡ true → (heap x).hash ≡ h → x ≡ a

  only_tail : (h : Text) (a y : ℕ) (l : List ℕ) → OnlyAt h a (y ∷ l) → OnlyAt h a l
  only_tail h a y l o x c e = o x (ground arith) e

  pub values-remove :
      (h : Text) (a : ℕ) (l : List ℕ)
      → (heap a).hash ≡ h
      → OnlyAt h a l
      → values (remove a l) ≡ forget h (values l)
  unfolding remove forget
  values-remove h a [] e o = refl
  values-remove h a (y ∷ l) e o =
      ground (arith, values-remove h a l e (only_tail h a y l o), o y (ground arith))

  pub find-values :
      (h : Text) (a : ℕ) (l : List ℕ)
      → (heap a).hash ≡ h
      → OnlyAt h a l
      → contains l a ≡ true
      → find h (values l) ≡ some (heap a)
  unfolding find
  find-values h a [] e o c = cc
  find-values h a (y ∷ l) e o c =
      ground (arith, find-values h a l e (only_tail h a y l o), o y (ground arith))

  pub find_missing :
      (h : Text) (l : List ℕ)
      → ((x : ℕ) → contains l x ≡ true → (heap x).hash ≢ h)
      → (find h (values l) ≡ none) × (forget h (values l) ≡ values l)
  unfolding find forget
  find_missing h [] n = (refl, refl)
  find_missing h (y ∷ l) n =
      ground (arith, find_missing h l (λ x c. n x (ground arith)), n y (ground arith))

  pub values-write :
      (a : ℕ) (e : Entry) (l : List ℕ) → contains l a ≡ false → map (write heap a e) l ≡ values l
  unfolding write
  values-write a e [] n = refl
  values-write a e (y ∷ l) n = ground (arith, values-write a e l)

  -- Without its last pointer the list has the same first values, as long as it is longer.
  pub first-remove-back :
      (n b : ℕ) (l : List ℕ)
      → IsDistinct l
      → back l ≡ some b
      → n < length l
      → first n (values (remove b l)) ≡ first n (values l)
  unfolding first remove back
  first-remove-back n b [] d k h = cc
  first-remove-back zero b (x ∷ l) d k h = refl
  first-remove-back (suc n) b (x ∷ []) d k h = absurd (omega arith)
  first-remove-back (suc n) b (x ∷ y ∷ l) (m, d) k h =
      ground (arith, first-remove-back n b (y ∷ l) d k, contains-back b (y ∷ l))

  pub first_all : (n : ℕ) (l : List ℕ) → length l ≤ n → first n (values l) ≡ values l
  unfolding first
  first_all zero [] h = refl
  first_all zero (x ∷ l) h = absurd (omega arith)
  first_all (suc n) [] h = refl
  first_all (suc n) (x ∷ l) h = ap (◌∷◌ (heap x)) (first_all n l (omega arith))
