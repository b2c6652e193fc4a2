-- ===== src/Text/Contains.antt =====
-- `strings.Contains` of Go.
use s21_identity_service.Base.{
  ℕ, ◌≡◌, refl, ◌∙◌, ap, ◌↔◌, inl, inr, Bool, true, false, ◌&&◌, ◌||◌, ◌==ℕ◌, List, [], ◌∷◌, ◌++◌,
  arith, Bool-cases,
}

unfoldable pub has_prefix : List ℕ → List ℕ → Bool
has_prefix s [] = true
has_prefix [] (d ∷ t) = false
has_prefix (c ∷ s) (d ∷ t) = c ==ℕ d && has_prefix s t

unfoldable pub contains : List ℕ → List ℕ → Bool
unfolding has_prefix
contains [] t = has_prefix [] t
contains (c ∷ s) t = has_prefix (c ∷ s) t || contains s t

-- The text is cut into a part before `t`, `t`, and a part after it.
abbrev pub Occurs : List ℕ → List ℕ → Type 0
Occurs t s = (front : List ℕ) × (back : List ℕ) × (s ≡ front ++ (t ++ back))

has_prefix-append : (t back : List ℕ) → has_prefix (t ++ back) t ≡ true
unfolding has_prefix
has_prefix-append [] [] = refl
has_prefix-append [] (d ∷ back) = refl
has_prefix-append (c ∷ t) back = ground (arith, has_prefix-append t back)

cut : (s t : List ℕ) → has_prefix s t ≡ true → (back : List ℕ) × (s ≡ t ++ back)
unfolding has_prefix
cut s [] h = (s, refl)
cut [] (d ∷ t) h = absurd (cc)
cut (c ∷ s) (d ∷ t) h = let (back, e) = cut s t (ground arith) in (back, ground arith)

contains-append : (front t back : List ℕ) → contains (front ++ (t ++ back)) t ≡ true
unfolding contains
contains-append [] [] [] = refl
contains-append [] [] (d ∷ back) = refl
contains-append [] (c ∷ t) back = ground (arith, has_prefix-append t back)
contains-append (c ∷ front) t back = ground (arith, contains-append front t back)

occurrence : (s t : List ℕ) → contains s t ≡ true → Occurs t s
unfolding contains
occurrence [] t h = let (back, e) = cut [] t h in ([], back, e)
occurrence (c ∷ s) t h = elim (Bool-cases (has_prefix (c ∷ s) t)) [
  | inl e ↦ let (back, q) = cut (c ∷ s) t e in ([], back, q)
  | inr e ↦ let (front, back, q) = occurrence s t (ground arith) in (c ∷ front, back, ap (◌∷◌ c) q)
]

-- The test holds exactly if the text occurs.
pub contains_iff : (s t : List ℕ) → (contains s t ≡ true) ↔ Occurs t s
contains_iff s t =
    (occurrence s t, λ (front, back, e). ap (λ x. contains x t) e ∙ contains-append front t back)
