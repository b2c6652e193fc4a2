-- ===== src/Text/Trim.antt =====
-- `strings.TrimSpace`
use s21_identity_service.Base.{
  ℕ, ◌≡◌, refl, Bool, false, ◌||◌, ◌&&◌, List, [], ◌∷◌, leb, ◌==ℕ◌, Bool-cases, inl, inr,
  if◌then◌else◌,
}

-- `unicode.IsSpace`
unfoldable pub is_space : ℕ → Bool
is_space c =
    (leb 9 c && leb c 13)
    || c ==ℕ 0x20
    || c ==ℕ 0x85
    || c ==ℕ 0xa0
    || c ==ℕ 0x1680
    || (leb 0x2000 c && leb c 0x200a)
    || c ==ℕ 0x2028
    || c ==ℕ 0x2029
    || c ==ℕ 0x202f
    || c ==ℕ 0x205f
    || c ==ℕ 0x3000

unfoldable pub trim_left : List ℕ → List ℕ
trim_left [] = []
trim_left (c ∷ s) = let rest = trim_left s in if is_space c then rest else c ∷ s

-- A space before what is left of the tail is kept unless nothing is left.
cons_unless_space : ℕ → List ℕ → List ℕ
cons_unless_space c [] = if is_space c then [] else c ∷ []
cons_unless_space c (d ∷ s) = c ∷ d ∷ s

unfoldable pub trim_right : List ℕ → List ℕ
unfolding cons_unless_space
trim_right [] = []
trim_right (c ∷ s) = cons_unless_space c (trim_right s)

unfoldable pub trim_space : List ℕ → List ℕ
unfolding is_space trim_left trim_right
trim_space s = trim_right (trim_left s)

abbrev StartsTrimmed : List ℕ → Type 0
StartsTrimmed [] = Unit
StartsTrimmed (c ∷ s) = is_space c ≡ false

abbrev EndsTrimmed : List ℕ → Type 0
EndsTrimmed [] = Unit
EndsTrimmed (c ∷ []) = is_space c ≡ false
EndsTrimmed (c ∷ d ∷ s) = EndsTrimmed (d ∷ s)

-- Neither the first nor the last character is a space.
abbrev pub IsTrimmed : List ℕ → Type 0
IsTrimmed s = StartsTrimmed s × EndsTrimmed s

trim_left-StartsTrimmed : (s : List ℕ) → StartsTrimmed (trim_left s)
unfolding trim_left
trim_left-StartsTrimmed [] = tt
trim_left-StartsTrimmed (c ∷ s) = elim (Bool-cases (is_space c)) [
  | inl e ↦ rw e (trim_left-StartsTrimmed s)
  | inr e ↦ rw e e
]

cons_unless_space-EndsTrimmed :
    (c : ℕ) (s : List ℕ) → EndsTrimmed s → EndsTrimmed (cons_unless_space c s)
unfolding cons_unless_space
cons_unless_space-EndsTrimmed c [] h = elim (Bool-cases (is_space c)) [
  | inl e ↦ rw e tt
  | inr e ↦ rw e e
]
cons_unless_space-EndsTrimmed c (d ∷ s) h = h

trim_right-EndsTrimmed : (s : List ℕ) → EndsTrimmed (trim_right s)
unfolding trim_right
trim_right-EndsTrimmed [] = tt
trim_right-EndsTrimmed (c ∷ s) =
    cons_unless_space-EndsTrimmed c (trim_right s) (trim_right-EndsTrimmed s)

cons_unless_space-StartsTrimmed :
    (c : ℕ) (s : List ℕ) → is_space c ≡ false → StartsTrimmed (cons_unless_space c s)
unfolding cons_unless_space
cons_unless_space-StartsTrimmed c [] h = rw h h
cons_unless_space-StartsTrimmed c (d ∷ s) h = h

trim_right-StartsTrimmed : (s : List ℕ) → StartsTrimmed s → StartsTrimmed (trim_right s)
unfolding trim_right
trim_right-StartsTrimmed [] h = tt
trim_right-StartsTrimmed (c ∷ s) h = cons_unless_space-StartsTrimmed c (trim_right s) h

trim_left_trimmed : (s : List ℕ) → StartsTrimmed s → trim_left s ≡ s
unfolding trim_left
trim_left_trimmed [] h = refl
trim_left_trimmed (c ∷ s) h = rw h

trim_right_trimmed : (s : List ℕ) → EndsTrimmed s → trim_right s ≡ s
unfolding trim_right
trim_right_trimmed [] h = refl
trim_right_trimmed (c ∷ []) h = rw h
trim_right_trimmed (c ∷ d ∷ s) h = rw (trim_right_trimmed (d ∷ s) h)

pub trim_space-IsTrimmed : (s : List ℕ) → IsTrimmed (trim_space s)
trim_space-IsTrimmed s =
    unfold trim_space in
    (
      trim_right-StartsTrimmed (trim_left s) (trim_left-StartsTrimmed s),
      trim_right-EndsTrimmed (trim_left s),
    )

pub trim_space_idem : (s : List ℕ) → IsTrimmed s → trim_space s ≡ s
trim_space_idem s h = unfold trim_space in rw (trim_left_trimmed s h.0) (trim_right_trimmed s h.1)
