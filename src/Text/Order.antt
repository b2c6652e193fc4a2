-- ===== src/Text/Order.antt =====
-- Go's `<` on strings. On valid UTF-8 the order of the bytes is the order of the code points.
use s21_identity_service.Base.{ℕ, ◌≡◌, Bool, true, false, List, [], ◌∷◌, arith, ltb, if◌then◌else◌}

unfoldable pub ltb_text : List ℕ → List ℕ → Bool
ltb_text s [] = false
ltb_text [] (d ∷ t) = true
ltb_text (c ∷ s) (d ∷ t) =
    let rest = ltb_text s t in if ltb c d then true else if ltb d c then false else rest

pub ltb_text_asym : (s t : List ℕ) → ltb_text s t ≡ true → ltb_text t s ≡ false
unfolding ltb_text
ltb_text_asym s [] h = ground arith
ltb_text_asym [] (d ∷ t) h = ground arith
ltb_text_asym (c ∷ s) (d ∷ t) h = ground (arith, ltb_text_asym s t)
