-- ===== src/Text/Case.antt =====
-- `strings.ToLower` and `strings.EqualFold`. The tables of Go's `unicode` package are a parameter.
use s21_identity_service.Base.{ℕ, ◌+◌, ◌&&◌, leb, Bool, List, map, ◌==◌, text_eq, if◌then◌else◌}

-- `unicode.ToLower` of one character, and one representative of its `unicode.SimpleFold` orbit.
pub record CaseTable : Type 0 where
  pub lower : ℕ → ℕ
  pub fold : ℕ → ℕ

abbrev pub to_lower : CaseTable → List ℕ → List ℕ
to_lower t = map t.lower

abbrev pub equal_fold : CaseTable → List ℕ → List ℕ → Bool
equal_fold t a b = map t.fold a == map t.fold b

-- A table for texts in ASCII.
abbrev pub ascii_lower : ℕ → ℕ
ascii_lower c = if leb b'A' c && leb c b'Z' then c + 32 else c

abbrev pub ascii : CaseTable
ascii = record { lower = ascii_lower; fold = ascii_lower }
