-- ===== src/Text.antt =====
-- The parts of Go's `strings` that the service uses. A string is the list of its code points; the
-- tests on it are on ASCII bytes, which are code points of their own.
mod Trim
pub mod Case
pub mod Order
pub mod Contains
pub mod Header
pub use Trim.{trim_space-IsTrimmed, trim_space_idem, IsTrimmed}
unfoldable pub use Trim.{is_space, trim_space}
use mathlib.Core.Option
use Prim.Native.Char.{code}
use s21_identity_service.Base.{
  ℕ, zero, suc, String, Option, none, some, List, [], ◌∷◌, ◌==ℕ◌, if◌then◌else◌,
}

abbrev pub Text : Type 0
Text = List ℕ

-- A literal of the source.
abbrev pub codes : String → Text
codes String.[] = []
codes (String.◌∷◌ c s) = code c ∷ codes s

-- `strings.IndexByte`; `none` stands for -1.
unfoldable pub index_byte : Text → ℕ → Option ℕ
index_byte [] c = none
index_byte (x ∷ s) c = if x ==ℕ c then some 0 else Option.map suc (index_byte s c)

-- `s[:n]` and `s[n:]`
abbrev pub take : ℕ → Text → Text
take zero s = []
take (suc n) [] = []
take (suc n) (c ∷ s) = c ∷ take n s

abbrev pub drop : ℕ → Text → Text
drop zero s = s
drop (suc n) [] = []
drop (suc n) (c ∷ s) = drop n s

add_to_first : ℕ → List Text → List Text
add_to_first c [] = (c ∷ []) ∷ []
add_to_first c (p ∷ ps) = (c ∷ p) ∷ ps

-- `strings.Split` by one separator byte: the pieces between the separators, at least one.
unfoldable pub split : Text → ℕ → List Text
unfolding add_to_first
split [] sep = [] ∷ []
split (c ∷ s) sep = let rest = split s sep in if c ==ℕ sep then [] ∷ rest else add_to_first c rest
