-- ===== src/Api/Routes.antt =====
-- The patterns of pkg/api/server.go: `reByTelegram`, `reByNickname`, `reAdminKey`, `validKeyName`.
pub mod Laws
use s21_identity_service.Base.{
  ℕ, zero, suc, ◌+◌, ◌*◌, ◌-◌, ◌^◌, Bool, true, false, not, ◌&&◌, ◌||◌, Option, none, some, List,
  [], ◌∷◌, all, leb, ltb, ◌==ℕ◌, ◌==◌, text_eq, length, if◌then◌else◌,
}
use s21_identity_service.Base.Int.{ℤ, pos, negsuc}
use s21_identity_service.Text.{Text, codes}

-- The rest of a text behind a literal prefix.
unfoldable pub strip_prefix : Text → Text → Option Text
strip_prefix [] s = some s
strip_prefix (p ∷ ps) [] = none
strip_prefix (p ∷ ps) (c ∷ s) = let rest = strip_prefix ps s in if p ==ℕ c then rest else none

abbrev pub is_digit : ℕ → Bool
is_digit c = leb b'0' c && leb c b'9'

-- `[A-Za-z0-9_.-]`
abbrev pub is_name_char : ℕ → Bool
is_name_char c =
    (leb b'A' c && leb c b'Z')
    || (leb b'a' c && leb c b'z')
    || is_digit c
    || c ==ℕ b'_'
    || c ==ℕ b'.'
    || c ==ℕ b'-'

unfoldable pub digits_value : ℕ → Text → Option ℕ
digits_value n [] = some n
digits_value n (c ∷ s) =
    let rest = digits_value (n * 10 + (c - 48)) s in if is_digit c then rest else none

-- The magnitude of a text of one digit or more.
unfoldable pub magnitude : Text → Option ℕ
unfolding digits_value
magnitude [] = none
magnitude (c ∷ s) = digits_value 0 (c ∷ s)

abbrev negated : ℕ → ℤ
negated zero = pos zero
negated (suc n) = negsuc n

abbrev bounded_pos : Option ℕ → Option ℤ
bounded_pos none = none
bounded_pos (some n) = if ltb n (2 ^ 63) then some (pos n) else none

abbrev bounded_neg : Option ℕ → Option ℤ
bounded_neg none = none
bounded_neg (some n) = if leb n (2 ^ 63) then some (negated n) else none

-- `strconv.ParseInt(s, 10, 64)`
unfoldable pub parse_int : Text → Option ℤ
unfolding magnitude
parse_int [] = none
parse_int (c ∷ s) =
    if c ==ℕ b'-'
    then bounded_neg (magnitude s)
    else if c ==ℕ b'+'
    then bounded_pos (magnitude s)
    else bounded_pos (magnitude (c ∷ s))

-- The rest of the path behind a prefix, if it is not empty and each of its characters passes.
unfoldable pub match_path : Text → (ℕ → Bool) → Text → Option Text
unfolding strip_prefix
match_path prefix test p = elim (strip_prefix prefix p) [
  | none ↦ none
  | some rest ↦ if rest == [] then none else if all test rest then some rest else none
]

unfoldable pub match_by_telegram : Text → Option ℤ
unfolding match_path parse_int
match_by_telegram p = elim (match_path (codes "/users/by_telegram/") is_digit p) [
  | none ↦ none
  | some m ↦ parse_int m
]

unfoldable pub match_by_nickname : Text → Option Text
unfolding match_path
match_by_nickname = match_path (codes "/users/by_nickname/") (λ c. not (c ==ℕ b'/'))

unfoldable pub match_admin_key : Text → Option Text
unfolding match_path
match_admin_key = match_path (codes "/admin/keys/") is_name_char

unfoldable pub valid_key_name : Text → Bool
valid_key_name name = not (name == []) && leb (length name) 64 && all is_name_char name
