-- ===== src/Text/Header.antt =====
-- `http.CanonicalHeaderKey` of Go's `net/http`.
use s21_identity_service.Base.{
  ◌≡◌, refl, arith, ℕ, ◌+◌, ◌-◌, Bool, true, false, not, ◌&&◌, ◌||◌, ◌==ℕ◌, leb, List, [], ◌∷◌, all,
  if◌then◌else◌,
}

is_upper : ℕ → Bool
is_upper c = leb b'A' c && leb c b'Z'

is_lower : ℕ → Bool
is_lower c = leb b'a' c && leb c b'z'

-- The characters of a token of RFC 7230.
is_token : ℕ → Bool
unfolding is_upper is_lower
is_token c =
    is_upper c
    || is_lower c
    || (leb b'0' c && leb c b'9')
    || c ==ℕ b'!'
    || (leb b'#' c && leb c b'\'')
    || c ==ℕ b'*'
    || c ==ℕ b'+'
    || c ==ℕ b'-'
    || c ==ℕ b'.'
    || leb b'^' c && leb c b'`'
    || c ==ℕ b'|'
    || c ==ℕ b'~'

-- An upper case letter at the start and after a hyphen, lower case elsewhere.
cased : Bool → List ℕ → List ℕ
unfolding is_upper is_lower
cased first [] = []
cased first (c ∷ s) =
    let c' =
      if first && is_lower c then c - 32 else if not first && is_upper c then c + 32 else c in
    c' ∷ cased (c' ==ℕ b'-') s

unfoldable pub canonical_header_key : List ℕ → List ℕ
unfolding is_token cased
canonical_header_key s = if all is_token s then cased true s else s

cased_idem : (first : Bool) (s : List ℕ) → cased first (cased first s) ≡ cased first s
unfolding cased is_upper is_lower
cased_idem first [] = refl
cased_idem true (c ∷ s) = ground (arith, cased_idem true s, cased_idem false s)
cased_idem false (c ∷ s) = ground (arith, cased_idem true s, cased_idem false s)

all_token-cased :
    (first : Bool) (s : List ℕ) → all is_token s ≡ true → all is_token (cased first s) ≡ true
unfolding cased is_upper is_lower is_token
all_token-cased first [] h = refl
all_token-cased true (c ∷ s) h = ground (arith, all_token-cased true s, all_token-cased false s)
all_token-cased false (c ∷ s) h = ground (arith, all_token-cased true s, all_token-cased false s)

pub canonical_idem :
    (s : List ℕ) → canonical_header_key (canonical_header_key s) ≡ canonical_header_key s
unfolding canonical_header_key
canonical_idem s = ground (arith, cased_idem true s, all_token-cased true s)
