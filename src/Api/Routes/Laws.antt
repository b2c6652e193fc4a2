-- ===== src/Api/Routes/Laws.antt =====
-- What the path patterns of pkg/api/server.go accept.
use s21_identity_service.Base.{◌≡◌, refl, true, some, [], ◌∷◌, ◌++◌, arith, text_eq}
use s21_identity_service.Base.Int.{ℤ, pos, negsuc, IsInt64}
use s21_identity_service.Text.{Text, codes}
use s21_identity_service.Api.Routes.{strip_prefix, parse_int, match_admin_key, valid_key_name}

strip_prefix-append : (p s : Text) → strip_prefix p (p ++ s) ≡ some s
unfolding strip_prefix
strip_prefix-append [] s = refl
strip_prefix-append (c ∷ p) s = ground (arith, strip_prefix-append p s)

-- The path of the revocation of a key whose name is valid is matched, with that name.
pub match_admin_key-valid_key_name :
    (name : Text)
    → valid_key_name name ≡ true
    → match_admin_key (codes "/admin/keys/" ++ name) ≡ some name
unfolding match_admin_key valid_key_name
match_admin_key-valid_key_name name h =
    ground (arith, strip_prefix-append (codes "/admin/keys/") name)

-- Whatever `ParseInt` accepts is in the range of an int64.
pub parse_int-IsInt64 : (s : Text) (v : ℤ) → parse_int s ≡ some v → IsInt64 v
unfolding parse_int
parse_int-IsInt64 [] v h = absurd (ground arith)
parse_int-IsInt64 (c ∷ s) (pos n) h = ground arith
parse_int-IsInt64 (c ∷ s) (negsuc n) h = ground arith
