-- ===== src/Examples/Scopes.antt =====
-- The theorems on scopes and routes, applied.
use s21_identity_service.Base.{◌≡◌, refl, ◌⊎◌, true, false, some, text_eq}
use s21_identity_service.Base.Int.{negsuc, IsInt64}
use s21_identity_service.Text.{codes, trim_space}
use s21_identity_service.Store.Scopes.{allowed_scopes, canonicalise_scopes}
use s21_identity_service.Store.Scopes.Laws.{
  Grants, canonicalise_scopes-allowed_scopes, allowed_scopes-Grants,
}
use s21_identity_service.Api.Routes.{parse_int}
use s21_identity_service.Api.Routes.Laws.{parse_int-IsInt64}

canonicalise_scopes-allowed_scopes_example :
    canonicalise_scopes (codes " admin") ≡ allowed_scopes (trim_space (codes " admin"))
canonicalise_scopes-allowed_scopes_example = canonicalise_scopes-allowed_scopes (codes " admin")

write_allowed : allowed_scopes (codes "write") ≡ some (codes "read,write")
unfolding allowed_scopes text_eq
write_allowed = refl

allowed_scopes-Grants_example :
    ((codes "write" ≡ codes "read") × Grants (codes "read,write") false false)
    ⊎ ((codes "write" ≡ codes "write"
          ⊎ codes "write" ≡ codes "read,write"
          ⊎ codes "write" ≡ codes "write,read")
        × Grants (codes "read,write") true false)
    ⊎ ((codes "write" ≡ codes "admin"
          ⊎ codes "write" ≡ codes "read,write,admin"
          ⊎ codes "write" ≡ codes "admin,read,write")
        × Grants (codes "read,write") true true)
allowed_scopes-Grants_example =
    allowed_scopes-Grants (codes "write") (codes "read,write") write_allowed

parse_int-IsInt64_example : IsInt64 (negsuc 41)
unfolding parse_int
parse_int-IsInt64_example = parse_int-IsInt64 (codes "-42") (negsuc 41) refl
