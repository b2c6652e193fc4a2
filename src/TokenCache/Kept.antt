-- ===== src/TokenCache/Kept.antt =====
-- Well-formedness of the cache of pkg/api/s21_token_cache.go, for the server's calls.
use s21_identity_service.Base.{[], ◌==◌, text_eq, ==_iff, Bool-cases, inl, inr, arith}
use s21_identity_service.Text.{Text}
use s21_identity_service.Store.{Time}
use s21_identity_service.TokenCache.Defs
use s21_identity_service.TokenCache.Defs.{TokenCache}
use s21_identity_service.TokenCache.Refines.{IsCache, Shows-IsCache, get-read, get_empty, put_empty}
use s21_identity_service.TokenCache.Writes.{put-record_login}

module _ (hash_token : Text → Text) (now : Time) (token : Text) {c : TokenCache}
    (v : IsCache c) where
  pub get-IsCache : IsCache (Defs.get hash_token now token c).1
  get-IsCache = elim (Bool-cases (token == [])) [
    | inl e ↦ rw ((==_iff token []).0 e, get_empty) v
    | inr e ↦ Shows-IsCache v (get-read hash_token v now token (ground arith)).1
  ]

  pub put-IsCache : (login : Text) → IsCache (Defs.put hash_token now token login c)
  put-IsCache login = elim (Bool-cases (token == [])) [
    | inl e ↦ rw ((==_iff token []).0 e, put_empty) v
    | inr e ↦ Shows-IsCache v (put-record_login hash_token v now login token (ground arith))
  ]
