-- ===== src/MemStore/Tokens.antt =====
-- `tokenCacheRepo` of pkg/store/memstore/memstore.go.
use s21_identity_service.Base.{none, some, text_eq}
use s21_identity_service.Base.Map
use s21_identity_service.Base.Map.{Map}
use s21_identity_service.Base.Exec.{ok, err}
use s21_identity_service.Text.{Text}
use s21_identity_service.Store.{S21TokenCacheEntry, Repo, not_found}

unfoldable pub get : Text → Repo (Map Text S21TokenCacheEntry) S21TokenCacheEntry
get hash token_cache = elim (Map.lookup hash token_cache) [
  | none ↦ (err not_found, token_cache)
  | some e ↦ (ok e, token_cache)
]

unfoldable pub upsert : S21TokenCacheEntry → Repo (Map Text S21TokenCacheEntry) (Unit {0})
upsert e token_cache = (ok tt, Map.insert e.token_hash e token_cache)
