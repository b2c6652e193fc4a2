-- ===== src/MemStore/Nicknames.antt =====
-- `cacheRepo` of pkg/store/memstore/memstore.go: nicknames are found whatever their case.
use s21_identity_service.Base.{none, some, text_eq}
use s21_identity_service.Base.Map
use s21_identity_service.Base.Map.{Map}
use s21_identity_service.Base.Exec.{ok, err}
use s21_identity_service.Text.{Text}
use s21_identity_service.Text.Case.{CaseTable, to_lower}
use s21_identity_service.Store.{NicknameCacheEntry, Repo, not_found}

module _ (table : CaseTable) where
  unfoldable pub get : Text → Repo (Map Text NicknameCacheEntry) NicknameCacheEntry
  get nick nicknames = elim (Map.lookup (to_lower table nick) nicknames) [
    | none ↦ (err not_found, nicknames)
    | some e ↦ (ok e, nicknames)
  ]

  unfoldable pub upsert : NicknameCacheEntry → Repo (Map Text NicknameCacheEntry) (Unit {0})
  upsert e nicknames = (ok tt, Map.insert (to_lower table e.nickname) e nicknames)
