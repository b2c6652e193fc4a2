-- ===== src/YdbStore/Tokens.antt =====
-- `tokenCacheRepo` of pkg/store/ydbstore/ydbstore.go.
use s21_identity_service.Base.Exec.{pure, ◌>>=◌}
use s21_identity_service.Text.{Text}
use s21_identity_service.Store.{S21TokenCacheEntry, Repo}
use s21_identity_service.YdbStore.Service.{Ydb}
use s21_identity_service.YdbStore.Session.{execute, first_row, do_tx}

module _ (y : Ydb) where
  unfoldable pub get : Text → Repo y.State S21TokenCacheEntry
  get hash = do
    rows ← execute (y.select_token hash)
    row ← first_row rows
    pure (record {
      token_hash = row.token_hash;
      login = row.login;
      expires_at = y.time row.expires_at;
    })

  unfoldable pub upsert : S21TokenCacheEntry → Repo y.State (Unit {0})
  upsert e = do_tx y (
      execute (
        y.upsert_token (record {
          token_hash = e.token_hash;
          login = e.login;
          expires_at = y.timestamp e.expires_at;
        })))
