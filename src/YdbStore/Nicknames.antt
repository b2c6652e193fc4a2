-- ===== src/YdbStore/Nicknames.antt =====
-- `cacheRepo` of pkg/store/ydbstore/ydbstore.go: the column of nicknames is in lower case.
pub mod Lower
use s21_identity_service.Base.{if◌then◌else◌}
use s21_identity_service.Base.Exec.{pure, ◌>>=◌}
use s21_identity_service.Text.{Text}
use s21_identity_service.Text.Case.{CaseTable, to_lower}
use s21_identity_service.Store.{Time, is_zero, NicknameCacheEntry, Repo}
use s21_identity_service.YdbStore.Columns.{NicknameRow}
use s21_identity_service.YdbStore.Service.{Ydb}
use s21_identity_service.YdbStore.Session.{execute, first_row, do_tx}

module _ (y : Ydb) (table : CaseTable) where
  unfoldable pub get : Text → Repo y.State NicknameCacheEntry
  get nickname = do
    rows ← execute (y.select_nickname (to_lower table nickname))
    row ← first_row rows
    pure (record {
      nickname = row.nickname;
      campus_id = row.campus_id;
      campus_name = row.campus_name;
      coalition_name = row.coalition_name;
      cached_at = y.time row.cached_at;
    })

  -- The parameters of the UPSERT, at the time `now` of the clock.
  unfoldable pub nickname_params : Time → NicknameCacheEntry → NicknameRow
  nickname_params now e = record {
    nickname = to_lower table e.nickname;
    campus_id = e.campus_id;
    campus_name = e.campus_name;
    coalition_name = e.coalition_name;
    cached_at = y.timestamp (if is_zero e.cached_at then now else e.cached_at);
  }

  unfoldable pub upsert : Time → NicknameCacheEntry → Repo y.State (Unit {0})
  unfolding nickname_params
  upsert now e = do_tx y (execute (y.upsert_nickname (nickname_params now e)))
