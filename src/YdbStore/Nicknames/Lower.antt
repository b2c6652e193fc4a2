-- ===== src/YdbStore/Nicknames/Lower.antt =====
-- An entry that the nickname cache of pkg/store/ydbstore/ydbstore.go has written, as it reads it.
use s21_identity_service.Base.{◌≡◌, ◌∙◌, ap, some, arith, text_eq, if◌then◌else◌}
use s21_identity_service.Base.Map
use s21_identity_service.Base.Map.{lookup, lookup-insert}
use s21_identity_service.Base.Exec.{ok}
use s21_identity_service.Text.{Text}
use s21_identity_service.Text.Case.{CaseTable, to_lower}
use s21_identity_service.Store.{Time, is_zero, NicknameCacheEntry}
use s21_identity_service.YdbStore.Columns.{NicknameRow}
use s21_identity_service.YdbStore.Service.{Ydb, IsYdb, Tables}
use s21_identity_service.YdbStore.Session.{execute}
use s21_identity_service.YdbStore.Session.Laws.{do_tx-ok, execute-Writes}
use s21_identity_service.YdbStore.Session.Lookup.{OrFailure, lookup_lem}
use s21_identity_service.YdbStore.Nicknames.{get, upsert, nickname_params}
use s21_identity_service.YdbStore.Keys.Stored.{IsTimestamp, truncated}

module _ {y : Ydb} (d : IsYdb y) (table : CaseTable) (now : Time) (e : NicknameCacheEntry)
    (s : y.State) where
  abbrev cached : Time
  cached = if is_zero e.cached_at then now else e.cached_at

  abbrev row : NicknameRow
  row = nickname_params y table now e

  abbrev put : Tables → Tables
  put t = record t { nicknames = Map.insert row.nickname row t.nicknames }

  -- If YDB behaves as documented, an entry that was written to the nickname cache, at a time that
  -- the column keeps, is read back under every spelling of its nickname with the nickname in lower
  -- case and the time truncated to the microsecond; or the driver fails.
  pub get-upsert_lower :
      (nick : Text)
      → to_lower table nick ≡ to_lower table e.nickname
      → IsTimestamp cached
      → (upsert y table now e s).0 ≡ ok tt
      → OrFailure
          (get y table nick (upsert y table now e s).1).0
          (ok (record e { nickname = to_lower table e.nickname; cached_at = truncated cached }))
  unfolding get upsert nickname_params
  get-upsert_lower nick same (lo, hi) h =
      let (done, committed) = do_tx-ok d (execute (y.upsert_nickname row)) s tt h in
      let after : d.tables (upsert y table now e s).1 ≡ put (d.tables s) =
        committed
        ∙ execute-Writes (y.upsert_nickname row) s d.tables put (d.upsert_nickname row) done in
      let found : lookup (to_lower table nick) (d.tables (upsert y table now e s).1).nicknames
          ≡ some row =
        ap (λ t. lookup (to_lower table nick) t.nicknames) after
        ∙ lookup-insert row.nickname (to_lower table nick) row (d.tables s).nicknames
        ∙ ground arith in
      let (_, answered) =
        lookup_lem {B = NicknameCacheEntry} d.tables (λ t. lookup (to_lower table nick) t.nicknames)
          (y.select_nickname (to_lower table nick)) (d.select_nickname (to_lower table nick))
          (λ (r : NicknameRow). record {
            nickname = r.nickname;
            campus_id = r.campus_id;
            campus_name = r.campus_name;
            coalition_name = r.coalition_name;
            cached_at = y.time r.cached_at;
          })
          (upsert y table now e s).1 in
      rw (← (d.time_kept cached lo hi)) (rw found at answered)
