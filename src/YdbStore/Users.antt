-- ===== src/YdbStore/Users.antt =====
-- `userRepo` of pkg/store/ydbstore/ydbstore.go.
pub mod Stored
pub mod Listed
use s21_identity_service.Base.{List, [], ◌∷◌, map, if◌then◌else◌}
use s21_identity_service.Base.Int.{ℤ}
use s21_identity_service.Base.Exec.{Outcome, ok, err, pure, fail, ◌>>=◌, ◌>>◌}
use s21_identity_service.Text.{Text}
use s21_identity_service.Store.{Time, is_zero, User, StoreError, not_found, Repo}
use s21_identity_service.YdbStore.Columns.{UserRow, uint64_of, int64_of}
use s21_identity_service.YdbStore.Service.{Ydb}
use s21_identity_service.YdbStore.Session.{execute, first_row, attempt, do_tx}

-- The creation time of the row that an upsert finds; that of the zero row if there is none.
unfoldable pub existing_created_at : {S : Type 0} → Outcome StoreError User → Repo S Time
unfolding pure fail
existing_created_at (ok existing) = pure existing.created_at
existing_created_at (err not_found) = pure 0
existing_created_at (err e) = fail e

-- `CreatedAt` of an upsert: that of the existing row, else the given one, else `UpdatedAt`.
unfoldable pub dated : Time → User → User
dated existing u =
    let kept = if is_zero existing then u.created_at else existing in
    record u { created_at = if is_zero kept then u.updated_at else kept }

module _ (y : Ydb) where
  unfoldable pub scan_user : UserRow → User
  scan_user row = record {
    telegram_id = int64_of row.telegram_id;
    nickname = row.nickname;
    campus_id = row.campus_id;
    campus_name = row.campus_name;
    coalition_name = row.coalition_name;
    created_at = y.time row.created_at;
    updated_at = y.time row.updated_at;
  }

  -- The parameters of the UPSERT.
  unfoldable pub user_params : User → UserRow
  user_params u = record {
    telegram_id = uint64_of u.telegram_id;
    nickname = u.nickname;
    campus_id = u.campus_id;
    campus_name = u.campus_name;
    coalition_name = u.coalition_name;
    created_at = y.timestamp u.created_at;
    updated_at = y.timestamp u.updated_at;
  }

  unfoldable pub get_by_telegram_id : ℤ → Repo y.State User
  unfolding scan_user
  get_by_telegram_id tid = do
    rows ← execute (y.select_user (uint64_of tid))
    row ← first_row rows
    pure (scan_user row)

  -- The first attempt, whose slice `out` is empty.
  unfoldable pub get_by_telegram_ids : List ℤ → Repo y.State (List User)
  unfolding scan_user
  get_by_telegram_ids [] = pure []
  get_by_telegram_ids (tid ∷ tids) = do
    rows ← execute (y.select_users (map uint64_of (tid ∷ tids)))
    pure (map scan_user rows)

  -- The first attempt, whose slice `out` is empty.
  unfoldable pub list_by_nickname : Text → Repo y.State (List User)
  unfolding scan_user
  list_by_nickname nickname = do
    rows ← execute (y.select_by_nickname nickname)
    pure (map scan_user rows)

  unfoldable pub upsert : User → Repo y.State User
  unfolding get_by_telegram_id attempt existing_created_at dated user_params
  upsert u = do
    existing ← attempt (get_by_telegram_id u.telegram_id)
    created ← existing_created_at existing
    do_tx y (execute (y.upsert_user (user_params (dated created u))))
    pure (dated created u)

  unfoldable pub delete : ℤ → Repo y.State (Unit {0})
  unfolding get_by_telegram_id
  delete tid = do get_by_telegram_id tid; do_tx y (execute (y.delete_user (uint64_of tid)))
