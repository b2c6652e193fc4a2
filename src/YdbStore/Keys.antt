-- ===== src/YdbStore/Keys.antt =====
-- `apiKeyRepo` of pkg/store/ydbstore/ydbstore.go.
pub mod Shown
pub mod Insert
pub mod Revoke
pub mod Stored
pub mod Reach
use s21_identity_service.Base.{
  ℕ, Bool, not, Option, none, some, List, [], ◌∷◌, map, ◌==◌, if◌then◌else◌,
}
use mathlib.Core.Option
use s21_identity_service.Base.Int.{ℤ, pos, int_eq}
use s21_identity_service.Base.Exec.{pure, fail, ◌>>=◌, ◌>>◌}
use s21_identity_service.Text.{Text}
use s21_identity_service.Store.{
  Time, is_zero, ApiKey, not_found, key_name_in_use, creator_has_active_key, Repo,
}
use s21_identity_service.YdbStore.Columns.{KeyRow, uint64_of, int64_of}
use s21_identity_service.YdbStore.Service.{Ydb}
use s21_identity_service.YdbStore.Session.{execute, first_row, no_row, do_tx}

-- A creator that is NULL is read as 0, and 0 is written as NULL.
unfoldable pub creator_of : Option ℕ → ℤ
creator_of none = pos 0
creator_of (some n) = int64_of n

unfoldable pub creator_param : ℤ → Option ℕ
creator_param by = if by == pos 0 then none else some (uint64_of by)

-- The owner test of `RevokeByName`.
unfoldable pub check_owner : {S : Type 0} → ℤ → Option ℕ → Repo S (Unit {0})
unfolding pure fail
check_owner by none = if by == pos 0 then pure tt else fail not_found
check_owner by (some owner) =
    if by == pos 0 then pure tt else if int64_of owner == by then pure tt else fail not_found

-- The row of `SELECT COUNT(*)`. A count is below 2 ^ 63, so that `int(c)` is `c`.
abbrev pub count_of : List ℕ → ℕ
count_of [] = 0
count_of (c ∷ _) = c

module _ (y : Ydb) where
  unfoldable pub scan_api_key : KeyRow → ApiKey
  unfolding creator_of
  scan_api_key row = record {
    key_hash = row.key_hash;
    name = row.name;
    scopes = row.scopes;
    created_at = y.time row.created_at;
    revoked_at = Option.map y.time row.revoked_at;
    created_by_telegram_id = creator_of row.created_by_telegram_id;
  }

  -- The parameters of the UPSERT.
  unfoldable pub key_params : ApiKey → KeyRow
  unfolding creator_param
  key_params k = record {
    key_hash = k.key_hash;
    name = k.name;
    scopes = k.scopes;
    created_at = y.timestamp k.created_at;
    revoked_at = none;
    created_by_telegram_id = creator_param k.created_by_telegram_id;
  }

  unfoldable pub get_by_hash : Text → Repo y.State ApiKey
  unfolding scan_api_key
  get_by_hash h = do rows ← execute (y.select_key h); row ← first_row rows; pure (scan_api_key row)

  -- The first query of `Insert`.
  unfoldable pub check_name : Text → Repo y.State (Unit {0})
  check_name name = do rows ← execute (y.select_active_name name); no_row key_name_in_use rows

  -- The second query of `Insert`, left out where the creator is not set.
  unfoldable pub check_creator : ℤ → Repo y.State (Unit {0})
  check_creator by =
      if not (by == pos 0)
      then (do
        rows ← execute (y.select_active_creator (uint64_of by))
        no_row creator_has_active_key rows)
      else pure tt

  unfoldable pub insert_tx : ApiKey → Repo y.State (Unit {0})
  unfolding check_name check_creator key_params
  insert_tx k = do
    check_name k.name
    check_creator k.created_by_telegram_id
    execute (y.upsert_key (key_params k))

  abbrev pub created_or_now : Time → ApiKey → ApiKey
  created_or_now now k = record k {
    created_at = if is_zero k.created_at then now else k.created_at;
  }

  -- At the time `now` of the clock.
  unfoldable pub insert : Time → ApiKey → Repo y.State (Unit {0})
  unfolding insert_tx
  insert now k = do_tx y (insert_tx (created_or_now now k))

  unfoldable pub revoke_tx : Text → ℤ → Time → Repo y.State (Unit {0})
  unfolding check_owner
  revoke_tx name by at = do
    rows ← execute (y.select_active_owner name)
    (hash, owner) ← first_row rows
    check_owner by owner
    execute (y.update_revoked hash (y.timestamp at))

  unfoldable pub revoke_by_name : Text → ℤ → Time → Repo y.State (Unit {0})
  unfolding revoke_tx
  revoke_by_name name by at = do_tx y (revoke_tx name by at)

  -- The first attempt, whose slice `out` is empty.
  unfoldable pub list : Repo y.State (List ApiKey)
  unfolding scan_api_key
  list = do rows ← execute y.select_keys; pure (map scan_api_key rows)

  unfoldable pub count_by_creator_since : ℤ → Time → Repo y.State ℕ
  count_by_creator_since by since = do
    rows ← execute (y.count_keys (uint64_of by) (y.timestamp since))
    pure (count_of rows)
