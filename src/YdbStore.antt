-- ===== src/YdbStore.antt =====
-- pkg/store/ydbstore/ydbstore.go: the store in YDB. The service itself is a parameter, as one
-- operation for each statement; the methods are translated down to these. Opening and closing the
-- driver is left out.
pub mod Columns
pub mod Service
pub mod Session
pub mod Users
pub mod Nicknames
pub mod Keys
pub mod Tokens
use s21_identity_service.Text.Case.{CaseTable}
use s21_identity_service.Store.{Store, Time}
use s21_identity_service.YdbStore.Service.{Ydb}

-- The store as the server uses it, at the time `now` of the clock.
abbrev pub ydb_store : Ydb → CaseTable → Time → Store
ydb_store y table now = record {
  State = y.State;
  get_by_telegram_id = Users.get_by_telegram_id y;
  get_by_telegram_ids = Users.get_by_telegram_ids y;
  list_by_nickname = Users.list_by_nickname y;
  upsert_user = Users.upsert y;
  delete_user = Users.delete y;
  get_nickname = Nicknames.get y table;
  upsert_nickname = Nicknames.upsert y table now;
  get_by_hash = Keys.get_by_hash y;
  insert_key = Keys.insert y now;
  revoke_by_name = Keys.revoke_by_name y;
  list_keys = Keys.list y;
  count_by_creator_since = Keys.count_by_creator_since y;
  get_token = Tokens.get y;
  upsert_token = Tokens.upsert y;
}
