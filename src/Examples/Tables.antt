-- ===== src/Examples/Tables.antt =====
-- The theorems on the store in YDB, applied.
use s21_identity_service.Base.{
  ℕ, ◌+◌, ◌*◌, ◌<◌, ◌^◌, ◌≡◌, ◌≢◌, refl, ◌⊎◌, ◌↔◌, inl, inr, none, some, true, List, [], ◌∷◌, Has,
  ◌==◌, text_eq, if◌then◌else◌, arith,
}
use s21_identity_service.Base.Int.{pos, int_eq}
use s21_identity_service.Base.Map
use s21_identity_service.Base.Map.{Map, lookup, NodupKeys}
use s21_identity_service.Base.Exec.{Outcome, ok, err}
use s21_identity_service.Text.{Text, codes}
use s21_identity_service.Text.Case.{ascii}
use s21_identity_service.Store.{
  Time, User, ApiKey, NicknameCacheEntry, StoreError, key_name_in_use, creator_has_active_key,
}
use s21_identity_service.MemStore.Invariant.{empty-IsSound}
use s21_identity_service.MemStore.Keys as MemKeys
use s21_identity_service.MemStore.Keys.Scan.{TakesName, TakesCreator}
use s21_identity_service.MemStore.Keys.Laws.{IsValid, insert-IsValid}
use s21_identity_service.MemStore.Keys.Order.{SameRows}
use s21_identity_service.YdbStore.Columns.{UserRow, KeyRow, uint64_of}
use s21_identity_service.YdbStore.Service.{Tables, nat_eq, epoch}
use s21_identity_service.YdbStore.Session.Laws.{IsSentinel}
use s21_identity_service.YdbStore.Session.Lookup.{OrFailure, answer}
use s21_identity_service.YdbStore.Users
use s21_identity_service.YdbStore.Users.Stored.{get_by_telegram_id-upsert, kept_user}
use s21_identity_service.YdbStore.Users.Listed.{list_by_nickname-upsert}
use s21_identity_service.YdbStore.Nicknames
use s21_identity_service.YdbStore.Nicknames.Lower.{get-upsert_lower}
use s21_identity_service.YdbStore.Keys
use s21_identity_service.YdbStore.Keys.Shown.{shown}
use s21_identity_service.YdbStore.Keys.Insert.Refines.{insert-refines}
use s21_identity_service.YdbStore.Keys.Revoke.Refines.{revoke_by_name-refines}
use s21_identity_service.YdbStore.Keys.Reach.{
  IsValidTable, Answered, Reach, here, next, insertion, revocation, Reach-IsValidTable,
}
use s21_identity_service.YdbStore.Keys.Stored.{get_by_hash-insert, truncated}
use s21_identity_service.Examples.Ydb.{ydb, ydb-IsYdb, option_eq, kept, first_active}

abbrev pub now : Time
now = epoch + 1234567

abbrev pub stored_key : KeyRow
stored_key = record {
  key_hash = codes "k1";
  name = codes "root";
  scopes = codes "read";
  created_at = 1;
  revoked_at = none;
  created_by_telegram_id = some 7;
}

abbrev pub stored_user : UserRow
stored_user = record {
  telegram_id = 7;
  nickname = codes "evan";
  campus_id = codes "c1";
  campus_name = codes "Kazan";
  coalition_name = codes "Alpha";
  created_at = 1;
  updated_at = 1;
}

abbrev pub tables : Tables
tables = record {
  users = (7, stored_user) ∷ [];
  nicknames = [];
  api_keys = (codes "k1", stored_key) ∷ [];
  token_cache = [];
}

abbrev bot : ApiKey
bot = record {
  key_hash = codes "k2";
  name = codes "bot";
  scopes = codes "read";
  created_at = now;
  revoked_at = none;
  created_by_telegram_id = pos 8;
}

abbrev evan : User
evan = record {
  telegram_id = pos 7;
  nickname = codes "Evan";
  campus_id = codes "c1";
  campus_name = codes "Kazan";
  coalition_name = codes "Alpha";
  created_at = now;
  updated_at = now;
}

nodup : NodupKeys tables.api_keys
unfolding lookup
nodup = (refl, tt)

typed :
    (h : Text) (k : KeyRow) (n : ℕ)
    → lookup h tables.api_keys ≡ some k
    → k.created_by_telegram_id ≡ some n
    → n < 2 ^ 64
unfolding lookup
typed h k n l c = ground arith

abbrev bot_row : ApiKey
bot_row = record bot { created_at = ydb.time (ydb.timestamp now); revoked_at = none }

insert-refines_example :
    ((Keys.insert ydb now bot tables).0 ≡ ok tt
      → MemKeys.insert bot_row (shown ydb tables.api_keys)
        ≡ (ok tt, shown ydb (Keys.insert ydb now bot tables).1.api_keys))
    × ((e : StoreError)
        → IsSentinel e
        → (Keys.insert ydb now bot tables).0 ≡ err e
        → ((Keys.insert ydb now bot tables).1 ≡ tables)
          × (((e ≡ key_name_in_use) × TakesName bot_row (shown ydb tables.api_keys))
              ⊎ ((e ≡ creator_has_active_key) × TakesCreator bot_row (shown ydb tables.api_keys))))
insert-refines_example = insert-refines ydb-IsYdb now bot tables nodup typed (omega arith)

abbrev memory : Map Text ApiKey
memory = shown ydb tables.api_keys

memory-IsValid : IsValid memory
unfolding MemKeys.insert Map.insert Keys.scan_api_key
memory-IsValid =
    insert-IsValid (Keys.scan_api_key ydb stored_key) [] ((empty-IsSound ascii).api_keys)

revoke_by_name-refines_example :
    ((Keys.revoke_by_name ydb (codes "root") (pos 7) now tables).0 ≡ ok tt
      → ((MemKeys.revoke_by_name (codes "root") (pos 7) (ydb.time (ydb.timestamp now)) memory).0
          ≡ ok tt)
        × SameRows
            (shown ydb (Keys.revoke_by_name ydb (codes "root") (pos 7) now tables).1.api_keys)
            (MemKeys.revoke_by_name (codes "root") (pos 7) (ydb.time (ydb.timestamp now)) memory).1)
    × ((e : StoreError)
        → IsSentinel e
        → (Keys.revoke_by_name ydb (codes "root") (pos 7) now tables).0 ≡ err e
        → ((Keys.revoke_by_name ydb (codes "root") (pos 7) now tables).1 ≡ tables)
          × (MemKeys.revoke_by_name (codes "root") (pos 7) (ydb.time (ydb.timestamp now)) memory
              ≡ (err e, memory)))
revoke_by_name-refines_example =
    revoke_by_name-refines ydb-IsYdb (codes "root") (pos 7) now tables memory-IsValid

pub tables-IsValidTable : IsValidTable ydb-IsYdb tables
tables-IsValidTable = record { nodup = nodup; typed = typed; valid = memory-IsValid }

abbrev replaced : Tables
replaced = (Keys.revoke_by_name ydb (codes "root") (pos 0) now (Keys.insert ydb now bot tables).1).1

ok-Answered : (r : Outcome StoreError (Unit {0})) → r ≡ ok tt → Answered ydb-IsYdb r
ok-Answered r h m e = absurd (cc)

inserted : (Keys.insert ydb now bot tables).0 ≡ ok tt
unfolding Keys.insert s21_identity_service.YdbStore.Session.do_tx
    s21_identity_service.YdbStore.Session.no_row first_active lookup text_eq int_eq option_eq
    uint64_of
inserted = refl

withdrawn :
    (Keys.revoke_by_name ydb (codes "root") (pos 0) now (Keys.insert ydb now bot tables).1).0
    ≡ ok tt
unfolding Keys.insert Keys.revoke_by_name s21_identity_service.YdbStore.Session.do_tx
    s21_identity_service.YdbStore.Session.no_row s21_identity_service.YdbStore.Session.first_row
    first_active lookup text_eq int_eq option_eq uint64_of Map.insert
withdrawn = refl

replaced-Reach : Reach ydb-IsYdb tables replaced
replaced-Reach =
    next (next here (insertion now bot (omega arith) (ok-Answered _ inserted)))
      (revocation (codes "root") (pos 0) now (ok-Answered _ withdrawn))

Reach-IsValidTable_example : IsValidTable ydb-IsYdb replaced
Reach-IsValidTable_example = Reach-IsValidTable ydb-IsYdb tables-IsValidTable replaced-Reach

get_by_hash-insert_example :
    OrFailure
      (Keys.get_by_hash ydb (codes "k2") (Keys.insert ydb now bot tables).1).0
      (ok (record bot { created_at = truncated now; revoked_at = none }))
unfolding Keys.insert s21_identity_service.YdbStore.Session.do_tx
    s21_identity_service.YdbStore.Session.no_row first_active lookup text_eq int_eq option_eq
    uint64_of
get_by_hash-insert_example =
    get_by_hash-insert ydb-IsYdb now bot tables (omega arith) (omega arith, omega arith) refl

get_by_telegram_id-upsert_example :
    ((row : UserRow)
      → lookup (uint64_of (pos 7)) tables.users ≡ some row
      → ydb.time row.created_at ≢ 0
      → epoch + 1000 ≡ ydb.time row.created_at)
    × OrFailure (Users.get_by_telegram_id ydb (pos 7) (Users.upsert ydb evan tables).1).0 (
        if pos 7 == pos 7
        then ok (kept_user ydb-IsYdb evan tables (record evan { created_at = epoch + 1000 }))
        else answer (Users.scan_user ydb) (lookup (uint64_of (pos 7)) tables.users))
unfolding Users.upsert s21_identity_service.Base.Exec.◌>>=◌
    s21_identity_service.YdbStore.Session.execute s21_identity_service.YdbStore.Session.first_row
    lookup nat_eq uint64_of s21_identity_service.YdbStore.Session.do_tx
get_by_telegram_id-upsert_example =
    get_by_telegram_id-upsert ydb-IsYdb evan tables (record evan { created_at = epoch + 1000 })
      (pos 7) (omega arith) (omega arith) (omega arith, omega arith) (omega arith, omega arith) refl

abbrev entry : NicknameCacheEntry
entry = record {
  nickname = codes "Evan";
  campus_id = codes "c1";
  campus_name = codes "Kazan";
  coalition_name = codes "Alpha";
  cached_at = now;
}

get-upsert_lower_example :
    OrFailure
      (Nicknames.get ydb ascii (codes "eVAN") (Nicknames.upsert ydb ascii now entry tables).1).0
      (ok (record entry { nickname = codes "evan"; cached_at = truncated now }))
unfolding Nicknames.upsert s21_identity_service.YdbStore.Session.do_tx
get-upsert_lower_example =
    get-upsert_lower ydb-IsYdb ascii now entry tables (codes "eVAN") refl (omega arith, omega arith)
      refl

abbrev renamed : User
renamed = record evan { created_at = epoch + 1000 }

abbrev renamed_kept : User
renamed_kept = record renamed {
  created_at = truncated renamed.created_at;
  updated_at = truncated renamed.updated_at;
}

list_by_nickname-upsert_example :
    (Has (kept_user ydb-IsYdb evan tables renamed) (renamed_kept ∷ [])
      ↔ (codes "Evan" ≡ codes "Evan"))
    × ((v : User) → Has v (renamed_kept ∷ []) → v.nickname ≡ codes "Evan")
unfolding Users.upsert s21_identity_service.Base.Exec.◌>>=◌
    s21_identity_service.YdbStore.Session.execute s21_identity_service.YdbStore.Session.first_row
    lookup nat_eq uint64_of s21_identity_service.YdbStore.Session.do_tx Users.list_by_nickname kept
    text_eq Map.insert s21_identity_service.YdbStore.Columns.int64_of
list_by_nickname-upsert_example =
    list_by_nickname-upsert ydb-IsYdb evan tables renamed (codes "Evan") (renamed_kept ∷ [])
      (omega arith) (omega arith, omega arith) (omega arith, omega arith) refl refl
