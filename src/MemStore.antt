-- ===== src/MemStore.antt =====
-- pkg/store/memstore/memstore.go: the store in memory. Each method holds the mutex from its first
-- statement to its return, so that a call is one step on the four maps. Where a method ranges over a
-- map, the order of the association list is the order of that range, and no theorem assumes one.
pub mod Users
pub mod Nicknames
pub mod Keys
pub mod Tokens
pub mod Invariant
pub mod Reads
use s21_identity_service.Base.{List, []}
use s21_identity_service.Base.Int.{ℤ}
use s21_identity_service.Base.Map.{Map}
use s21_identity_service.Base.Exec.{Exec, Outcome}
use s21_identity_service.Text.{Text}
use s21_identity_service.Text.Case.{CaseTable}
use s21_identity_service.Store.{Store, User, NicknameCacheEntry, S21TokenCacheEntry, ApiKey, Repo}

pub record MemStore : Type 0 where
  pub users : Map ℤ User
  pub nicknames : Map Text NicknameCacheEntry
  pub api_keys : Map Text ApiKey
  pub token_cache : Map Text S21TokenCacheEntry

-- `New`
abbrev pub empty : MemStore
empty = record { users = []; nicknames = []; api_keys = []; token_cache = [] }

-- A method of one repository, as a method of the whole store.
abbrev on_users : {A : Type 0} → Repo (Map ℤ User) A → Repo MemStore A
on_users m s = let (r, users) = m s.users in (r, record s { users = users })

abbrev on_nicknames : {A : Type 0} → Repo (Map Text NicknameCacheEntry) A → Repo MemStore A
on_nicknames m s = let (r, nicknames) = m s.nicknames in (r, record s { nicknames = nicknames })

abbrev on_api_keys : {A : Type 0} → Repo (Map Text ApiKey) A → Repo MemStore A
on_api_keys m s = let (r, api_keys) = m s.api_keys in (r, record s { api_keys = api_keys })

abbrev on_token_cache : {A : Type 0} → Repo (Map Text S21TokenCacheEntry) A → Repo MemStore A
on_token_cache m s =
    let (r, token_cache) = m s.token_cache in (r, record s { token_cache = token_cache })

-- The store as the server uses it.
abbrev pub mem_store : CaseTable → Store
mem_store table = record {
  State = MemStore;
  get_by_telegram_id = λ tid. on_users (Users.get_by_telegram_id tid);
  get_by_telegram_ids = λ tids. on_users (Users.get_by_telegram_ids tids);
  list_by_nickname = λ nick. on_users (Users.list_by_nickname table nick);
  upsert_user = λ u. on_users (Users.upsert u);
  delete_user = λ tid. on_users (Users.delete tid);
  get_nickname = λ nick. on_nicknames (Nicknames.get table nick);
  upsert_nickname = λ e. on_nicknames (Nicknames.upsert table e);
  get_by_hash = λ h. on_api_keys (Keys.get_by_hash h);
  insert_key = λ k. on_api_keys (Keys.insert k);
  revoke_by_name = λ name by at. on_api_keys (Keys.revoke_by_name name by at);
  list_keys = on_api_keys Keys.list;
  count_by_creator_since = λ by since. on_api_keys (Keys.count_by_creator_since by since);
  get_token = λ h. on_token_cache (Tokens.get h);
  upsert_token = λ e. on_token_cache (Tokens.upsert e);
}
