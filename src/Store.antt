-- ===== src/Store.antt =====
-- pkg/store/store.go: the rows, the errors and the interface of a store. A `time.Time` is the number
-- of nanoseconds since Go's zero time, so that `IsZero` is the test for 0.
pub mod Scopes
use s21_identity_service.Base.{ℕ, ◌==ℕ◌, Bool, true, false, Option, none, some, List}
use s21_identity_service.Base.Int.{ℤ}
use s21_identity_service.Base.Exec.{Exec}
use s21_identity_service.Text.{Text}

abbrev pub Time : Type 0
Time = ℕ

abbrev pub is_zero : Time → Bool
is_zero t = t ==ℕ 0

pub record User : Type 0 where
  pub telegram_id : ℤ
  pub nickname : Text
  pub campus_id : Text
  pub campus_name : Text
  pub coalition_name : Text
  pub created_at : Time
  pub updated_at : Time

pub record NicknameCacheEntry : Type 0 where
  pub nickname : Text
  pub campus_id : Text
  pub campus_name : Text
  pub coalition_name : Text
  pub cached_at : Time

pub record S21TokenCacheEntry : Type 0 where
  pub token_hash : Text
  pub login : Text
  pub expires_at : Time

pub record ApiKey : Type 0 where
  pub key_hash : Text
  pub name : Text
  pub scopes : Text
  pub created_at : Time
  pub revoked_at : Option Time
  pub created_by_telegram_id : ℤ

unfoldable pub has_scope : ApiKey → Text → Bool
unfolding Scopes.has_scope_in
has_scope k scope = Scopes.has_scope_in k.scopes scope

abbrev pub is_active : ApiKey → Bool
is_active k = elim k.revoked_at [ none ↦ true | some _ ↦ false ]

-- The sentinels, and any other failure of the storage, with its message.
pub data StoreError : Type 0 where
  not_found key_name_in_use creator_has_active_key : StoreError
  failure : Text → StoreError

abbrev pub Repo : Type 0 → Type 0 → Type 0
Repo S A = Exec S StoreError A

-- `Store` with its four repositories, over an unknown state. `Close` is left out.
pub record Store : Type 1 where
  pub State : Type 0
  pub get_by_telegram_id : ℤ → Repo State User
  pub get_by_telegram_ids : List ℤ → Repo State (List User)
  pub list_by_nickname : Text → Repo State (List User)
  pub upsert_user : User → Repo State User
  pub delete_user : ℤ → Repo State (Unit {0})
  pub get_nickname : Text → Repo State NicknameCacheEntry
  pub upsert_nickname : NicknameCacheEntry → Repo State (Unit {0})
  pub get_by_hash : Text → Repo State ApiKey
  pub insert_key : ApiKey → Repo State (Unit {0})
  pub revoke_by_name : Text → ℤ → Time → Repo State (Unit {0})
  pub list_keys : Repo State (List ApiKey)
  pub count_by_creator_since : ℤ → Time → Repo State ℕ
  pub get_token : Text → Repo State S21TokenCacheEntry
  pub upsert_token : S21TokenCacheEntry → Repo State (Unit {0})
