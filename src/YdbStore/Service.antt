-- ===== src/YdbStore/Service.antt =====
-- The YDB service as pkg/store/ydbstore/ydbstore.go uses it: one operation for each statement that
-- the code sends, with the parameters and the rows at the types of the columns.
use native.Mathlib.Decide.{ℕ_discrete}
use s21_identity_service.Base.{
  ℕ, ◌+◌, ◌-◌, ◌*◌, ◌%◌, ◌^◌, ◌≤◌, ◌<◌, ◌≡◌, ◌⊎◌, Option, none, some, List, [], ◌∷◌, text_eq, Eq,
  Has, ◌↔◌,
}
use s21_identity_service.Base.Map
use s21_identity_service.Base.Map.{Map, lookup}
use s21_identity_service.Base.Exec.{Exec, ok}
use s21_identity_service.Text.{Text}
use s21_identity_service.Store.{Time}
use s21_identity_service.YdbStore.Columns.{Timestamp, UserRow, NicknameRow, KeyRow, TokenRow}

-- An operation fails with the message of the driver. Each `select` returns its whole result set;
-- `timestamp` is `types.TimestampValueFromTime`, and `time` reads a Timestamp back.
pub record Ydb : Type 1 where
  pub State : Type 0
  pub timestamp : Time → Timestamp
  pub time : Timestamp → Time
  pub select_user : ℕ → Exec State Text (List UserRow)
  pub select_users : List ℕ → Exec State Text (List UserRow)
  pub select_by_nickname : Text → Exec State Text (List UserRow)
  pub upsert_user : UserRow → Exec State Text (Unit {0})
  pub delete_user : ℕ → Exec State Text (Unit {0})
  pub select_nickname : Text → Exec State Text (List NicknameRow)
  pub upsert_nickname : NicknameRow → Exec State Text (Unit {0})
  pub select_key : Text → Exec State Text (List KeyRow)
  pub select_active_name : Text → Exec State Text (List Text)
  pub select_active_creator : ℕ → Exec State Text (List Text)
  pub select_active_owner : Text → Exec State Text (List (Text × Option ℕ))
  pub upsert_key : KeyRow → Exec State Text (Unit {0})
  pub update_revoked : Text → Timestamp → Exec State Text (Unit {0})
  pub select_keys : Exec State Text (List KeyRow)
  pub count_keys : ℕ → Timestamp → Exec State Text (List ℕ)
  pub select_token : Text → Exec State Text (List TokenRow)
  pub upsert_token : TokenRow → Exec State Text (Unit {0})
  -- The end of a transaction whose function has returned no error.
  pub commit : Exec State Text (Unit {0})

instance unfoldable pub nat_eq : Eq ℕ
unfolding ℕ_discrete
nat_eq = record { dec = ℕ_discrete }

-- The tables by their primary keys.
pub record Tables : Type 0 where
  pub users : Map ℕ UserRow
  pub nicknames : Map Text NicknameRow
  pub api_keys : Map Text KeyRow
  pub token_cache : Map Text TokenRow

-- The result set of a query by the primary key.
abbrev pub at_most_one : {A : Type 0} → Option A → List A
at_most_one none = []
at_most_one (some a) = a ∷ []

-- A row of the table that an active key with the property has.
pub record ActiveRow (Fits : KeyRow → Type 0) (keys : Map Text KeyRow) (hash : Text) : Type 0 where
  pub row : KeyRow
  pub found : lookup hash keys ≡ some row
  pub active : row.revoked_at ≡ none
  pub fits : Fits row

-- What a query for active keys with the property and `LIMIT 1` may return: nothing if there is no
-- such row, else what `shown` reads from one of them.
abbrev pub OneOf :
    {A : Type 0} → (KeyRow → Type 0) → (Text → KeyRow → A) → Map Text KeyRow → List A → Type 0
OneOf Fits shown keys rows =
    ((rows ≡ []) × ((hash : Text) → ¬ ActiveRow Fits keys hash))
    ⊎ ((hash : Text) × (r : ActiveRow Fits keys hash) × (rows ≡ shown hash r.row ∷ []))

-- A query that succeeds changes no table, nor does one that fails, and its rows are as `P` says.
abbrev pub Reads : {S A : Type 0} → (S → Tables) → Exec S Text A → (Tables → A → Type 0) → Type 0
Reads {S} {A} tables query P =
    (s : S) → (tables (query s).1 ≡ tables s) × ((a : A) → (query s).0 ≡ ok a → P (tables s) a)

-- A statement that succeeds changes the tables as `f` says.
abbrev pub Writes :
    {S : Type 0} → (S → Tables) → Exec S Text (Unit {0}) → (Tables → Tables) → Type 0
Writes {S} tables statement f =
    (s : S) → (statement s).0 ≡ ok tt → tables (statement s).1 ≡ f (tables s)

-- 1970 in nanoseconds from Go's zero time.
abbrev pub epoch : Time
epoch = 62135596800 * 1000000000

abbrev pub set_revoked : Option KeyRow → Text → Timestamp → Tables → Tables
set_revoked none hash at t = t
set_revoked (some k) hash at t = record t {
  api_keys = Map.insert hash (record k { revoked_at = some at }) t.api_keys;
}

-- What YDB documents of these statements. A time after 1970 keeps its microseconds for as long as
-- the distance fits an int64 of nanoseconds.
pub record IsYdb (y : Ydb) : Type 0 where
  pub tables : y.State → Tables
  pub time_kept :
      (t : Time) → epoch ≤ t → t < epoch + 2 ^ 63 → y.time (y.timestamp t) ≡ t - t % 1000
  pub select_user :
      (tid : ℕ)
      → Reads tables (y.select_user tid) (λ t rows. rows ≡ at_most_one (lookup tid t.users))
  pub select_by_nickname :
      (n : Text)
      → Reads tables (y.select_by_nickname n) (λ t rows.
        (r : UserRow) → Has r rows ↔ ((tid : ℕ) × (lookup tid t.users ≡ some r) × (r.nickname ≡ n)))
  pub upsert_user :
      (u : UserRow)
      → Writes tables
          (y.upsert_user u)
          (λ t. record t { users = Map.insert u.telegram_id u t.users })
  pub delete_user :
      (tid : ℕ)
      → Writes tables (y.delete_user tid) (λ t. record t { users = Map.erase tid t.users })
  pub select_nickname :
      (n : Text)
      → Reads tables (y.select_nickname n) (λ t rows. rows ≡ at_most_one (lookup n t.nicknames))
  pub upsert_nickname :
      (e : NicknameRow)
      → Writes tables
          (y.upsert_nickname e)
          (λ t. record t { nicknames = Map.insert e.nickname e t.nicknames })
  pub select_key :
      (h : Text)
      → Reads tables (y.select_key h) (λ t rows. rows ≡ at_most_one (lookup h t.api_keys))
  pub select_active_name :
      (name : Text)
      → Reads tables
          (y.select_active_name name)
          (λ t rows. OneOf (λ k. k.name ≡ name) (λ h k. h) t.api_keys rows)
  pub select_active_creator :
      (by : ℕ)
      → Reads tables
          (y.select_active_creator by)
          (λ t rows. OneOf (λ k. k.created_by_telegram_id ≡ some by) (λ h k. h) t.api_keys rows)
  pub select_active_owner :
      (name : Text)
      → Reads tables (y.select_active_owner name) (λ t rows.
        OneOf (λ k. k.name ≡ name) (λ h k. (h, k.created_by_telegram_id)) t.api_keys rows)
  pub upsert_key :
      (k : KeyRow)
      → Writes tables
          (y.upsert_key k)
          (λ t. record t { api_keys = Map.insert k.key_hash k t.api_keys })
  pub update_revoked :
      (h : Text) (at : Timestamp)
      → Writes tables (y.update_revoked h at) (λ t. set_revoked (lookup h t.api_keys) h at t)
  pub commit : Writes tables y.commit (λ t. t)
