-- ===== src/YdbStore/Columns.antt =====
-- The rows of terraform/ydb_schema.tf at the types of their columns, and the casts between a Go
-- int64 and a column of type Uint64 in pkg/store/ydbstore/ydbstore.go.
use s21_identity_service.Base.{ℕ, suc, ◌-◌, ◌%◌, ◌^◌, ◌<◌, ◌≡◌, Option, arith, ltb, if◌then◌else◌}
use s21_identity_service.Base.Int.{ℤ, pos, negsuc, IsInt64}
use s21_identity_service.Text.{Text}

-- A value of type Timestamp: microseconds since 1970.
abbrev pub Timestamp : Type 0
Timestamp = ℕ

pub record UserRow : Type 0 where
  pub telegram_id : ℕ
  pub nickname : Text
  pub campus_id : Text
  pub campus_name : Text
  pub coalition_name : Text
  pub created_at : Timestamp
  pub updated_at : Timestamp

pub record NicknameRow : Type 0 where
  pub nickname : Text
  pub campus_id : Text
  pub campus_name : Text
  pub coalition_name : Text
  pub cached_at : Timestamp

pub record KeyRow : Type 0 where
  pub key_hash : Text
  pub name : Text
  pub scopes : Text
  pub created_at : Timestamp
  pub revoked_at : Option Timestamp
  pub created_by_telegram_id : Option ℕ

pub record TokenRow : Type 0 where
  pub token_hash : Text
  pub login : Text
  pub expires_at : Timestamp

-- `uint64(n)` of an int64
unfoldable pub uint64_of : ℤ → ℕ
uint64_of (pos n) = n % 2 ^ 64
uint64_of (negsuc n) = 2 ^ 64 - suc (n % 2 ^ 64)

-- `int64(n)` of a uint64
unfoldable pub int64_of : ℕ → ℤ
int64_of n = let m = n % 2 ^ 64 in if ltb m (2 ^ 63) then pos m else negsuc (2 ^ 64 - suc m)

-- An id of Go's type int64, below 0 too, is read back from a column of type Uint64 as it was
-- written.
pub int64_of-uint64_of : (z : ℤ) → IsInt64 z → int64_of (uint64_of z) ≡ z
unfolding int64_of uint64_of
int64_of-uint64_of (pos n) h = ground arith
int64_of-uint64_of (negsuc n) h = ground arith

pub uint64_of-int64_of : (n : ℕ) → n < 2 ^ 64 → uint64_of (int64_of n) ≡ n
unfolding int64_of uint64_of
uint64_of-int64_of n h = ground arith
