-- ===== src/Api/Platform.antt =====
-- What the server takes from outside this repository.
use s21_identity_service.Base.{Option}
use s21_identity_service.Base.Exec.{Outcome}
use s21_identity_service.Text.{Text}
use s21_identity_service.Text.Case.{CaseTable}
use s21_identity_service.Store.{Time}
use s21_identity_service.S21.{Profile, S21Error}
use s21_identity_service.Api.Models.{LookupTelegramBatchRequest, PutUserRequest, CreateKeyRequest}

-- Functions that are the same for every request: base64 of sha256, base64, the case tables, and
-- `encoding/json` at each request type, where `none` is a decoding error.
pub record Platform : Type 0 where
  pub hash : Text → Text
  pub base64 : Text → Text
  pub case_table : CaseTable
  pub decode_batch : Text → Option LookupTelegramBatchRequest
  pub decode_put : Text → Option PutUserRequest
  pub decode_create : Text → Option CreateKeyRequest

-- The places where one request reads the clock; each is reached at most once.
pub data Site : Type 0 where
  token_read durable_check token_promote token_expiry token_write put_time cached_time : Site
  rate_time created_time revoked_time : Site

-- What the outside world answers during one request: the clock, the two calls of the S21 client,
-- and 32 random bytes, or none if they cannot be read.
pub record World : Type 0 where
  pub now : Site → Time
  pub s21_authenticate : Text → Text → Outcome S21Error Profile
  pub s21_lookup : Text → Text → Text → Outcome S21Error Profile
  pub random : Option Text
