-- ===== src/S21.antt =====
-- pkg/s21/s21.go: the profile and the errors.
pub mod Client
pub mod Mock
use s21_identity_service.Text.{Text}

pub record Profile : Type 0 where
  pub login : Text
  pub campus_id : Text
  pub campus_name : Text
  pub coalition_name : Text

-- `ErrInvalidCredentials`, `ErrNotFound`, `ErrUnavailable`, and an error of the client library that
-- is passed on as it is.
pub data S21Error : Type 0 where
  invalid_credentials not_found unavailable : S21Error
  other_error : Text → S21Error
