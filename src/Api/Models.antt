-- ===== src/Api/Models.antt =====
-- pkg/api/models.go, and the requests and responses of `net/http` as far as the server uses them.
use s21_identity_service.Base.{ℕ, String, Bool, Option, some, List, [], ◌∷◌, text_eq}
use s21_identity_service.Base.Int.{ℤ}
use s21_identity_service.Base.Map.{Map, lookup}
use s21_identity_service.Text.{Text}
use s21_identity_service.Store
use s21_identity_service.Store.{Time}

-- The wire shape of a user.
pub record User : Type 0 where
  pub telegram_id : ℤ
  pub nickname : Text
  pub campus_id : Text
  pub campus_name : Text
  pub coalition_name : Text
  pub created_at : Time
  pub updated_at : Time

unfoldable pub user_from_store : Store.User → User
user_from_store u = record {
  telegram_id = u.telegram_id;
  nickname = u.nickname;
  campus_id = u.campus_id;
  campus_name = u.campus_name;
  coalition_name = u.coalition_name;
  created_at = u.created_at;
  updated_at = u.updated_at;
}

pub record LookupTelegramBatchRequest : Type 0 where
  pub telegram_ids : List ℤ

pub record PutUserRequest : Type 0 where
  pub nickname : Text

pub record CreateKeyRequest : Type 0 where
  pub name : Text
  pub scopes : Text
  pub created_by_telegram_id : ℤ

pub record CreateKeyResponse : Type 0 where
  pub key : Text
  pub name : Text
  pub scopes : Text
  pub created_at : Time

pub record ApiKeyInfo : Type 0 where
  pub name : Text
  pub scopes : Text
  pub created_at : Time
  pub revoked_at : Option Time
  pub created_by_telegram_id : ℤ

-- What a handler writes. The texts of an `ErrorBody` are constants that no code reads, so they are
-- native strings.
pub data Body : Type 0 where
  no_body : Body
  plain : String → Body
  error_body : String → String → Body
  user_body : User → Body
  users_body : List User → Body
  created_body : CreateKeyResponse → Body
  keys_body : List ApiKeyInfo → Body

pub record Response : Type 0 where
  pub status : ℕ
  pub headers : List (String × String)
  pub body : Body

-- `http.Header` and `url.Values`: a name with its values. `Get` is the first value, or "".
abbrev pub Values : Type 0
Values = Map Text (List Text)

abbrev pub first_value : Option (List Text) → Text
first_value (some (v ∷ _)) = v
first_value _ = []

unfoldable pub get_value : Text → Values → Text
get_value name values = first_value (lookup name values)

pub record Request : Type 0 where
  pub method : Text
  pub path : Text
  pub query : Values
  pub header : Values
  pub tls : Bool
  pub body : Text
