-- ===== src/Api/Server.antt =====
-- The type `Server` of pkg/api/server.go, and how its methods are modelled: as actions on it that
-- end early with an error.
pub mod Returns
use s21_identity_service.Base.{
  ℕ, String, Bool, true, false, Option, none, some, List, [], ◌∷◌, ◌||◌, ◌==◌, text_eq, ◌*◌,
  if◌then◌else◌,
}
use s21_identity_service.Base.Exec.{Exec, Outcome, ok, err, pure, fail}
use s21_identity_service.Text.{Text, codes}
use s21_identity_service.Text.Case.{equal_fold}
use s21_identity_service.Store.{Store, StoreError, not_found, Repo}
use s21_identity_service.TokenCache.Defs
use s21_identity_service.TokenCache.Defs.{TokenCache}
use s21_identity_service.Api.Models.{Body, Response, Request, get_value, error_body}
use s21_identity_service.Api.Platform.{Platform}

-- `Store` is never nil here: a handler that needs it would not survive a nil one. `S21Tokens` may be.
pub record Server (S : Store) : Type 0 where
  pub enforce_api_key : Bool
  pub enforce_https : Bool
  pub store : S.State
  pub tokens : Option TokenCache

-- `s21TokenCacheTTL`, in nanoseconds: 30 days.
abbrev pub s21_token_cache_ttl : ℕ
s21_token_cache_ttl = 30 * 24 * 3600 * 1000000000

-- `New`
unfoldable pub new : {S : Store} → S.State → Server S
unfolding Defs.new
new store = record {
  enforce_api_key = true;
  enforce_https = true;
  store = store;
  tokens = some (Defs.new s21_token_cache_ttl);
}

-- The errors of the two authentication steps; `internal` is any error of the store or of S21.
pub data AuthError : Type 0 where
  missing_token malformed_token invalid_token : AuthError
  missing_api_key invalid_api_key revoked_api_key api_key_scope internal : AuthError

-- How a handler ends early: by writing a response, or by a run-time panic.
pub data Stop : Type 0 where
  respond : Response → Stop
  panicked : Stop

abbrev pub Auth : Store → Type 0 → Type 0
Auth S A = Exec (Server S) AuthError A

abbrev pub Handler : Store → Type 0 → Type 0
Handler S A = Exec (Server S) Stop A

-- `s.S21Tokens.Put`, if the cache is there.
unfoldable pub put_if_present : Platform → ℕ → Text → Text → Option TokenCache → Option TokenCache
put_if_present p now token login none = none
put_if_present p now token login (some c) = some (Defs.put p.hash now token login c)

module _ {S : Store} where
  -- A call of the store, whose error is a value for the caller to look at.
  unfoldable pub call_store :
      {E A : Type 0} → Repo S.State A → Exec (Server S) E (Outcome StoreError A)
  call_store m s = let (r, store) = m s.store in (ok r, record s { store = store })

  unfoldable pub remember : {E : Type 0} → Platform → ℕ → Text → Text → Exec (Server S) E (Unit {0})
  unfolding put_if_present
  remember p now token login s =
      (ok tt, record s { tokens = put_if_present p now token login s.tokens })

-- `writeJSON` and `writeError`
abbrev pub write_json : ℕ → Body → Response
write_json status body = record {
  status = status;
  headers = ("Content-Type", "application/json") ∷ [];
  body = body;
}

abbrev pub write_error : ℕ → String → String → Response
write_error status code message = write_json status (error_body code message)

abbrev pub write_internal_error : Response
write_internal_error =
    write_error 500 "internal_error"
      "the service hit an internal error; the operator has been logged"

-- `writeAuthError`
unfoldable pub write_auth_error : AuthError → Response
write_auth_error missing_token = write_error 401 "missing_token" "missing X-S21-Token header"
write_auth_error malformed_token =
    write_error 401 "malformed_token" "X-S21-Token must be login:password"
write_auth_error invalid_token =
    write_error 401 "invalid_token" "S21 rejected the supplied credentials"
write_auth_error missing_api_key = write_error 401 "missing_api_key" "missing X-Api-Key header"
write_auth_error invalid_api_key = write_error 401 "invalid_api_key" "X-Api-Key is not recognized"
write_auth_error revoked_api_key = write_error 401 "revoked_api_key" "X-Api-Key has been revoked"
write_auth_error api_key_scope = write_error 403 "scope" "X-Api-Key lacks the required scope"
write_auth_error internal = write_internal_error

-- `requestIsTLS`
unfoldable pub request_is_tls : Platform → {S : Store} → Request → Server S → Bool
request_is_tls p r s =
    if s.enforce_https
    then r.tls
      || equal_fold p.case_table (get_value (codes "X-Forwarded-Proto") r.header) (codes "https")
    else true

module _ {S : Store} {A : Type 0} where
  -- A response is written, and the handler returns.
  unfoldable pub stop : Response → Handler S A
  unfolding fail
  stop response = fail (respond response)

  -- The body of the request, or the response to one that does not decode.
  unfoldable pub decoded : Option A → Handler S A
  unfolding pure stop
  decoded none = stop (write_error 400 "bad_request" "invalid JSON")
  decoded (some req) = pure req

  -- Any error of the store is an internal one.
  unfoldable pub or_internal : Outcome StoreError A → Handler S A
  unfolding pure stop
  or_internal (ok a) = pure a
  or_internal (err _) = stop write_internal_error

  -- `ErrNotFound` has a response of its own.
  unfoldable pub or_not_found : Response → Outcome StoreError A → Handler S A
  unfolding pure stop
  or_not_found response (ok a) = pure a
  or_not_found response (err not_found) = stop response
  or_not_found response (err _) = stop write_internal_error

-- A test that the request must pass.
unfoldable pub require : {S : Store} → Bool → Response → Handler S (Unit {0})
unfolding pure stop
require true response = pure tt
require false response = stop response
