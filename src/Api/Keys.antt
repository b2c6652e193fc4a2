-- ===== src/Api/Keys.antt =====
-- The handlers under /admin/keys of pkg/api/server.go.
pub mod Create
pub mod Created
pub mod Revoked
pub mod Zero
use s21_identity_service.Base.{
  ℕ, ◌+◌, ◌-◌, ◌*◌, Bool, true, false, not, ◌&&◌, Option, none, some, List, [], ◌∷◌, map, ◌==◌, ltb,
  leb, text_eq, length, if◌then◌else◌,
}
use s21_identity_service.Base.Int.{ℤ, pos, int_eq}
use s21_identity_service.Base.Exec.{Exec, Outcome, ok, err, pure, fail, ◌>>=◌, ◌>>◌}
use s21_identity_service.Text.{Text, codes, trim_space}
use s21_identity_service.Store
use s21_identity_service.Store.{
  Time, Store, StoreError, key_name_in_use, creator_has_active_key, ApiKey, has_scope,
}
use s21_identity_service.Store.Scopes.{allowed_scopes}
use s21_identity_service.Api.Models.{
  Response, Request, Body, no_body, created_body, keys_body, error_body, get_value,
  CreateKeyRequest, ApiKeyInfo,
}
use s21_identity_service.Api.Platform.{Platform, World, rate_time, created_time, revoked_time}
use s21_identity_service.Api.Routes.{parse_int, valid_key_name}
use s21_identity_service.Api.Server.{
  Server, Handler, Stop, respond, panicked, call_store, stop, decoded, require, or_internal,
  or_not_found, write_json, write_error, write_internal_error,
}
use s21_identity_service.Api.Auth.{authorize}

abbrev pub scope_admin : Text
scope_admin = codes "admin"

-- One hour in nanoseconds, and the creations that fit in it.
abbrev pub key_create_rate_limit_window : ℕ
key_create_rate_limit_window = 3600 * 1000000000

abbrev pub key_create_rate_limit_max : ℕ
key_create_rate_limit_max = 10

-- The optional query parameter `created_by`.
pub data CreatedBy : Type 0 where
  absent malformed : CreatedBy
  given : ℤ → CreatedBy

unfoldable pub created_by : Request → CreatedBy
created_by r =
    let v = get_value (codes "created_by") r.query in
    if v == [] then absent else elim (parse_int v) [ none ↦ malformed | some tid ↦ given tid ]

-- `apiKey.HasScope` through the pointer that `authorize` returned, which is nil in dry-run mode
-- when no key was accepted.
unfoldable pub key_has_scope : {S : Store} → Option ApiKey → Text → Handler S Bool
key_has_scope none scope = fail panicked
key_has_scope (some k) scope = pure (has_scope k scope)

abbrev pub key_info : ApiKey → ApiKeyInfo
key_info k = record {
  name = k.name;
  scopes = k.scopes;
  created_at = k.created_at;
  revoked_at = k.revoked_at;
  created_by_telegram_id = k.created_by_telegram_id;
}

-- The loop of `handleListKeys`, with the filter if it is enabled.
unfoldable pub listed : Option ℤ → List ApiKey → List ApiKeyInfo
listed filter [] = []
listed none (k ∷ rows) = key_info k ∷ listed none rows
listed (some tid) (k ∷ rows) =
    let out = listed (some tid) rows in
    if not (k.created_by_telegram_id == tid) then out else key_info k ∷ out

-- The answer to a creator who has reached the limit.
abbrev pub rate_limited : Response
rate_limited = record {
  status = 429;
  headers = ("Retry-After", "3600") ∷ ("Content-Type", "application/json") ∷ [];
  body = error_body "rate_limited" "too many key creations from this user; try again in an hour";
}

unfoldable pub or_bad_request : {S : Store} {A : Type 0} → Option A → Response → Handler S A
or_bad_request none response = stop response
or_bad_request (some a) response = pure a

-- The answers to the errors of `Insert`.
unfoldable pub or_insert_response :
    {S : Store} → Outcome StoreError (Unit {0}) → Handler S (Unit {0})
or_insert_response (ok _) = pure tt
or_insert_response (err key_name_in_use) =
    stop (write_error 409 "name_in_use" "an active key with that name already exists")
or_insert_response (err creator_has_active_key) =
    stop (write_error 409 "creator_has_key" "this user already has an active key; revoke first")
or_insert_response (err _) = stop write_internal_error

-- The plaintext of a new key, from 32 random bytes, if they can be read.
unfoldable pub generate_api_key : Platform → {S : Store} → Option Text → Handler S Text
generate_api_key p none = stop write_internal_error
generate_api_key p (some bytes) = pure (p.base64 bytes)

-- The row of `handleCreateKey`.
abbrev pub key_row : Platform → World → Text → Text → Text → ℤ → ApiKey
key_row p w plaintext name scopes tid = record {
  key_hash = p.hash plaintext;
  name = name;
  scopes = scopes;
  created_at = w.now created_time;
  revoked_at = none;
  created_by_telegram_id = tid;
}

module _ (p : Platform) {S : Store} (w : World) where
  -- The rate limit of `handleCreateKey`. A clock in the first hour of Go's calendar would stop
  -- `since` at its zero time, which counts the same rows.
  unfoldable pub rate_limit : ℤ → Handler S (Unit {0})
  rate_limit tid = if tid == pos 0 then pure tt else do
    let since = w.now rate_time - key_create_rate_limit_window
    counted ← call_store (S.count_by_creator_since tid since)
    recent ← or_internal counted
    require (not (leb key_create_rate_limit_max recent)) rate_limited

  -- `handleCreateKey` behind the checks of the request.
  unfoldable pub mint_key : Text → Text → ℤ → Handler S Response
  unfolding generate_api_key or_insert_response
  mint_key name scopes tid = do
    plaintext ← generate_api_key p w.random
    let row = key_row p w plaintext name scopes tid
    inserted ← call_store (S.insert_key row)
    or_insert_response inserted
    pure (
        write_json 201 (
          created_body (record {
            key = plaintext;
            name = row.name;
            scopes = row.scopes;
            created_at = row.created_at;
          })))

  unfoldable pub handle_create_key : Request → Handler S Response
  unfolding rate_limit mint_key
  handle_create_key r = do
    authorize p w r (codes "write")
    req ← decoded (p.decode_create r.body)
    let name = trim_space req.name
    require (valid_key_name name)
        (write_error 400 "bad_request" "name must be 1–64 chars, letters/digits/_.- only")
    canon ←
        or_bad_request (allowed_scopes (trim_space req.scopes))
          (write_error 400 "bad_request" "scopes must be one of: read, write, read,write, admin")
    rate_limit req.created_by_telegram_id
    mint_key name canon req.created_by_telegram_id

  -- The call of the store in `handleRevokeKey`.
  unfoldable pub revoke : Text → ℤ → Handler S Response
  revoke name by = do
    revoked ← call_store (S.revoke_by_name name by (w.now revoked_time))
    or_not_found (write_error 404 "not_found" "no active key with that name (or not yours)") revoked
    pure (record { status = 204; headers = []; body = no_body })

  unfoldable pub revoke_as : Option ApiKey → CreatedBy → Text → Handler S Response
  unfolding revoke key_has_scope
  revoke_as api_key malformed name =
      stop (write_error 400 "bad_request" "created_by must be integer")
  revoke_as api_key (given by) name = revoke name by
  revoke_as api_key absent name = do
    admin ← key_has_scope api_key scope_admin
    require admin (
        write_error 403 "scope"
          "unscoped key revoke requires admin scope; pass ?created_by=<telegram_id> for self-service revoke")
    revoke name (pos 0)

  unfoldable pub handle_revoke_key : Request → Text → Handler S Response
  unfolding revoke_as created_by
  handle_revoke_key r name = do
    (api_key, _) ← authorize p w r (codes "write")
    revoke_as api_key (created_by r) name

  unfoldable pub list_rows : Option ℤ → Handler S Response
  unfolding listed
  list_rows filter = do
    found ← call_store S.list_keys
    rows ← or_internal found
    pure (write_json 200 (keys_body (listed filter rows)))

  unfoldable pub list_as : Option ApiKey → CreatedBy → Handler S Response
  unfolding list_rows key_has_scope
  list_as api_key malformed = stop (write_error 400 "bad_request" "created_by must be integer")
  list_as api_key (given tid) = list_rows (some tid)
  list_as api_key absent = do
    admin ← key_has_scope api_key scope_admin
    require admin (
        write_error 403 "scope"
          "unfiltered key listing requires admin scope; pass ?created_by=<telegram_id> for self-service listing")
    list_rows none

  unfoldable pub handle_list_keys : Request → Handler S Response
  unfolding list_as created_by
  handle_list_keys r = do
    (api_key, _) ← authorize p w r (codes "write")
    list_as api_key (created_by r)
