-- ===== src/Api/Auth.antt =====
-- `authenticate`, `authenticateAPIKey` and `authorize` of pkg/api/server.go.
pub mod Keys
pub mod Tokens
pub mod Gate
pub mod Failures
use s21_identity_service.Base.{
  ℕ, zero, suc, ◌+◌, ◌-◌, String, Bool, true, false, not, ◌&&◌, ◌||◌, Option, none, some, List, [],
  ◌∷◌, ◌==◌, ◌==ℕ◌, ltb, text_eq, length, if◌then◌else◌,
}
use s21_identity_service.Base.Exec.{Exec, Outcome, ok, err, pure, fail, lift, ◌>>=◌, ◌>>◌}
use s21_identity_service.Text.{Text, codes, index_byte, take, drop}
use s21_identity_service.Store
use s21_identity_service.Store.{
  Store, StoreError, ApiKey, S21TokenCacheEntry, has_scope, is_active, not_found,
}
use s21_identity_service.S21.{Profile, S21Error, invalid_credentials}
use s21_identity_service.TokenCache.Defs
use s21_identity_service.TokenCache.Defs.{TokenCache}
use s21_identity_service.Api.Models.{Request, get_value}
use s21_identity_service.Api.Platform.{
  Platform, World, token_read, durable_check, token_promote, token_expiry, token_write,
}
use s21_identity_service.Api.Server.{
  Server, AuthError, Auth, Handler, Stop, respond, call_store, remember, s21_token_cache_ttl,
  missing_token, malformed_token, invalid_token, missing_api_key, invalid_api_key, revoked_api_key,
  api_key_scope, internal, write_auth_error,
}

-- `tok[:colon]` and `tok[colon+1:]`, for a colon that is neither missing, nor first, nor last.
unfoldable pub split_at : Text → Option ℕ → Outcome AuthError (Text × Text)
split_at tok none = err malformed_token
split_at tok (some zero) = err malformed_token
split_at tok (some (suc i)) =
    if suc i ==ℕ (length tok - 1)
    then err malformed_token
    else ok (take (suc i) tok, drop (suc i + 1) tok)

unfoldable pub parse_token : Text → Outcome AuthError (Text × Text)
unfolding split_at
parse_token tok = if tok == [] then err missing_token else split_at tok (index_byte tok b':')

-- What a call of S21 for the credentials means to `authenticate`.
unfoldable pub s21_verdict : Outcome S21Error Profile → Outcome AuthError Profile
s21_verdict (ok profile) = ok profile
s21_verdict (err invalid_credentials) = err invalid_token
s21_verdict (err _) = err internal

-- `s.S21Tokens.Get`, if the cache is there.
unfoldable pub read_if_present :
    Platform → World → Text → Option TokenCache → Option Text × Option TokenCache
read_if_present p w tok none = (none, none)
read_if_present p w tok (some c) =
    let (cached, c') = Defs.get p.hash (w.now token_read) tok c in (cached, some c')

-- What a refused key leads to: an error, or in dry-run mode no key.
unfoldable pub refuse : {S : Store} → AuthError → Auth S (Option ApiKey)
refuse e s = (if s.enforce_api_key then err e else ok none, s)

-- The response that `writeAuthError` writes for an error.
unfoldable pub answered : {A : Type 0} → Outcome AuthError A → Outcome Stop A
unfolding write_auth_error
answered (ok a) = ok a
answered (err e) = err (respond (write_auth_error e))

module _ (p : Platform) {S : Store} (w : World) where
  -- The fast path: the in-memory cache. A read may change the cache also where its result is not used.
  unfoldable pub memory_login : Text → Text → Auth S (Option Text)
  unfolding read_if_present
  memory_login tok login s =
      let (cached, tokens) = read_if_present p w tok s.tokens in
      let accepted : Option Text = elim cached [
        | none ↦ none
        | some l ↦ if l == login then some l else none
      ] in
      (ok accepted, record s { tokens = tokens })

  -- The warm path: the durable cache. An error of the store counts as a miss.
  unfoldable pub accept_entry :
      Text → Text → Outcome StoreError S21TokenCacheEntry → Auth S (Option Text)
  unfolding remember
  accept_entry tok login (err _) = pure none
  accept_entry tok login (ok entry) =
      if ltb (w.now durable_check) entry.expires_at && entry.login == login
      then (do remember p (w.now token_promote) tok entry.login; pure (some entry.login))
      else pure none

  unfoldable pub durable_login : Text → Text → Auth S (Option Text)
  unfolding accept_entry
  durable_login tok login = do
    found ← call_store (S.get_token (p.hash tok))
    accept_entry tok login found

  -- The slow path: S21 itself. Both caches are written; an error of the durable one is ignored.
  unfoldable pub live_login : Text → Text → Text → Auth S Text
  unfolding remember s21_verdict
  live_login tok login password = do
    _ ← lift (s21_verdict (w.s21_authenticate login password))
    let expires_at = w.now token_expiry + s21_token_cache_ttl
    remember p (w.now token_write) tok login
    _ ← call_store (
        S.upsert_token (record { token_hash = p.hash tok; login = login; expires_at = expires_at }))
    pure login

  -- The first of the three that has a login.
  unfoldable pub or_live : Text → Text → Text → Option Text → Auth S Text
  unfolding live_login
  or_live tok login password (some l) = pure l
  or_live tok login password none = live_login tok login password

  unfoldable pub or_durable : Text → Text → Text → Option Text → Auth S Text
  unfolding durable_login or_live
  or_durable tok login password (some l) = pure l
  or_durable tok login password none = do
    durable ← durable_login tok login
    or_live tok login password durable

  unfoldable pub authenticate : Request → Auth S Text
  unfolding memory_login or_durable parse_token
  authenticate r = do
    let tok = get_value (codes "X-S21-Token") r.header
    (login, password) ← lift (parse_token tok)
    cached ← memory_login tok login
    or_durable tok login password cached

  -- The tests on the row that was found.
  unfoldable pub check_row : Text → Text → ApiKey → Auth S (Option ApiKey)
  unfolding has_scope refuse
  check_row got required_scope row =
      if not (row.key_hash == got)
      then refuse invalid_api_key
      else if not (is_active row)
      then refuse revoked_api_key
      else if not (required_scope == []) && not (has_scope row required_scope)
      then refuse api_key_scope
      else pure (some row)

  unfoldable pub check_found : Text → Text → Outcome StoreError ApiKey → Auth S (Option ApiKey)
  unfolding check_row
  check_found got required_scope (ok row) = check_row got required_scope row
  check_found got required_scope (err not_found) = refuse invalid_api_key
  check_found got required_scope (err _) = fail internal

  unfoldable pub authenticate_api_key : Request → Text → Auth S (Option ApiKey)
  unfolding check_found
  authenticate_api_key r required_scope =
      let plaintext = get_value (codes "X-Api-Key") r.header in
      if plaintext == [] then refuse missing_api_key else do
        found ← call_store (S.get_by_hash (p.hash plaintext))
        check_found (p.hash plaintext) required_scope found

  -- An error of an authentication step ends the handler.
  unfoldable pub or_respond : {A : Type 0} → Auth S A → Handler S A
  unfolding answered
  or_respond m s = let (r, s') = m s in (answered r, s')

  unfoldable pub authorize : Request → Text → Handler S (Option ApiKey × Text)
  unfolding authenticate authenticate_api_key write_auth_error
  authorize r required_scope = do
    row ← or_respond (authenticate_api_key r required_scope)
    admin_login ← or_respond (authenticate r)
    pure (row, admin_login)
