-- ===== src/Api/Users.antt =====
-- The handlers on users of pkg/api/server.go, and `resolveNickname`.
pub mod Stored
use s21_identity_service.Base.{
  ℕ, ◌+◌, Bool, Option, none, some, List, [], map, ◌==◌, leb, not, text_eq, length, if◌then◌else◌,
}
use s21_identity_service.Base.Int.{ℤ}
use s21_identity_service.Base.Exec.{Exec, Outcome, ok, err, pure, fail, ◌>>=◌, ◌>>◌}
use s21_identity_service.Text.{Text, codes, index_byte, drop, trim_space}
use s21_identity_service.Store
use s21_identity_service.Store.{Store, StoreError, NicknameCacheEntry, User}
use s21_identity_service.S21
use s21_identity_service.S21.{Profile, S21Error, invalid_credentials}
use s21_identity_service.Api.Models.{
  Response, Request, Body, no_body, user_body, users_body, get_value, user_from_store,
}
use s21_identity_service.Api.Platform.{Platform, World, put_time, cached_time}
use s21_identity_service.Api.Server.{
  Server, Handler, Stop, respond, panicked, call_store, stop, decoded, require, or_internal,
  or_not_found, write_json, write_error, write_internal_error,
}
use s21_identity_service.Api.Auth.{authorize}

-- An error of `resolveNickname`, as `handlePutByTelegram` answers it.
unfoldable pub resolve_response : S21Error → Response
resolve_response S21.not_found = write_error 400 "bad_request" "S21 nickname not found"
resolve_response invalid_credentials =
    write_error 401 "invalid_token" "S21 rejected admin credentials"
resolve_response _ = write_internal_error

unfoldable pub or_resolve_response : {S : Store} → Outcome S21Error Profile → Handler S Profile
unfolding resolve_response
or_resolve_response (ok prof) = pure prof
or_resolve_response (err e) = stop (resolve_response e)

-- `tok[colon+1:]`, which panics without a colon in range.
unfoldable pub password_of : {S : Store} → Text → Option ℕ → Handler S Text
password_of tok none = fail panicked
password_of tok (some colon) = pure (drop (colon + 1) tok)

-- The row of `handlePutByTelegram`.
abbrev pub user_row : World → ℤ → Profile → User
user_row w tid prof = record {
  telegram_id = tid;
  nickname = prof.login;
  campus_id = prof.campus_id;
  campus_name = prof.campus_name;
  coalition_name = prof.coalition_name;
  created_at = w.now put_time;
  updated_at = w.now put_time;
}

module _ (p : Platform) {S : Store} (w : World) where
  unfoldable pub handle_get_by_telegram : Request → ℤ → Handler S Response
  handle_get_by_telegram r tid = do
    authorize p w r (codes "read")
    found ← call_store (S.get_by_telegram_id tid)
    row ← or_not_found (write_error 404 "not_found" "no nickname registered for telegram_id") found
    pure (write_json 200 (user_body (user_from_store row)))

  unfoldable pub handle_lookup_telegram_batch : Request → Handler S Response
  handle_lookup_telegram_batch r = do
    authorize p w r (codes "read")
    req ← decoded (p.decode_batch r.body)
    require (leb (length req.telegram_ids) 100)
        (write_error 400 "bad_request" "batch size capped at 100")
    found ← call_store (S.get_by_telegram_ids req.telegram_ids)
    rows ← or_internal found
    pure (write_json 200 (users_body (map user_from_store rows)))

  unfoldable pub handle_list_by_nickname : Request → Text → Handler S Response
  handle_list_by_nickname r nick = do
    authorize p w r (codes "read")
    found ← call_store (S.list_by_nickname nick)
    rows ← or_internal found
    pure (write_json 200 (users_body (map user_from_store rows)))

  -- The lookup at S21 behind a miss. The profile is cached, and an error of the cache is ignored.
  unfoldable pub lookup_profile : Text → Text → Text → Handler S Profile
  unfolding or_resolve_response
  lookup_profile nick admin_login password = do
    prof ← or_resolve_response (w.s21_lookup admin_login password nick)
    _ ← call_store (
        S.upsert_nickname (record {
          nickname = prof.login;
          campus_id = prof.campus_id;
          campus_name = prof.campus_name;
          coalition_name = prof.coalition_name;
          cached_at = w.now cached_time;
        }))
    pure prof

  -- `resolveNickname` behind the read of the cache, where any error is a miss. Its errors are answered
  -- at once, as its only caller does.
  unfoldable pub cached_or_lookup :
      Text → Text → Request → Outcome StoreError NicknameCacheEntry → Handler S Profile
  unfolding lookup_profile password_of
  cached_or_lookup nick admin_login r (ok e) = pure (record {
    login = e.nickname;
    campus_id = e.campus_id;
    campus_name = e.campus_name;
    coalition_name = e.coalition_name;
  })
  cached_or_lookup nick admin_login r (err _) = do
    let tok = get_value (codes "X-S21-Token") r.header
    password ← password_of tok (index_byte tok b':')
    lookup_profile nick admin_login password

  unfoldable pub resolve_nickname : Text → Text → Request → Handler S Profile
  unfolding cached_or_lookup
  resolve_nickname nick admin_login r = do
    found ← call_store (S.get_nickname nick)
    cached_or_lookup nick admin_login r found

  unfoldable pub handle_put_by_telegram : Request → ℤ → Handler S Response
  unfolding resolve_nickname
  handle_put_by_telegram r tid = do
    (_, admin_login) ← authorize p w r (codes "write")
    req ← decoded (p.decode_put r.body)
    let nick = trim_space req.nickname
    require (not (nick == [])) (write_error 400 "bad_request" "nickname is required")
    prof ← resolve_nickname nick admin_login r
    stored ← call_store (S.upsert_user (user_row w tid prof))
    row ← or_internal stored
    pure (write_json 200 (user_body (user_from_store row)))

  unfoldable pub handle_delete_by_telegram : Request → ℤ → Handler S Response
  handle_delete_by_telegram r tid = do
    authorize p w r (codes "write")
    deleted ← call_store (S.delete_user tid)
    or_not_found (write_error 404 "not_found" "") deleted
    pure (record { status = 204; headers = []; body = no_body })
