-- ===== src/Api/Serve.antt =====
-- `ServeHTTP` of pkg/api/server.go.
pub mod Cases
use s21_identity_service.Base.{Bool, not, Option, none, some, [], ◌==◌, text_eq, if◌then◌else◌}
use s21_identity_service.Base.Exec.{Outcome, ok, err, pure}
use s21_identity_service.Text.{Text, codes}
use s21_identity_service.Store.{Store}
use s21_identity_service.Api.Models.{Request, Response, plain}
use s21_identity_service.Api.Platform.{Platform, World}
use s21_identity_service.Api.Routes.{match_by_telegram, match_by_nickname, match_admin_key}
use s21_identity_service.Api.Server.{
  Server, Handler, Stop, respond, panicked, write_error, request_is_tls,
}
use s21_identity_service.Api.Users.{
  handle_get_by_telegram, handle_lookup_telegram_batch, handle_list_by_nickname,
  handle_put_by_telegram, handle_delete_by_telegram,
}
use s21_identity_service.Api.Keys.{handle_create_key, handle_list_keys, handle_revoke_key}

-- What the client receives.
unfoldable pub reply : Outcome Stop Response → Option Response
reply (ok response) = some response
reply (err (respond response)) = some response
reply (err panicked) = none

module _ (p : Platform) {S : Store} (w : World) (r : Request) where
  -- The last three routes, in their order.
  unfoldable pub route_patterns : Handler S Response
  route_patterns = elim (match_by_telegram r.path) [
    | some tid ↦
        if r.method == codes "GET"
        then handle_get_by_telegram p w r tid
        else if r.method == codes "PUT"
        then handle_put_by_telegram p w r tid
        else if r.method == codes "DELETE"
        then handle_delete_by_telegram p w r tid
        else pure (write_error 405 "method_not_allowed" "")
    | none ↦ elim (match_by_nickname r.path) [
      | some nick ↦
          if not (r.method == codes "GET")
          then pure (write_error 405 "method_not_allowed" "GET required")
          else handle_list_by_nickname p w r nick
      | none ↦ elim (match_admin_key r.path) [
        | some name ↦
            if not (r.method == codes "DELETE")
            then pure (write_error 405 "method_not_allowed" "DELETE required")
            else handle_revoke_key p w r name
        | none ↦ pure (write_error 404 "not_found" "")
      ]
    ]
  ]

  unfoldable pub route : Handler S Response
  unfolding route_patterns
  route =
      if r.path == codes "/health"
      then pure (record { status = 200; headers = []; body = plain "ok" })
      else if r.path == codes "/users/lookup_telegram_batch"
      then (if not (r.method == codes "POST")
          then pure (write_error 405 "method_not_allowed" "POST required")
          else handle_lookup_telegram_batch p w r)
      else if r.path == codes "/admin/keys"
      then (if r.method == codes "POST"
          then handle_create_key p w r
          else if r.method == codes "GET"
          then handle_list_keys p w r
          else pure (write_error 405 "method_not_allowed" ""))
      else route_patterns

  -- The response, or none if the handler panicked, and the server afterwards.
  unfoldable pub serve_http : Server S → Option Response × Server S
  unfolding route request_is_tls reply
  serve_http s =
      if not (request_is_tls p r s)
      then (some (write_error 426 "https_required" "this endpoint is HTTPS-only"), s)
      else (let (result, s') = route s in (reply result, s'))
