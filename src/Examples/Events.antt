-- ===== src/Examples/Events.antt =====
-- The theorems on the entry point of the cloud function, applied.
use s21_identity_service.Base.{
  Has, ◌≡◌, ◌≢◌, refl, ap, ◌∙◌, inl, inr, true, false, none, some, [], ◌∷◌, text_eq,
}
use mathlib.Core.Option
use s21_identity_service.Base.Map.{lookup}
use s21_identity_service.Base.Int.{int_eq}
use s21_identity_service.Base.Exec.{ok}
use s21_identity_service.Text.{Text, codes}
use s21_identity_service.Text.Case.{ascii, equal_fold}
use s21_identity_service.Text.Header.{canonical_header_key}
use s21_identity_service.MemStore.{mem_store}
use s21_identity_service.Api.Models.{get_value}
use s21_identity_service.Api.Server.{Server, write_error}
use s21_identity_service.Api.Auth.{authenticate_api_key}
use s21_identity_service.Api.Serve.{reply, route}
use s21_identity_service.Function.{
  http_request, ApiGatewayRequest, ApiGatewayResponse, Http, Target, handler, to_gateway,
  set_headers, redacted_headers,
}
use s21_identity_service.Function.Laws.{handler_needs_https, get_value-set_headers, Agree}
use s21_identity_service.Function.Boot.{bootstrap}
use s21_identity_service.Function.Boot.Laws.{bootstrap_fails_closed}
use s21_identity_service.Examples.{platform, world, with_new_key, server, root}
use s21_identity_service.Examples.Ydb.{ydb, option_eq}
use s21_identity_service.Examples.Tables.{now}

abbrev event : ApiGatewayRequest
event = record {
  http_method = codes "GET";
  path = codes "/{path+}";
  headers =
      (codes "x-envoy-original-path", codes "/health")
      ∷ (codes "x-forwarded-proto", codes "http")
      ∷ [];
  body = [];
  is_base64 = false;
}

abbrev http : Http
http = record {
  new_request = λ method path. ok (record { method = method; path = path; query = [] });
  encode = λ body. [];
}

abbrev started : Server (mem_store ascii)
started = record server { enforce_https = true }

abbrev target : Target
target = record { method = codes "GET"; path = codes "/health"; query = [] }

handler_needs_https_example :
    (((k v : Text)
        → Has (k, v) event.headers
        → canonical_header_key k ≡ codes "X-Forwarded-Proto"
        → equal_fold ascii v (codes "https") ≢ true)
      → handler platform http world (some event) started ≡ (
        some (to_gateway http (write_error 426 "https_required" "this endpoint is HTTPS-only")),
        started,
      ))
    × ((k v : Text)
        → Has (k, v) event.headers
        → canonical_header_key k ≡ codes "X-Forwarded-Proto"
        → Agree event.headers (codes "X-Forwarded-Proto") v
        → equal_fold ascii v (codes "https") ≡ true
        → handler platform http world (some event) started ≡ (
          Option.map
              (to_gateway http)
              (reply (route platform world (http_request event target) started).0),
          (route platform world (http_request event target) started).1,
        ))
unfolding s21_identity_service.Function.actual_path lookup text_eq
handler_needs_https_example = handler_needs_https platform http world event started target refl refl

agree : Agree event.headers (codes "X-Forwarded-Proto") (codes "http")
unfolding canonical_header_key
agree j w (inl e) c =
    let q : canonical_header_key (codes "x-envoy-original-path") ≡ codes "X-Forwarded-Proto" =
      ap (λ x. canonical_header_key x.0) e ∙ c in
    absurd (cc q)
agree j w (inr (inl e)) c = cc
agree j w (inr (inr h)) c = absurd h

get_value-set_headers_example :
    get_value (codes "X-Forwarded-Proto") (set_headers event.headers []) ≡ codes "http"
unfolding canonical_header_key
get_value-set_headers_example =
    get_value-set_headers event.headers (codes "X-Forwarded-Proto") (codes "x-forwarded-proto")
      (codes "http") (inr (inl refl)) refl agree

bootstrap_fails_closed_example :
    (authenticate_api_key platform
      {S = (bootstrap ascii ydb now (codes "grpcs://ydb") [] none).store} world with_new_key
      (codes "read")
      (bootstrap ascii ydb now (codes "grpcs://ydb") [] none).server).0
    ≢ ok (some root)
bootstrap_fails_closed_example =
    bootstrap_fails_closed ascii ydb now (codes "grpcs://ydb") [] none (inr refl) (λ e. cc) platform
      world with_new_key (codes "read") (some root)
