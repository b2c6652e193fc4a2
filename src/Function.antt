-- ===== src/Function.antt =====
-- terraform/function/handler.go: the entry point of the cloud function.
pub mod Laws
pub mod Boot
pub mod Redact
use s21_identity_service.Base.{
  ℕ, String, Bool, false, not, ◌||◌, Option, none, some, List, [], ◌∷◌, map, ◌==◌, text_eq,
  if◌then◌else◌,
}
use mathlib.Core.Option
use s21_identity_service.Base.Map.{Map, lookup, insert}
use s21_identity_service.Base.Exec.{Outcome, ok, err}
use s21_identity_service.Text.{Text, codes}
use s21_identity_service.Text.Header.{canonical_header_key}
use s21_identity_service.Store.{Store}
use s21_identity_service.Api.Models.{Body, plain, Values, Request, Response}
use s21_identity_service.Api.Platform.{Platform, World}
use s21_identity_service.Api.Server.{Server}
use s21_identity_service.Api.Serve.{serve_http}

pub record ApiGatewayRequest : Type 0 where
  pub http_method : Text
  pub path : Text
  pub headers : Map Text Text
  pub body : Text
  pub is_base64 : Bool

-- `IsBase64` is never set.
pub record ApiGatewayResponse : Type 0 where
  pub status_code : ℕ
  pub headers : List (Text × Text)
  pub body : Text

-- What `http.NewRequestWithContext` reads from a method and a URL.
pub record Target : Type 0 where
  pub method : Text
  pub path : Text
  pub query : Values

-- `http.NewRequestWithContext`, or its error, and what a handler's body is on the wire.
pub record Http : Type 0 where
  pub new_request : Text → Text → Outcome Text Target
  pub encode : Body → Text

-- It reads the text back as it is, and cannot fail.
unfoldable pub decode_b64 : Text → Outcome Text Text
decode_b64 s = ok s

abbrev pub or_else : Outcome Text Text → Text → Text
or_else (ok raw) body = raw
or_else (err _) body = body

unfoldable pub event_body : ApiGatewayRequest → Text
unfolding decode_b64
event_body req = if req.is_base64 then or_else (decode_b64 req.body) req.body else req.body

-- The loop over the two spellings of the header with the path.
unfoldable pub first_nonempty : Map Text Text → Text → List Text → Text
first_nonempty headers path [] = path
first_nonempty headers path (key ∷ keys) =
    let later = first_nonempty headers path keys in
    elim (lookup key headers) [ none ↦ later | some v ↦ if v == [] then later else v ]

unfoldable pub actual_path : ApiGatewayRequest → Text
unfolding first_nonempty
actual_path req =
    first_nonempty req.headers req.path
      (codes "X-Envoy-Original-Path" ∷ codes "x-envoy-original-path" ∷ [])

-- `httpReq.Header.Set(http.CanonicalHeaderKey(k), v)` for each header, in the order of the range;
-- `Set` makes the key canonical once more.
unfoldable pub set_headers : Map Text Text → Values → Values
set_headers [] header = header
set_headers ((k, v) ∷ headers) header =
    set_headers headers (insert (canonical_header_key (canonical_header_key k)) (v ∷ []) header)

-- The request of `net/http`; its field `TLS` is nil.
unfoldable pub http_request : ApiGatewayRequest → Target → Request
unfolding event_body set_headers
http_request req target = record {
  method = target.method;
  path = target.path;
  query = target.query;
  header = set_headers req.headers [];
  tls = false;
  body = event_body req;
}

-- The recorder sets the type of a body that is written without a status.
abbrev pub recorded : Response → List (String × String)
recorded response = elim response.body [
  | plain _ ↦ ("Content-Type", "text/plain; charset=utf-8") ∷ response.headers
  | _ ↦ response.headers
]

unfoldable pub to_gateway : Http → Response → ApiGatewayResponse
to_gateway http response = record {
  status_code = response.status;
  headers = map (λ (k, v). (codes k, codes v)) (recorded response);
  body = http.encode response.body;
}

-- `initErr` is never set.
module _ (p : Platform) (http : Http) {S : Store} (w : World) where
  -- The answer to the event, or none if a handler panicked, and the server afterwards.
  unfoldable pub handle_target :
      ApiGatewayRequest → Outcome Text Target → Server S → Option ApiGatewayResponse × Server S
  unfolding http_request to_gateway
  handle_target req (err message) s =
      (some (record { status_code = 400; headers = []; body = message }), s)
  handle_target req (ok target) s =
      let (response, s') = serve_http p w (http_request req target) s in
      (Option.map (to_gateway http) response, s')

  -- The event is a pointer, and `req.Body` of one that is nil panics.
  unfoldable pub handler :
      Option ApiGatewayRequest → Server S → Option ApiGatewayResponse × Server S
  unfolding actual_path handle_target
  handler none s = (none, s)
  handler (some req) s = handle_target req (http.new_request req.http_method (actual_path req)) s

-- The value that is shown under a canonical name.
abbrev pub shown : Text → Text → Text
shown canon v =
    if canon == codes "X-S21-Token" || canon == codes "Authorization" || canon == codes "X-Api-Key"
    then codes "<redacted>"
    else v

-- The loop of `redactedHeaders`.
unfoldable pub redact_onto : Map Text Text → Map Text Text → Map Text Text
redact_onto [] out = out
redact_onto ((k, v) ∷ h) out =
    redact_onto h (insert (canonical_header_key k) (shown (canonical_header_key k) v) out)

unfoldable pub redacted_headers : Map Text Text → Map Text Text
unfolding redact_onto
redacted_headers h = redact_onto h []
