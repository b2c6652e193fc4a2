-- ===== src/Function/Laws.antt =====
-- What terraform/function/handler.go makes of an event, and of the environment at its start.
use s21_identity_service.Base.{
  ◌≡◌, ◌≢◌, refl, sym, ◌∙◌, ap, ◌⊎◌, inl, inr, true, some, [], ◌∷◌, arith, ◌==◌, ==_iff, text_eq,
  Bool-cases, Has,
}
use mathlib.Core.Option
use s21_identity_service.Base.Map.{Map, lookup, insert, lookup-insert}
use s21_identity_service.Base.Exec.{ok}
use s21_identity_service.Text.{Text, codes}
use s21_identity_service.Text.Case.{CaseTable, equal_fold}
use s21_identity_service.Text.Header.{canonical_header_key, canonical_idem}
use s21_identity_service.Store.{Store}
use s21_identity_service.Api.Models.{Values, get_value}
use s21_identity_service.Api.Platform.{Platform, World}
use s21_identity_service.Api.Server.{Server, request_is_tls, write_error}
use s21_identity_service.Api.Serve.{serve_http, reply, route}
use s21_identity_service.Function.{
  ApiGatewayRequest, Http, Target, handler, handle_target, http_request, to_gateway, actual_path,
  set_headers,
}

abbrev key_of : Text → Text
key_of k = canonical_header_key (canonical_header_key k)

untouched :
    (h : Map Text Text) (header : Values) (name : Text)
    → ((j w : Text) → Has (j, w) h → canonical_header_key j ≢ name)
    → lookup name (set_headers h header) ≡ lookup name header
unfolding set_headers
untouched [] header name away = refl
untouched ((j, w) ∷ h) header name away =
    untouched h (insert (key_of j) (w ∷ []) header) name (λ i v m. away i v (inr m))
    ∙ ground (
      arith,
      lookup-insert (key_of j) name (w ∷ []) header,
      canonical_idem j,
      away j w (inl refl),
    )

-- Every spelling of the name that the event has carries the value.
abbrev pub Agree : Map Text Text → Text → Text → Type 0
Agree h name v = (j w : Text) → Has (j, w) h → canonical_header_key j ≡ name → w ≡ v

set_headers-found :
    (h : Map Text Text) (header : Values) (name k v : Text)
    → Has (k, v) h ⊎ (lookup name header ≡ some (v ∷ []))
    → canonical_header_key k ≡ name
    → Agree h name v
    → lookup name (set_headers h header) ≡ some (v ∷ [])
unfolding set_headers
set_headers-found [] header name k v m c agree = elim m [ inl h ↦ absurd h | inr l ↦ l ]
set_headers-found ((j, w) ∷ h) header name k v m c agree =
    let next = insert (key_of j) (w ∷ []) header in
    let step = lookup-insert (key_of j) name (w ∷ []) header in
    let rest : Agree h name v = λ i x n. agree i x (inr n) in
    set_headers-found h next name k v
      (elim (Bool-cases (key_of j == name)) [
        | inl e ↦
            let q : w ≡ v =
              agree j w (inl refl) (sym (canonical_idem j) ∙ (==_iff (key_of j) name).0 e) in
            inr (step ∙ rw (e, q) refl)
        | inr e ↦ elim m [
          | inr l ↦ inr (step ∙ rw e l)
          | inl (inr there) ↦ inl there
          | inl (inl here) ↦
              let q : key_of j ≡ name =
                canonical_idem j ∙ ap (λ x. canonical_header_key x.0) here ∙ c in
              absurd (ground arith)
        ]
      ])
      c rest

-- The server reads a header of the event under its canonical name, in whatever spelling and place
-- the event has it, if the event has no other value under another spelling of the name.
pub get_value-set_headers :
    (h : Map Text Text) (name k v : Text)
    → Has (k, v) h
    → canonical_header_key k ≡ name
    → Agree h name v
    → get_value name (set_headers h []) ≡ v
unfolding get_value
get_value-set_headers h name k v m c agree =
    rw (set_headers-found h [] name k v (inl m) c agree) refl

-- What is read under a name is a value that some spelling of it carries, or none.
set_headers-Carried :
    (h : Map Text Text) (header : Values) (name : Text) (P : Text → Type 0)
    → ((k v : Text) → Has (k, v) h → canonical_header_key k ≡ name → P v)
    → P []
    → P (get_value name header)
    → P (get_value name (set_headers h header))
unfolding set_headers get_value
set_headers-Carried [] header name P carried blank before = before
set_headers-Carried ((k, v) ∷ h) header name P carried blank before =
    let step = lookup-insert (key_of k) name (v ∷ []) header in
    set_headers-Carried h (insert (key_of k) (v ∷ []) header) name P (λ j w m. carried j w (inr m))
      blank
      (elim (Bool-cases (key_of k == name)) [
        | inl e ↦
            rw (step, e)
              (carried k v (inl refl) (sym (canonical_idem k) ∙ (==_iff (key_of k) name).0 e))
        | inr e ↦ rw (step, e) before
      ])

not_blank : (table : CaseTable) → equal_fold table [] (codes "https") ≢ true
unfolding text_eq
not_blank table e = cc

module _ (p : Platform) (http : Http) {S : Store} (w : World) (req : ApiGatewayRequest)
    (s : Server S) where
  abbrev proto : Text
  proto = codes "X-Forwarded-Proto"

  abbrev FoldsToHttps : Text → Type 0
  FoldsToHttps v = equal_fold p.case_table v (codes "https") ≡ true

  -- If the server enforces HTTPS, an event that makes a request is let through only by its header
  -- X-Forwarded-Proto, in whatever spelling of the name. If no header of this name has the value
  -- "https" up to case, the response has the status 426 and the server is as before. If one has it,
  -- and no other spelling of the name has another value, the response and the server afterwards are
  -- those of the route of the request.
  pub handler_needs_https :
      (target : Target)
      → http.new_request req.http_method (actual_path req) ≡ ok target
      → s.enforce_https ≡ true
      → (((k v : Text) → Has (k, v) req.headers → canonical_header_key k ≡ proto → ¬ FoldsToHttps v)
          → handler p http w (some req) s ≡ (
            some (to_gateway http (write_error 426 "https_required" "this endpoint is HTTPS-only")),
            s,
          ))
        × ((k v : Text)
            → Has (k, v) req.headers
            → canonical_header_key k ≡ proto
            → Agree req.headers proto v
            → FoldsToHttps v
            → handler p http w (some req) s ≡ (
              Option.map (to_gateway http) (reply (route p w (http_request req target) s).0),
              (route p w (http_request req target) s).1,
            ))
  unfolding handler handle_target serve_http request_is_tls http_request
  handler_needs_https target e https = (
    λ plain.
        let refused : ¬ FoldsToHttps (get_value proto (set_headers req.headers [])) =
          set_headers-Carried req.headers [] proto (λ v. ¬ FoldsToHttps v) plain
            (not_blank p.case_table) (unfold get_value lookup in not_blank p.case_table) in
        elim (Bool-cases (
          equal_fold p.case_table (get_value proto (set_headers req.headers [])) (codes "https"))) [
            | inl secure ↦ absurd (refused secure)
            | inr closed ↦ rw (e, handle_target, https, closed) refl
          ],
    λ k v m c agree secure.
        let read = get_value-set_headers req.headers proto k v m c agree in
        rw (e, handle_target, https, read, secure) refl,
  )
