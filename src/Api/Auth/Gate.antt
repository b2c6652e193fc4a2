-- ===== src/Api/Auth/Gate.antt =====
-- What `authorize` of pkg/api/server.go lets through, and how it refuses.
use s21_identity_service.Base.{◌≡◌, refl, inl, inr, Option, some, true, text_eq, arith}
use s21_identity_service.Base.Exec.{Outcome, ok, err, pure, ok_of_bind, err_of_bind, Outcome-cases}
use s21_identity_service.Text.{Text}
use s21_identity_service.Store.{Store, ApiKey}
use s21_identity_service.Api.Models.{Request}
use s21_identity_service.Api.Platform.{Platform, World}
use s21_identity_service.Api.Server.{Server, AuthError, Stop, respond, write_auth_error}
use s21_identity_service.Api.Auth.{
  authenticate, authenticate_api_key, answered, or_respond, authorize,
}
use s21_identity_service.Api.Auth.Keys.{Granted, authenticate_api_key_sound}

module _ {A : Type 0} where
  answered_ok : (o : Outcome AuthError A) (a : A) → answered o ≡ ok a → o ≡ ok a
  unfolding answered
  answered_ok (ok x) a h = ground arith
  answered_ok (err e) a h = absurd (cc)

  answered_err :
      (o : Outcome AuthError A) (x : Stop)
      → answered o ≡ err x
      → (e : AuthError) × ((o ≡ err e) × (x ≡ respond (write_auth_error e)))
  unfolding answered
  answered_err (ok a) x h = absurd (cc)
  answered_err (err e) x h = (e, (refl, ground arith))

module _ (p : Platform) {S : Store} (w : World) where
  -- With enforcement on, `authorize` lets a request through only if its API key is granted the
  -- scope, with the stored row of that key, and only if `authenticate` accepts its token in the
  -- state that the check of the key leaves.
  pub authorize_sound :
      (r : Request) (scope : Text) (s : Server S) (o : Option ApiKey) (login : Text)
      → s.enforce_api_key ≡ true
      → (authorize p w r scope s).0 ≡ ok (o, login)
      → (row : ApiKey) × ((o ≡ some row)
          × (Granted p S r scope s.store row
              × ((authenticate p w r (authenticate_api_key p w r scope s).1).0 ≡ ok login)))
  unfolding authorize or_respond pure
  authorize_sound r scope s o login e h =
      let (row, a, rest) =
        ok_of_bind (or_respond p w (authenticate_api_key p w r scope)) _ s (o, login) h in
      let (l, b, last) = ok_of_bind (or_respond p w (authenticate p w r)) _ _ (o, login) rest in
      let (k, q, g) = authenticate_api_key_sound p w r scope s row e (answered_ok _ row a) in
      (k, (ground arith, (g, ground (arith, answered_ok _ l b))))

  -- A refusal of `authorize` is the response of an authentication error, never a panic.
  pub authorize_refusal :
      (r : Request) (scope : Text) (s : Server S) (x : Stop)
      → (authorize p w r scope s).0 ≡ err x
      → (e : AuthError) × (x ≡ respond (write_auth_error e))
  unfolding authorize or_respond pure
  authorize_refusal r scope s x h =
      elim (err_of_bind (or_respond p w (authenticate_api_key p w r scope)) _ s x h) [
        | inl a ↦ let (e, (_, q)) = answered_err _ x a in (e, q)
        | inr (_, _, rest) ↦ elim (err_of_bind (or_respond p w (authenticate p w r)) _ _ x rest) [
          | inl b ↦ let (e, (_, q)) = answered_err _ x b in (e, q)
          | inr (_, _, q) ↦ absurd (cc)
        ]
      ]

  -- With enforcement on, a request whose key is not granted the scope ends with the response of an
  -- authentication error.
  pub authorize_denied :
      (r : Request) (scope : Text) (s : Server S)
      → s.enforce_api_key ≡ true
      → ((row : ApiKey) → ¬ Granted p S r scope s.store row)
      → (e : AuthError) × ((authorize p w r scope s).0 ≡ err (respond (write_auth_error e)))
  authorize_denied r scope s e deny = elim (Outcome-cases (authorize p w r scope s).0) [
    | inl ((o, login), a) ↦
        let (row, (_, (g, _))) = authorize_sound r scope s o login e a in absurd (deny row g)
    | inr (x, a) ↦ let (y, q) = authorize_refusal r scope s x a in (y, ground arith)
  ]
