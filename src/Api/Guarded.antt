-- ===== src/Api/Guarded.antt =====
-- Requests to pkg/api/server.go whose API key is not granted the scope write.
use s21_identity_service.Base.{◌≡◌, inl, inr, Option, true, Bool-cases, text_eq}
use s21_identity_service.Base.Exec.{◌>>=◌, bind_err}
use s21_identity_service.Base.Exec.Keeps.{Keeps, Keeps-pure}
use s21_identity_service.Text.{Text, codes}
use s21_identity_service.Store.{Store, ApiKey}
use s21_identity_service.TokenCache.Defs.{TokenCache}
use s21_identity_service.Api.Models.{Request, Response}
use s21_identity_service.Api.Platform.{Platform, World}
use s21_identity_service.Api.Server.{Server, Handler, request_is_tls}
use s21_identity_service.Api.Auth.{authorize}
use s21_identity_service.Api.Auth.Keys.{Granted}
use s21_identity_service.Api.Auth.Gate.{authorize_denied}
use s21_identity_service.Api.Users.{handle_put_by_telegram, handle_delete_by_telegram}
use s21_identity_service.Api.Keys.{handle_create_key, handle_revoke_key}
use s21_identity_service.Api.Serve.{route, serve_http}
use s21_identity_service.Api.Serve.Cases.{route-case}
use s21_identity_service.Api.Invariant.{KeptByReads, KeptByTokens, Holds}
use s21_identity_service.Api.Invariant.Gate.{authorize-Keeps}
use s21_identity_service.Api.Invariant.Reads.{
  get_by_telegram-Keeps, lookup_telegram_batch-Keeps, list_by_nickname-Keeps, list_keys-Keeps,
}

module _ (p : Platform) {S : Store} (w : World) {Q : S.State → Type 0} {R : TokenCache → Type 0}
    (reads : KeptByReads S Q) (caches : KeptByTokens p R) (r : Request) where
  -- The handler keeps what reads keep, for a request whose key is not granted the scope "write".
  record Guarded (m : Handler S Response) : Type 0 where
    at :
        (s : Server S)
        → s.enforce_api_key ≡ true
        → ((row : ApiKey) → ¬ Granted p S r (codes "write") s.store row)
        → Holds {S = S} Q R s
        → Holds {S = S} Q R (m s).1

  Guarded-Keeps : (m : Handler S Response) → Keeps (Holds {S = S} Q R) m → Guarded m
  Guarded-Keeps m k = record { at = λ s e d h. k.at s h }

  Guarded-authorize :
      (f : Option ApiKey × Text → Handler S Response)
      → Guarded (authorize p w r (codes "write") >>= f)
  Guarded-authorize f = record {
    at = λ s e d h.
        let (x, q) = authorize_denied p w r (codes "write") s e d in
        rw (bind_err (authorize p w r (codes "write")) f s _ q)
          ((authorize-Keeps p w reads caches r (codes "write")).at s h);
  }

  route-Guarded : Guarded (route p w r)
  unfolding handle_put_by_telegram handle_delete_by_telegram handle_create_key handle_revoke_key
  route-Guarded = route-case {Z = λ m. Guarded m} (record {
    plain = λ response. Guarded-Keeps _ (Keeps-pure response);
    get_by_telegram = λ tid. Guarded-Keeps _ (get_by_telegram-Keeps p w reads caches r tid);
    lookup_telegram_batch = Guarded-Keeps _ (lookup_telegram_batch-Keeps p w reads caches r);
    list_by_nickname = λ nick. Guarded-Keeps _ (list_by_nickname-Keeps p w reads caches r nick);
    put_by_telegram = λ tid. Guarded-authorize _;
    delete_by_telegram = λ tid. Guarded-authorize _;
    create_key = Guarded-authorize _;
    list_keys = Guarded-Keeps _ (list_keys-Keeps p w reads caches r);
    revoke_key = λ name. Guarded-authorize _;
  })

  -- With enforcement on, a request whose API key is not granted the scope "write" changes nothing
  -- that a read of the store keeps: whatever its route and method, any property of the store that
  -- every read and every write of the durable token cache keeps, and any property of the in-memory
  -- token cache that its own methods keep, still holds after it if it held before.
  pub write_needs_scope :
      (s : Server S)
      → s.enforce_api_key ≡ true
      → ((row : ApiKey) → ¬ Granted p S r (codes "write") s.store row)
      → Holds {S = S} Q R s
      → Holds {S = S} Q R (serve_http p w r s).1
  unfolding serve_http
  write_needs_scope s e d h = elim (Bool-cases (request_is_tls p r s)) [
    | inl t ↦ simp t (route-Guarded.at s e d h)
    | inr t ↦ simp t h
  ]
