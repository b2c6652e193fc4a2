-- ===== src/Api/Panics.antt =====
-- Where the handlers of pkg/api/server.go can panic: `apiKey.HasScope` on a nil pointer, and a slice
-- of the token without a colon in it.
pub mod Rules
use s21_identity_service.Base.{
  ◌≡◌, ◌≢◌, refl, ◌∙◌, sym, ap, ◌⊎◌, inl, inr, Option, none, some, Bool, true, false, Bool-cases,
  Option-cases, [], ◌==◌, test_of_eq, text_eq, arith, ℕ, if◌then◌else◌,
}
use s21_identity_service.Base.Int.{ℤ, pos}
use s21_identity_service.Base.Exec.{
  Outcome, ok, err, Exec, pure, fail, ◌>>=◌, ok_of_bind, err_of_bind, bind_ok,
}
use s21_identity_service.Text.{Text, codes, index_byte}
use s21_identity_service.Store
use s21_identity_service.Store.{Store, StoreError, ApiKey, NicknameCacheEntry, Repo, not_found}
use s21_identity_service.S21.{Profile, S21Error}
use s21_identity_service.Api.Models.{Request, Response}
use s21_identity_service.Api.Platform.{Platform, World}
use s21_identity_service.Api.Server.{
  Server, Handler, Stop, respond, panicked, call_store, stop, decoded, require, or_internal,
  or_not_found, request_is_tls, missing_api_key, write_auth_error, write_error,
}
use s21_identity_service.Api.Auth.{
  authorize, authenticate, authenticate_api_key, or_respond, parse_token, split_at, refuse,
  answered,
}
use s21_identity_service.Api.Auth.Keys.{api_key_of, header_missing}
use s21_identity_service.Api.Auth.Tokens.{token_of, authenticate_ok}
use s21_identity_service.Api.Auth.Gate.{authorize_sound, authorize_refusal}
use s21_identity_service.Api.Users.{
  or_resolve_response, password_of, lookup_profile, cached_or_lookup, resolve_nickname,
  handle_get_by_telegram, handle_lookup_telegram_batch, handle_list_by_nickname,
  handle_put_by_telegram, handle_delete_by_telegram,
}
use s21_identity_service.Api.Keys.{
  CreatedBy, absent, malformed, given, created_by, key_has_scope, or_bad_request,
  or_insert_response, generate_api_key, rate_limit, mint_key, handle_create_key, revoke, revoke_as,
  handle_revoke_key, list_rows, list_as, handle_list_keys,
}
use s21_identity_service.Api.Serve.{route, serve_http, reply}
use s21_identity_service.Api.Serve.Cases.{OfHandlers, route-case}
use s21_identity_service.Api.Panics.Rules.{
  Calm-pure, Calm-stop, Calm-call_store, Calm-decoded, Calm-or_internal, Calm-or_not_found,
  Calm-or_bad_request, Calm-if, Calm-bind, Calm-require, Calm-or_resolve_response,
  Calm-or_insert_response, Calm-generate_api_key, Calm-key_has_scope, Calm-password_of, Calm,
  parse_token_colon,
}

reply-some : (o : Outcome Stop Response) → o ≢ err panicked → (x : Response) × (reply o ≡ some x)
unfolding reply
reply-some (ok x) n = (x, refl)
reply-some (err (respond x)) n = (x, refl)
reply-some (err panicked) n = absurd (n refl)

module _ (p : Platform) {S : Store} (w : World) (r : Request) where
  -- The handler does not panic with enforcement on.
  record Guarded (m : Handler S Response) : Type 0 where
    at : (s : Server S) → s.enforce_api_key ≡ true → (m s).0 ≢ err panicked

  -- Behind `authorize` there is a key, and a token with a colon.
  Guarded-authorize :
      (scope : Text) (f : Option ApiKey × Text → Handler S Response)
      → ((row : ApiKey) (login : Text)
          → index_byte (token_of r) b':' ≢ none
          → Calm {S = S} (f (some row, login)))
      → Guarded (authorize p w r scope >>= f)
  Guarded-authorize scope f k = record {
    at = λ s e h. elim (err_of_bind (authorize p w r scope) f s panicked h) [
      | inl x ↦ let (y, q) = authorize_refusal p w r scope s panicked x in absurd (cc)
      | inr ((o, login), x, y) ↦
          let (row, (q, (_, accepted))) = authorize_sound p w r scope s o login e x in
          let (password, (parsed, _)) = authenticate_ok p w r _ login accepted in
          (k row login (parse_token_colon (token_of r) _ parsed)).at _
            (ap (λ x. (f (x, login) (authorize p w r scope s).1).0) (sym q) ∙ y)
    ];
  }

  list_rows-Calm : (filter : Option ℤ) → Calm {S = S} (list_rows p w filter)
  unfolding list_rows
  list_rows-Calm filter =
      Calm-bind _ _ (Calm-call_store _)
        (λ found. Calm-bind _ _ (Calm-or_internal found) (λ rows. Calm-pure _))

  list_as-Calm : (k : ApiKey) (by : CreatedBy) → Calm {S = S} (list_as p w (some k) by)
  unfolding list_as
  list_as-Calm k malformed = Calm-stop _
  list_as-Calm k (given tid) = list_rows-Calm (some tid)
  list_as-Calm k absent =
      Calm-bind _ _ (Calm-key_has_scope k _)
        (λ admin. Calm-bind _ _ (Calm-require admin _) (λ _. list_rows-Calm none))

  revoke-Calm : (name : Text) (by : ℤ) → Calm {S = S} (revoke p w name by)
  unfolding revoke
  revoke-Calm name by =
      Calm-bind _ _ (Calm-call_store _)
        (λ o. Calm-bind _ _ (Calm-or_not_found _ o) (λ _. Calm-pure _))

  revoke_as-Calm :
      (k : ApiKey) (by : CreatedBy) (name : Text) → Calm {S = S} (revoke_as p w (some k) by name)
  unfolding revoke_as
  revoke_as-Calm k malformed name = Calm-stop _
  revoke_as-Calm k (given by) name = revoke-Calm name by
  revoke_as-Calm k absent name =
      Calm-bind _ _ (Calm-key_has_scope k _)
        (λ admin. Calm-bind _ _ (Calm-require admin _) (λ _. revoke-Calm name (pos 0)))

  rate_limit-Calm : (tid : ℤ) → Calm {S = S} (rate_limit p w tid)
  unfolding rate_limit
  rate_limit-Calm tid = Calm-if _ _ _ (Calm-pure tt) (
      Calm-bind _ _ (Calm-call_store _)
        (λ counted. Calm-bind _ _ (Calm-or_internal counted) (λ n. Calm-require _ _)))

  mint_key-Calm : (name scopes : Text) (tid : ℤ) → Calm {S = S} (mint_key p w name scopes tid)
  unfolding mint_key
  mint_key-Calm name scopes tid = Calm-bind _ _ (Calm-generate_api_key p w.random) (λ plaintext.
      Calm-bind _ _ (Calm-call_store _)
        (λ o. Calm-bind _ _ (Calm-or_insert_response o) (λ _. Calm-pure _)))

  cached_or_lookup-Calm :
      (nick admin : Text) (o : Outcome StoreError NicknameCacheEntry)
      → index_byte (token_of r) b':' ≢ none
      → Calm {S = S} (cached_or_lookup p w nick admin r o)
  unfolding cached_or_lookup lookup_profile
  cached_or_lookup-Calm nick admin (ok e) n = Calm-pure _
  cached_or_lookup-Calm nick admin (err _) n = Calm-bind _ _ (Calm-password_of _ _ n) (λ password.
      Calm-bind _ _ (Calm-or_resolve_response _)
        (λ prof. Calm-bind _ _ (Calm-call_store _) (λ _. Calm-pure prof)))

  resolve_nickname-Calm :
      (nick admin : Text)
      → index_byte (token_of r) b':' ≢ none
      → Calm {S = S} (resolve_nickname p w nick admin r)
  unfolding resolve_nickname
  resolve_nickname-Calm nick admin n =
      Calm-bind _ _ (Calm-call_store _) (λ o. cached_or_lookup-Calm nick admin o n)

  route-Guarded : Guarded (route p w r)
  unfolding handle_get_by_telegram handle_lookup_telegram_batch handle_list_by_nickname
      handle_put_by_telegram handle_delete_by_telegram handle_create_key handle_list_keys
      handle_revoke_key
  route-Guarded = route-case {Z = λ m. Guarded m} (record {
    plain = λ response. record { at = λ s e. (Calm-pure response).at s };
    get_by_telegram = λ tid. Guarded-authorize _ _ (λ row login n.
        Calm-bind _ _ (Calm-call_store _)
          (λ o. Calm-bind _ _ (Calm-or_not_found _ o) (λ _. Calm-pure _)));
    lookup_telegram_batch = Guarded-authorize _ _ (λ row login n.
        Calm-bind _ _ (Calm-decoded _) (λ req. Calm-bind _ _ (Calm-require _ _) (λ _.
          Calm-bind _ _ (Calm-call_store _)
            (λ o. Calm-bind _ _ (Calm-or_internal o) (λ _. Calm-pure _)))));
    list_by_nickname = λ nick. Guarded-authorize _ _ (λ row login n.
        Calm-bind _ _ (Calm-call_store _)
          (λ o. Calm-bind _ _ (Calm-or_internal o) (λ _. Calm-pure _)));
    put_by_telegram = λ tid. Guarded-authorize _ _ (λ row login n.
        Calm-bind _ _ (Calm-decoded _) (λ req. Calm-bind _ _ (Calm-require _ _) (λ _.
          Calm-bind _ _ (resolve_nickname-Calm _ login n) (λ prof.
            Calm-bind _ _ (Calm-call_store _)
              (λ o. Calm-bind _ _ (Calm-or_internal o) (λ _. Calm-pure _))))));
    delete_by_telegram = λ tid. Guarded-authorize _ _ (λ row login n.
        Calm-bind _ _ (Calm-call_store _)
          (λ o. Calm-bind _ _ (Calm-or_not_found _ o) (λ _. Calm-pure _)));
    create_key = Guarded-authorize _ _ (λ row login n. Calm-bind _ _ (Calm-decoded _) (λ req.
        Calm-bind _ _ (Calm-require _ _) (λ _.
          Calm-bind _ _ (Calm-or_bad_request _ _)
            (λ canon. Calm-bind _ _ (rate_limit-Calm _) (λ _. mint_key-Calm _ canon _)))));
    list_keys = Guarded-authorize _ _ (λ row login n. list_as-Calm row (created_by r));
    revoke_key =
        λ name. Guarded-authorize _ _ (λ row login n. revoke_as-Calm row (created_by r) name);
  })

  -- With enforcement on, every request gets a response: no handler panics, whatever the request,
  -- the store and the outside world.
  pub serve_http_responds :
      (s : Server S) → s.enforce_api_key ≡ true → (x : Response) × ((serve_http p w r s).0 ≡ some x)
  unfolding serve_http
  serve_http_responds s e = elim (Bool-cases (request_is_tls p r s)) [
    | inl t ↦ let (x, q) = reply-some _ (route-Guarded.at s e) in (x, ground arith)
    | inr t ↦ (write_error 426 "https_required" "this endpoint is HTTPS-only", ground arith)
  ]

-- With enforcement off, a request that has no API key and no `created_by` makes the handlers of key
-- revocation and key listing panic once its token is accepted.
pub dry_run_panics :
    (p : Platform) {S : Store} (w : World) (r : Request) (s : Server S) (name login : Text)
    → s.enforce_api_key ≡ false
    → api_key_of r ≡ []
    → (authenticate p w r s).0 ≡ ok login
    → created_by r ≡ absent
    → ((handle_revoke_key p w r name s).0 ≡ err panicked)
      × ((handle_list_keys p w r s).0 ≡ err panicked)
unfolding handle_revoke_key handle_list_keys
dry_run_panics p {S} w r s name login off no_key accepted unscoped = (
  ap (λ m. m.0) (bind_ok (authorize p w r (codes "write")) _ s (none, login) passed)
      ∙ rw unscoped (unfold revoke_as key_has_scope fail ◌>>=◌ in refl),
  ap (λ m. m.0) (bind_ok (authorize p w r (codes "write")) _ s (none, login) passed)
      ∙ rw unscoped (unfold list_as key_has_scope fail ◌>>=◌ in refl),
)
  where
    refused : authenticate_api_key p w r (codes "write") s ≡ (ok none, s)
    refused =
        rw (header_missing p {S = S} w r (codes "write") no_key) (unfold refuse in rw off refl)

    passed : (authorize p w r (codes "write") s).0 ≡ ok (none, login)
    passed = unfold authorize or_respond answered pure ◌>>=◌ in rw (refused, accepted) refl
