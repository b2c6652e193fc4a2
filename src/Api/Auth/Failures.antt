-- ===== src/Api/Auth/Failures.antt =====
-- What a failed `authenticate` of pkg/api/server.go leaves behind.
use s21_identity_service.Base.{
  ◌≡◌, refl, ◌∙◌, ap, ◌⊎◌, inl, inr, Option, none, some, Bool-cases, ◌&&◌, ◌==◌, ltb, text_eq,
  arith,
}
use s21_identity_service.Base.Exec.{
  ok, err, pure, lift, ◌>>=◌, err_of_bind, bind_ok, bind_err, Outcome-cases,
}
use s21_identity_service.Text.{Text}
use s21_identity_service.Store.{Store}
use s21_identity_service.Api.Models.{Request}
use s21_identity_service.Api.Platform.{Platform, World, durable_check}
use s21_identity_service.Api.Server.{Server, AuthError, call_store, remember}
use s21_identity_service.Api.Auth.{
  parse_token, s21_verdict, read_if_present, memory_login, accept_entry, durable_login, live_login,
  or_live, or_durable, authenticate,
}
use s21_identity_service.Api.Auth.Tokens.{token_of}

module _ (p : Platform) {S : Store} (w : World) where
  live_login_err :
      (tok login password : Text) (s : Server S) (e : AuthError)
      → (live_login p w tok login password s).0 ≡ err e
      → (live_login p w tok login password s).1 ≡ s
  unfolding live_login call_store remember ◌>>=◌ pure lift
  live_login_err tok login password s e h =
      elim (Outcome-cases (s21_verdict (w.s21_authenticate login password))) [
        | inl (prof, q) ↦ absurd (ground arith)
        | inr (x, q) ↦ rw q refl
      ]

  -- The durable cache never fails, and a miss has only read.
  durable_login_miss :
      (tok login : Text) (s : Server S) (o : Option Text)
      → (durable_login p w tok login s).0 ≡ ok o
      → o ≡ none
      → (durable_login p w tok login s).1
        ≡ record s { store = (S.get_token (p.hash tok) s.store).1 }
  unfolding durable_login accept_entry call_store remember ◌>>=◌ pure
  durable_login_miss tok login s o h miss =
      elim (Outcome-cases (S.get_token (p.hash tok) s.store).0) [
        | inr (x, q) ↦ rw q refl
        | inl (entry, q) ↦
            elim (Bool-cases (ltb (w.now durable_check) entry.expires_at && entry.login == login)) [
              | inr f ↦ rw (q, f) refl
              | inl t ↦ absurd (ground arith)
            ]
      ]

  durable_login_err :
      (tok login : Text) (s : Server S) (e : AuthError)
      → (durable_login p w tok login s).0 ≡ err e
      → ⊥
  unfolding durable_login accept_entry call_store remember ◌>>=◌ pure
  durable_login_err tok login s e h = elim (Outcome-cases (S.get_token (p.hash tok) s.store).0) [
    | inr (x, q) ↦ ground arith
    | inl (entry, q) ↦ ground arith
  ]

  -- The state after reads of both caches.
  abbrev after_reads : Text → Server S → Server S
  after_reads tok s = record s {
    store = (S.get_token (p.hash tok) s.store).1;
    tokens = (read_if_present p w tok s.tokens).1;
  }

  or_durable_err :
      (tok login password : Text) (o : Option Text) (s : Server S) (e : AuthError)
      → (or_durable p w tok login password o s).0 ≡ err e
      → (or_durable p w tok login password o s).1
        ≡ record s { store = (S.get_token (p.hash tok) s.store).1 }
  or_durable_err tok login password (some l) s e h = absurd (unfold or_durable pure in cc)
  or_durable_err tok login password none s e h =
      elim (err_of_bind (durable_login p w tok login) (or_live p w tok login password) s e
        (unfold or_durable in h)) [
          | inl failed ↦ absurd (durable_login_err tok login s e failed)
          | inr (some l, _, later) ↦ absurd (unfold or_live pure in cc)
          | inr (none, miss, later) ↦
              unfold or_durable in
              (ap (λ x. x.1)
                  (bind_ok (durable_login p w tok login) (or_live p w tok login password) s none
                    miss)
                ∙ unfold or_live in
                  (live_login_err tok login password _ e later)
                  ∙ durable_login_miss tok login s none miss refl)
        ]

  after_parse_err :
      (tok login password : Text) (s : Server S) (e : AuthError)
      → ((memory_login p w tok login >>= or_durable p w tok login password) s).0 ≡ err e
      → ((memory_login p w tok login >>= or_durable p w tok login password) s).1 ≡ after_reads tok s
  unfolding memory_login
  after_parse_err tok login password s e h =
      elim (err_of_bind (memory_login p w tok login) (or_durable p w tok login password) s e h) [
        | inl failed ↦ absurd (cc)
        | inr (o, read, later) ↦
            ap (λ x. x.1)
              (bind_ok (memory_login p w tok login) (or_durable p w tok login password) s o read)
            ∙ or_durable_err tok login password o _ e later
      ]

  -- A failed `authenticate` has written to neither cache: the server is as before, or as a read of
  -- the token in each of the two caches leaves it.
  pub failures_not_cached :
      (r : Request) (s : Server S) (e : AuthError)
      → (authenticate p w r s).0 ≡ err e
      → ((authenticate p w r s).1 ≡ s)
        ⊎ ((authenticate p w r s).1 ≡ record s {
          store = (S.get_token (p.hash (token_of r)) s.store).1;
          tokens = (read_if_present p w (token_of r) s.tokens).1;
        })
  unfolding authenticate lift
  failures_not_cached r s e h = elim (err_of_bind (lift (parse_token (token_of r))) _ s e h) [
    | inl malformed ↦
        inl (ap (λ x. x.1) (bind_err (lift (parse_token (token_of r))) _ s e malformed) ∙ refl)
    | inr ((login, password), parsed, later) ↦ inr (
        ap (λ x. x.1) (bind_ok (lift (parse_token (token_of r))) _ s (login, password) parsed)
        ∙ after_parse_err (token_of r) login password s e later)
  ]
