-- ===== src/Api/Keys/Create.antt =====
-- What stands behind a 201 of `handleCreateKey` of pkg/api/server.go.
use s21_identity_service.Base.{
  ◌≡◌, ◌⊎◌, refl, ◌∙◌, sym, ap, ◌<◌, ◌-◌, ℕ, Option, none, some, true, leb, Bool-cases,
  Option-cases, inl, inr, ◌==◌, text_eq, arith,
}
use s21_identity_service.Base.Int.{ℤ, pos, int_eq}
use s21_identity_service.Base.Exec.{
  Outcome, ok, err, pure, fail, ◌>>=◌, steps_of_bind, Outcome-cases,
}
use mathlib.Core.Path.{subst}
use s21_identity_service.Text.{Text, trim_space}
use s21_identity_service.Store.{Store, StoreError, key_name_in_use, creator_has_active_key}
use s21_identity_service.Store.Scopes.{allowed_scopes}
use s21_identity_service.Api.Models.{Request, Response, CreateKeyRequest, created_body}
use s21_identity_service.Api.Platform.{Platform, World, rate_time, created_time}
use s21_identity_service.Api.Routes.{valid_key_name}
use s21_identity_service.Api.Server.{Server, call_store, stop, require, or_internal, write_json}
use s21_identity_service.Api.Server.Returns.{stop_ok, pure_ok, decoded_ok, require_ok}
use s21_identity_service.Api.Keys.{
  key_create_rate_limit_window, key_create_rate_limit_max, or_bad_request, or_insert_response,
  generate_api_key, key_row, rate_limit, mint_key, handle_create_key,
}

module _ {S : Store} where
  generate_api_key_ok :
      (p : Platform) (o : Option Text) (s : Server S) (plaintext : Text)
      → (generate_api_key p o s).0 ≡ ok plaintext
      → (bytes : Text) × ((o ≡ some bytes)
          × ((plaintext ≡ p.base64 bytes) × ((generate_api_key p o s).1 ≡ s)))
  unfolding generate_api_key
  generate_api_key_ok p none s plaintext h = stop_ok _ s plaintext h
  generate_api_key_ok p (some bytes) s plaintext h =
      (bytes, (refl, (sym (pure_ok _ s plaintext h), unfold pure in refl)))

  or_insert_response_ok :
      (o : Outcome StoreError (Unit {0})) (s : Server S)
      → (or_insert_response o s).0 ≡ ok tt
      → (o ≡ ok tt) × ((or_insert_response o s).1 ≡ s)
  unfolding or_insert_response
  or_insert_response_ok (ok _) s h = (refl, unfold pure in refl)
  or_insert_response_ok (err key_name_in_use) s h = stop_ok _ s tt h
  or_insert_response_ok (err creator_has_active_key) s h = stop_ok _ s tt h
  or_insert_response_ok (err _) s h = stop_ok _ s tt h

  or_bad_request_ok :
      {A : Type 0} (o : Option A) (response : Response) (s : Server S) (a : A)
      → (or_bad_request o response s).0 ≡ ok a
      → (o ≡ some a) × ((or_bad_request o response s).1 ≡ s)
  unfolding or_bad_request
  or_bad_request_ok none response s a h = stop_ok _ s a h
  or_bad_request_ok (some x) response s a h = (ap some (pure_ok x s a h), unfold pure in refl)

module _ (p : Platform) {S : Store} (w : World) where
  -- The response that hands out a key, and the row that the store took.
  pub record Minted (name scopes : Text) (tid : ℤ) (s s' : Server S) (response : Response)
      : Type 0 where
    pub bytes : Text
    pub random : w.random ≡ some bytes
    pub inserted : (S.insert_key (key_row p w (p.base64 bytes) name scopes tid) s.store).0 ≡ ok tt
    pub after : s' ≡ record s {
      store = (S.insert_key (key_row p w (p.base64 bytes) name scopes tid) s.store).1;
    }
    pub answer :
        response
        ≡ write_json 201 (
            created_body (record {
              key = p.base64 bytes;
              name = name;
              scopes = scopes;
              created_at = w.now created_time;
            }))

  minted :
      (name scopes bytes : Text) (tid : ℤ) (s : Server S) (response : Response)
      → w.random ≡ some bytes
      → (o : Outcome StoreError (Unit {0}))
      → (S.insert_key (key_row p w (p.base64 bytes) name scopes tid) s.store).0 ≡ o
      → (mint_key p w name scopes tid s).0 ≡ ok response
      → Minted name scopes tid s (mint_key p w name scopes tid s).1 response
  unfolding mint_key generate_api_key or_insert_response call_store pure stop fail ◌>>=◌
  minted name scopes bytes tid s response e (ok _) i h = record {
    bytes = bytes;
    random = e;
    inserted = i;
    after = rw (e, i) refl;
    answer = sym (ground arith);
  }
  minted name scopes bytes tid s response e (err key_name_in_use) i h = absurd (ground arith)
  minted name scopes bytes tid s response e (err creator_has_active_key) i h = absurd (ground arith)
  minted name scopes bytes tid s response e (err _) i h = absurd (ground arith)

  mint_key_ok :
      (name scopes : Text) (tid : ℤ) (s : Server S) (response : Response)
      → (mint_key p w name scopes tid s).0 ≡ ok response
      → Minted name scopes tid s (mint_key p w name scopes tid s).1 response
  mint_key_ok name scopes tid s response h = elim (Option-cases w.random) [
    | inl e ↦ absurd (unfold mint_key generate_api_key stop fail ◌>>=◌ in ground arith)
    | inr (bytes, e) ↦ minted name scopes bytes tid s response e _ refl h
  ]

  Minted-at :
      {name scopes : Text} {tid : ℤ} {s s' s'' : Server S} {response : Response}
      → s' ≡ s''
      → Minted name scopes tid s s'' response
      → Minted name scopes tid s s' response
  Minted-at {name} {scopes} {tid} {s} {response = response} q m =
      subst (λ x. Minted name scopes tid s x response) (sym q) m

  -- The rate limit: nothing for the bot itself, or fewer rows of the creator than the limit.
  abbrev pub Allowed : ℤ → Server S → Server S → Type 0
  Allowed tid s s' =
      ((tid ≡ pos 0) × (s' ≡ s))
      ⊎ ((n : ℕ) × (((S.count_by_creator_since tid (w.now rate_time - key_create_rate_limit_window)
                s.store).0
              ≡ ok n)
            × ((n < key_create_rate_limit_max)
                × (s' ≡ record s {
                  store =
                      (S.count_by_creator_since tid (w.now rate_time - key_create_rate_limit_window)
                        s.store).1;
                }))))

  rate_limit_ok :
      (tid : ℤ) (s : Server S)
      → (rate_limit p w tid s).0 ≡ ok tt
      → Allowed tid s (rate_limit p w tid s).1
  unfolding rate_limit
  rate_limit_ok tid s h = elim (Bool-cases (tid == pos 0)) [
    | inl e ↦ inl (ground arith, rw e (unfold pure in refl))
    | inr e ↦
        elim (Outcome-cases
          (S.count_by_creator_since tid (w.now rate_time - key_create_rate_limit_window)
            s.store).0) [
              | inr (x, f) ↦ absurd (unfold call_store or_internal stop fail ◌>>=◌ in ground arith)
              | inl (n, f) ↦ elim (Bool-cases (leb key_create_rate_limit_max n)) [
                | inl g ↦
                    absurd
                      (unfold call_store or_internal require stop pure fail ◌>>=◌ in ground arith)
                | inr g ↦ inr (
                  n,
                  (
                    f,
                    (
                      ground arith,
                      unfold call_store or_internal require pure ◌>>=◌ in rw (e, f, g) refl,
                    ),
                  ),
                )
              ]
            ]
  ]

  -- What stands behind a 201: the request decodes to a valid name and to scopes that are allowed, the
  -- creator is below the limit, and the row was inserted.
  pub record Created (r : Request) (s' : Server S) (response : Response) : Type 0 where
    pub req : CreateKeyRequest
    pub canon : Text
    pub before : Server S
    pub ready : Server S
    pub decodes : p.decode_create r.body ≡ some req
    pub named : valid_key_name (trim_space req.name) ≡ true
    pub allowed : allowed_scopes (trim_space req.scopes) ≡ some canon
    pub limited : Allowed req.created_by_telegram_id before ready
    pub minted : Minted (trim_space req.name) canon req.created_by_telegram_id ready s' response

  pub handle_create_key_ok :
      (r : Request) (s : Server S) (response : Response)
      → (handle_create_key p w r s).0 ≡ ok response
      → Created r (handle_create_key p w r s).1 response
  unfolding handle_create_key
  handle_create_key_ok r s response h =
      let (_, _, h1, q1) = steps_of_bind _ _ s response h in
      let (req, e2, h2, q2) = steps_of_bind _ _ _ response h1 in
      let (_, e3, h3, q3) = steps_of_bind _ _ _ response h2 in
      let (canon, e4, h4, q4) = steps_of_bind _ _ _ response h3 in
      let (_, e5, h5, q5) = steps_of_bind _ _ _ response h4 in
      record {
        req = req;
        canon = canon;
        decodes = (decoded_ok _ _ req e2).0;
        named = (require_ok _ _ _ e3).0;
        allowed = (or_bad_request_ok _ _ _ canon e4).0;
        before = _;
        ready = _;
        limited = rate_limit_ok req.created_by_telegram_id _ e5;
        minted =
            Minted-at (ap (λ x. x.1) (q1 ∙ q2 ∙ q3 ∙ q4 ∙ q5))
              (mint_key_ok (trim_space req.name) canon req.created_by_telegram_id _ response h5);
      }
