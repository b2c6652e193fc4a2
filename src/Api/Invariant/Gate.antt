-- ===== src/Api/Invariant/Gate.antt =====
-- Invariants of the authentication steps of pkg/api/server.go.
use s21_identity_service.Base.{ℕ, Option, none, some, text_eq}
use s21_identity_service.Base.Exec.{Outcome, ok, err}
use s21_identity_service.Base.Exec.Keeps.{
  Keeps, Keeps-pure, Keeps-fail, Keeps-bind, Keeps-lift, Keeps-if,
}
use s21_identity_service.Text.{Text}
use s21_identity_service.Store
use s21_identity_service.Store.{Store, StoreError, ApiKey, S21TokenCacheEntry}
use s21_identity_service.TokenCache.Defs.{TokenCache}
use s21_identity_service.Api.Models.{Request}
use s21_identity_service.Api.Platform.{Platform, World, token_read}
use s21_identity_service.Api.Server.{Server, AuthError, Auth, remember, put_if_present}
use s21_identity_service.Api.Auth.{
  memory_login, durable_login, live_login, accept_entry, or_live, or_durable, authenticate,
  check_found, refuse, read_if_present, check_row, authenticate_api_key, or_respond, authorize,
}
use s21_identity_service.Api.Invariant.{
  KeptByReads, KeptByTokens, Holds, IfPresent, call_store-Keeps,
}

module _ (p : Platform) (w : World) {R : TokenCache → Type 0} (caches : KeptByTokens p R) where
  put_if_present-keeps :
      (now : ℕ) (token login : Text) (o : Option TokenCache)
      → IfPresent R o
      → IfPresent R (put_if_present p now token login o)
  unfolding put_if_present
  put_if_present-keeps now token login none h = tt
  put_if_present-keeps now token login (some c) h = caches.put now token login h

  read_if_present-keeps :
      (token : Text) (o : Option TokenCache)
      → IfPresent R o
      → IfPresent R (read_if_present p w token o).1
  unfolding read_if_present
  read_if_present-keeps token none h = tt
  read_if_present-keeps token (some c) h = caches.get (w.now token_read) token h

module _ (p : Platform) {S : Store} (w : World) {Q : S.State → Type 0} {R : TokenCache → Type 0}
    (reads : KeptByReads S Q) (caches : KeptByTokens p R) where
  abbrev P : Server S → Type 0
  P = Holds {S = S} Q R

  remember-Keeps :
      (now : ℕ) (token login : Text) → Keeps {E = AuthError} P (remember p now token login)
  unfolding remember
  remember-Keeps now token login = record {
    at = λ s h. record {
      store = h.store;
      tokens = put_if_present-keeps p w caches now token login s.tokens h.tokens;
    };
  }

  memory_login-Keeps : (tok login : Text) → Keeps P (memory_login p w tok login)
  unfolding memory_login
  memory_login-Keeps tok login = record {
    at = λ s h. record {
      store = h.store;
      tokens = read_if_present-keeps p w caches tok s.tokens h.tokens;
    };
  }

  accept_entry-Keeps :
      (tok login : Text) (o : Outcome StoreError S21TokenCacheEntry)
      → Keeps P (accept_entry p w tok login o)
  unfolding accept_entry
  accept_entry-Keeps tok login (err e) = Keeps-pure none
  accept_entry-Keeps tok login (ok entry) =
      Keeps-if _ _ _
        (Keeps-bind _ _ (remember-Keeps _ tok entry.login) (λ _. Keeps-pure (some entry.login)))
        (Keeps-pure none)

  durable_login-Keeps : (tok login : Text) → Keeps P (durable_login p w tok login)
  unfolding durable_login
  durable_login-Keeps tok login =
      Keeps-bind _ _ (call_store-Keeps _ (reads.get_token (p.hash tok)))
        (accept_entry-Keeps tok login)

  live_login-Keeps : (tok login password : Text) → Keeps P (live_login p w tok login password)
  unfolding live_login
  live_login-Keeps tok login password = Keeps-bind _ _ (Keeps-lift _) (λ _.
      Keeps-bind _ _ (remember-Keeps _ tok login)
        (λ _. Keeps-bind _ _ (call_store-Keeps _ (reads.upsert_token _)) (λ _. Keeps-pure login)))

  or_live-Keeps :
      (tok login password : Text) (o : Option Text) → Keeps P (or_live p w tok login password o)
  unfolding or_live
  or_live-Keeps tok login password none = live_login-Keeps tok login password
  or_live-Keeps tok login password (some l) = Keeps-pure l

  or_durable-Keeps :
      (tok login password : Text) (o : Option Text) → Keeps P (or_durable p w tok login password o)
  unfolding or_durable
  or_durable-Keeps tok login password none =
      Keeps-bind _ _ (durable_login-Keeps tok login) (or_live-Keeps tok login password)
  or_durable-Keeps tok login password (some l) = Keeps-pure l

  pub authenticate-Keeps : (r : Request) → Keeps P (authenticate p w r)
  unfolding authenticate
  authenticate-Keeps r = Keeps-bind _ _ (Keeps-lift _) (λ (login, password).
      Keeps-bind _ _ (memory_login-Keeps _ login) (or_durable-Keeps _ login password))

  refuse-Keeps : (e : AuthError) → Keeps P (refuse e)
  unfolding refuse
  refuse-Keeps e = record { at = λ s h. h }

  check_row-Keeps : (got scope : Text) (row : ApiKey) → Keeps P (check_row p w got scope row)
  unfolding check_row
  check_row-Keeps got scope row = search (Keeps-if, refuse-Keeps, Keeps-pure)

  check_found-Keeps :
      (got scope : Text) (o : Outcome StoreError ApiKey) → Keeps P (check_found p w got scope o)
  unfolding check_found
  check_found-Keeps got scope (ok row) = check_row-Keeps got scope row
  check_found-Keeps got scope (err Store.not_found) = refuse-Keeps _
  check_found-Keeps got scope (err _) = Keeps-fail _

  pub authenticate_api_key-Keeps :
      (r : Request) (scope : Text) → Keeps P (authenticate_api_key p w r scope)
  unfolding authenticate_api_key
  authenticate_api_key-Keeps r scope =
      Keeps-if _ _ _ (refuse-Keeps _)
        (Keeps-bind _ _ (call_store-Keeps _ (reads.get_by_hash _)) (check_found-Keeps _ scope))

  or_respond-Keeps : {A : Type 0} (m : Auth S A) → Keeps P m → Keeps P (or_respond p w m)
  unfolding or_respond
  or_respond-Keeps m k = record { at = k.at }

  -- The gate keeps what reads of the store and uses of the caches keep, whatever it answers.
  pub authorize-Keeps : (r : Request) (scope : Text) → Keeps P (authorize p w r scope)
  unfolding authorize
  authorize-Keeps r scope =
      Keeps-bind _ _ (or_respond-Keeps _ (authenticate_api_key-Keeps r scope))
        (λ row. Keeps-bind _ _ (or_respond-Keeps _ (authenticate-Keeps r)) (λ _. Keeps-pure _))
