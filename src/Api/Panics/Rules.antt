-- ===== src/Api/Panics/Rules.antt =====
-- Actions of pkg/api/server.go that never panic: one rule for each way to build one, and for each
-- helper of the handlers.
use s21_identity_service.Base.{
  ◌≡◌, ◌≢◌, refl, inl, inr, Option, none, some, Bool, true, false, text_eq, arith, ℕ, if◌then◌else◌,
}
use s21_identity_service.Base.Exec.{Outcome, ok, err, pure, fail, ◌>>=◌, err_of_bind}
use s21_identity_service.Text.{Text, index_byte}
use s21_identity_service.Store
use s21_identity_service.Store.{Store, StoreError, ApiKey, NicknameCacheEntry, Repo, not_found}
use s21_identity_service.S21.{Profile, S21Error}
use s21_identity_service.Api.Models.{Response}
use s21_identity_service.Api.Platform.{Platform}
use s21_identity_service.Api.Server.{
  Server, Handler, panicked, call_store, stop, decoded, require, or_internal, or_not_found,
}
use s21_identity_service.Api.Auth.{parse_token, split_at}
use s21_identity_service.Api.Users.{or_resolve_response, password_of}
use s21_identity_service.Api.Keys.{
  key_has_scope, or_bad_request, or_insert_response, generate_api_key,
}

-- The action never panics.
pub record Calm {S : Store} {A : Type 0} (m : Handler S A) : Type 0 where
  pub at : (s : Server S) → (m s).0 ≢ err panicked

module _ {S : Store} {A : Type 0} where
  pub Calm-pure : (a : A) → Calm {S = S} (pure a)
  Calm-pure a = record { at = λ s h. unfold pure in cc }

  pub Calm-stop : (response : Response) → Calm {S = S} {A = A} (stop response)
  Calm-stop response = record { at = λ s h. unfold stop fail in ground arith }

  pub Calm-call_store : (m : Repo S.State A) → Calm (call_store {S = S} m)
  Calm-call_store m = record { at = λ s h. unfold call_store in cc }

  pub Calm-decoded : (o : Option A) → Calm {S = S} (decoded o)
  unfolding decoded
  Calm-decoded none = Calm-stop _
  Calm-decoded (some a) = Calm-pure a

  pub Calm-or_internal : (o : Outcome StoreError A) → Calm {S = S} (or_internal o)
  unfolding or_internal
  Calm-or_internal (ok a) = Calm-pure a
  Calm-or_internal (err e) = Calm-stop _

  pub Calm-or_not_found :
      (response : Response) (o : Outcome StoreError A) → Calm {S = S} (or_not_found response o)
  unfolding or_not_found
  Calm-or_not_found response (ok a) = Calm-pure a
  Calm-or_not_found response (err not_found) = Calm-stop _
  Calm-or_not_found response (err _) = Calm-stop _

  pub Calm-or_bad_request :
      (o : Option A) (response : Response) → Calm {S = S} (or_bad_request o response)
  unfolding or_bad_request
  Calm-or_bad_request none response = Calm-stop _
  Calm-or_bad_request (some a) response = Calm-pure a

  pub Calm-if : (b : Bool) (m n : Handler S A) → Calm m → Calm n → Calm (if b then m else n)
  Calm-if true m n km kn = km
  Calm-if false m n km kn = kn

  pub Calm-bind :
      {B : Type 0} (m : Handler S A) (f : A → Handler S B)
      → Calm m
      → ((a : A) → Calm (f a))
      → Calm (m >>= f)
  Calm-bind m f k kf = record {
    at = λ s h. elim (err_of_bind m f s panicked h) [
      | inl e ↦ k.at s e
      | inr (a, _, e) ↦ (kf a).at _ e
    ];
  }

module _ {S : Store} where
  pub Calm-require : (b : Bool) (response : Response) → Calm {S = S} (require b response)
  unfolding require
  Calm-require true response = Calm-pure tt
  Calm-require false response = Calm-stop _

  pub Calm-or_resolve_response :
      (o : Outcome S21Error Profile) → Calm {S = S} (or_resolve_response o)
  unfolding or_resolve_response
  Calm-or_resolve_response (ok a) = Calm-pure a
  Calm-or_resolve_response (err e) = Calm-stop _

  pub Calm-or_insert_response :
      (o : Outcome StoreError (Unit {0})) → Calm {S = S} (or_insert_response o)
  unfolding or_insert_response
  Calm-or_insert_response (ok _) = Calm-pure tt
  Calm-or_insert_response (err Store.key_name_in_use) = Calm-stop _
  Calm-or_insert_response (err Store.creator_has_active_key) = Calm-stop _
  Calm-or_insert_response (err _) = Calm-stop _

  pub Calm-generate_api_key : (p : Platform) (o : Option Text) → Calm {S = S} (generate_api_key p o)
  unfolding generate_api_key
  Calm-generate_api_key p none = Calm-stop _
  Calm-generate_api_key p (some bytes) = Calm-pure _

  -- The two sites: a key that is there, and a token with a colon.
  pub Calm-key_has_scope : (k : ApiKey) (scope : Text) → Calm {S = S} (key_has_scope (some k) scope)
  unfolding key_has_scope
  Calm-key_has_scope k scope = Calm-pure _

  pub Calm-password_of : (tok : Text) (o : Option ℕ) → o ≢ none → Calm {S = S} (password_of tok o)
  unfolding password_of
  Calm-password_of tok none n = absurd (n refl)
  Calm-password_of tok (some i) n = Calm-pure _

split_at_colon : (tok : Text) (o : Option ℕ) (x : Text × Text) → split_at tok o ≡ ok x → o ≢ none
unfolding split_at
split_at_colon tok none x h q = cc
split_at_colon tok (some i) x h q = cc

pub parse_token_colon :
    (tok : Text) (x : Text × Text) → parse_token tok ≡ ok x → index_byte tok b':' ≢ none
unfolding parse_token
parse_token_colon tok x h = split_at_colon tok (index_byte tok b':') x (ground arith)
