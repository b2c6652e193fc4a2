-- ===== src/Api/Invariant/Writes.antt =====
-- Invariants of the handlers of pkg/api/server.go that write.
use s21_identity_service.Base.{ℕ, Option, none, some, text_eq}
use s21_identity_service.Base.Int.{ℤ, pos}
use s21_identity_service.Base.Exec.{Outcome, ok, err}
use s21_identity_service.Base.Exec.Keeps.{Keeps, Keeps-pure, Keeps-fail, Keeps-bind, Keeps-if}
use s21_identity_service.Text.{Text, trim_space}
use s21_identity_service.Store
use s21_identity_service.Store.{Store, StoreError, ApiKey, NicknameCacheEntry}
use s21_identity_service.S21.{Profile, S21Error}
use s21_identity_service.TokenCache.Defs.{TokenCache}
use s21_identity_service.Api.Models.{Request, Response}
use s21_identity_service.Api.Platform.{Platform, World}
use s21_identity_service.Api.Server.{Server}
use s21_identity_service.Api.Users.{
  or_resolve_response, password_of, lookup_profile, cached_or_lookup, resolve_nickname,
  handle_put_by_telegram, handle_delete_by_telegram,
}
use s21_identity_service.Api.Keys.{
  CreatedBy, absent, malformed, given, created_by, or_bad_request, or_insert_response,
  generate_api_key, rate_limit, mint_key, handle_create_key, revoke, revoke_as, handle_revoke_key,
}
use s21_identity_service.Api.Invariant.{
  KeptByReads, KeptByWrites, KeptByTokens, Holds, call_store-Keeps,
}
use s21_identity_service.Api.Invariant.Gate.{authorize-Keeps}
use s21_identity_service.Api.Invariant.Reads.{
  stop-Keeps, decoded-Keeps, or_internal-Keeps, or_not_found-Keeps, require-Keeps,
  key_has_scope-Keeps,
}

module _ {S : Store} {P : Server S → Type 0} where
  or_resolve_response-Keeps : (o : Outcome S21Error Profile) → Keeps P (or_resolve_response o)
  unfolding or_resolve_response
  or_resolve_response-Keeps (ok a) = Keeps-pure a
  or_resolve_response-Keeps (err e) = stop-Keeps _

  password_of-Keeps : (tok : Text) (o : Option ℕ) → Keeps P (password_of tok o)
  unfolding password_of
  password_of-Keeps tok none = Keeps-fail _
  password_of-Keeps tok (some i) = Keeps-pure _

  or_bad_request-Keeps :
      {A : Type 0} (o : Option A) (response : Response) → Keeps P (or_bad_request o response)
  unfolding or_bad_request
  or_bad_request-Keeps none response = stop-Keeps _
  or_bad_request-Keeps (some a) response = Keeps-pure a

  or_insert_response-Keeps : (o : Outcome StoreError (Unit {0})) → Keeps P (or_insert_response o)
  unfolding or_insert_response
  or_insert_response-Keeps (ok _) = Keeps-pure tt
  or_insert_response-Keeps (err Store.key_name_in_use) = stop-Keeps _
  or_insert_response-Keeps (err Store.creator_has_active_key) = stop-Keeps _
  or_insert_response-Keeps (err _) = stop-Keeps _

  generate_api_key-Keeps : (p : Platform) (o : Option Text) → Keeps P (generate_api_key p o)
  unfolding generate_api_key
  generate_api_key-Keeps p none = stop-Keeps _
  generate_api_key-Keeps p (some bytes) = Keeps-pure _

module _ (p : Platform) {S : Store} (w : World) {Q : S.State → Type 0} {R : TokenCache → Type 0}
    (reads : KeptByReads S Q) (writes : KeptByWrites S Q) (caches : KeptByTokens p R) where
  abbrev P : Server S → Type 0
  P = Holds {S = S} Q R

  lookup_profile-Keeps :
      (nick admin password : Text) → Keeps P (lookup_profile p w nick admin password)
  unfolding lookup_profile
  lookup_profile-Keeps nick admin password = Keeps-bind _ _ (or_resolve_response-Keeps _) (λ prof.
      Keeps-bind _ _ (call_store-Keeps _ (writes.upsert_nickname _)) (λ _. Keeps-pure prof))

  cached_or_lookup-Keeps :
      (nick admin : Text) (r : Request) (o : Outcome StoreError NicknameCacheEntry)
      → Keeps P (cached_or_lookup p w nick admin r o)
  unfolding cached_or_lookup
  cached_or_lookup-Keeps nick admin r (ok e) = Keeps-pure _
  cached_or_lookup-Keeps nick admin r (err _) =
      Keeps-bind _ _ (password_of-Keeps _ _) (lookup_profile-Keeps nick admin)

  pub put_by_telegram-Keeps : (r : Request) (tid : ℤ) → Keeps P (handle_put_by_telegram p w r tid)
  unfolding handle_put_by_telegram
  put_by_telegram-Keeps r tid = Keeps-bind _ _ (authorize-Keeps p w reads caches r _) (λ (_, admin).
      Keeps-bind _ _ (decoded-Keeps _) (λ req. Keeps-bind _ _ (require-Keeps _ _) (λ _.
        Keeps-bind _ _ (resolve-Keeps (trim_space req.nickname) admin) (λ prof.
          Keeps-bind _ _ (call_store-Keeps _ (writes.upsert_user _))
            (λ stored. Keeps-bind _ _ (or_internal-Keeps stored) (λ row. Keeps-pure _))))))
    where
      resolve-Keeps : (nick admin : Text) → Keeps P (resolve_nickname p w nick admin r)
      resolve-Keeps nick admin =
          unfold resolve_nickname in
          Keeps-bind _ _ (call_store-Keeps _ (reads.get_nickname nick))
            (cached_or_lookup-Keeps nick admin r)

  pub delete_by_telegram-Keeps :
      (r : Request) (tid : ℤ) → Keeps P (handle_delete_by_telegram p w r tid)
  unfolding handle_delete_by_telegram
  delete_by_telegram-Keeps r tid = Keeps-bind _ _ (authorize-Keeps p w reads caches r _) (λ _.
      Keeps-bind _ _ (call_store-Keeps _ (writes.delete_user tid))
        (λ o. Keeps-bind _ _ (or_not_found-Keeps _ o) (λ _. Keeps-pure _)))

  rate_limit-Keeps : (tid : ℤ) → Keeps P (rate_limit p w tid)
  unfolding rate_limit
  rate_limit-Keeps tid = Keeps-if _ _ _ (Keeps-pure tt) (
      Keeps-bind _ _ (call_store-Keeps _ (reads.count_by_creator_since tid _))
        (λ counted. Keeps-bind _ _ (or_internal-Keeps counted) (λ n. require-Keeps _ _)))

  mint_key-Keeps : (name scopes : Text) (tid : ℤ) → Keeps P (mint_key p w name scopes tid)
  unfolding mint_key
  mint_key-Keeps name scopes tid = Keeps-bind _ _ (generate_api_key-Keeps p w.random) (λ plaintext.
      Keeps-bind _ _ (call_store-Keeps _ (writes.insert_key _))
        (λ o. Keeps-bind _ _ (or_insert_response-Keeps o) (λ _. Keeps-pure _)))

  pub create_key-Keeps : (r : Request) → Keeps P (handle_create_key p w r)
  unfolding handle_create_key
  create_key-Keeps r = Keeps-bind _ _ (authorize-Keeps p w reads caches r _) (λ _.
      Keeps-bind _ _ (decoded-Keeps _) (λ req. Keeps-bind _ _ (require-Keeps _ _) (λ _.
        Keeps-bind _ _ (or_bad_request-Keeps _ _) (λ canon.
          Keeps-bind _ _ (rate_limit-Keeps req.created_by_telegram_id)
            (λ _. mint_key-Keeps _ canon req.created_by_telegram_id)))))

  revoke-Keeps : (name : Text) (by : ℤ) → Keeps P (revoke p w name by)
  unfolding revoke
  revoke-Keeps name by =
      Keeps-bind _ _ (call_store-Keeps _ (writes.revoke_by_name name by _))
        (λ o. Keeps-bind _ _ (or_not_found-Keeps _ o) (λ _. Keeps-pure _))

  revoke_as-Keeps :
      (k : Option ApiKey) (by : CreatedBy) (name : Text) → Keeps P (revoke_as p w k by name)
  unfolding revoke_as
  revoke_as-Keeps k malformed name = stop-Keeps _
  revoke_as-Keeps k (given by) name = revoke-Keeps name by
  revoke_as-Keeps k absent name =
      Keeps-bind _ _ (key_has_scope-Keeps k _)
        (λ admin. Keeps-bind _ _ (require-Keeps admin _) (λ _. revoke-Keeps name (pos 0)))

  pub revoke_key-Keeps : (r : Request) (name : Text) → Keeps P (handle_revoke_key p w r name)
  unfolding handle_revoke_key
  revoke_key-Keeps r name =
      Keeps-bind _ _ (authorize-Keeps p w reads caches r _)
        (λ (k, _). revoke_as-Keeps k (created_by r) name)
