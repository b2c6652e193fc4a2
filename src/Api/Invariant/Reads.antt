-- ===== src/Api/Invariant/Reads.antt =====
-- Invariants of the handlers of pkg/api/server.go that only read.
use s21_identity_service.Base.{Option, none, some, Bool, true, false}
use s21_identity_service.Base.Int.{ℤ}
use s21_identity_service.Base.Exec.{Outcome, ok, err}
use s21_identity_service.Base.Exec.Keeps.{Keeps, Keeps-pure, Keeps-fail, Keeps-bind}
use s21_identity_service.Text.{Text}
use s21_identity_service.Store
use s21_identity_service.Store.{Store, StoreError, ApiKey}
use s21_identity_service.TokenCache.Defs.{TokenCache}
use s21_identity_service.Api.Models.{Request, Response}
use s21_identity_service.Api.Platform.{Platform, World}
use s21_identity_service.Api.Server.{Server, stop, decoded, require, or_internal, or_not_found}
use s21_identity_service.Api.Users.{
  handle_get_by_telegram, handle_lookup_telegram_batch, handle_list_by_nickname,
}
use s21_identity_service.Api.Keys.{
  CreatedBy, absent, malformed, given, created_by, key_has_scope, list_rows, list_as,
  handle_list_keys,
}
use s21_identity_service.Api.Invariant.{KeptByReads, KeptByTokens, Holds, call_store-Keeps}
use s21_identity_service.Api.Invariant.Gate.{authorize-Keeps}

module _ {S : Store} {P : Server S → Type 0} where
  pub stop-Keeps : {A : Type 0} (response : Response) → Keeps {A = A} P (stop response)
  unfolding stop
  stop-Keeps response = Keeps-fail _

  pub decoded-Keeps : {A : Type 0} (o : Option A) → Keeps P (decoded o)
  unfolding decoded
  decoded-Keeps none = stop-Keeps _
  decoded-Keeps (some a) = Keeps-pure a

  pub or_internal-Keeps : {A : Type 0} (o : Outcome StoreError A) → Keeps P (or_internal o)
  unfolding or_internal
  or_internal-Keeps (ok a) = Keeps-pure a
  or_internal-Keeps (err e) = stop-Keeps _

  pub or_not_found-Keeps :
      {A : Type 0} (response : Response) (o : Outcome StoreError A)
      → Keeps P (or_not_found response o)
  unfolding or_not_found
  or_not_found-Keeps response (ok a) = Keeps-pure a
  or_not_found-Keeps response (err Store.not_found) = stop-Keeps _
  or_not_found-Keeps response (err _) = stop-Keeps _

  pub require-Keeps : (b : Bool) (response : Response) → Keeps P (require b response)
  unfolding require
  require-Keeps true response = Keeps-pure tt
  require-Keeps false response = stop-Keeps response

  pub key_has_scope-Keeps : (k : Option ApiKey) (scope : Text) → Keeps P (key_has_scope k scope)
  unfolding key_has_scope
  key_has_scope-Keeps none scope = Keeps-fail _
  key_has_scope-Keeps (some k) scope = Keeps-pure _

module _ (p : Platform) {S : Store} (w : World) {Q : S.State → Type 0} {R : TokenCache → Type 0}
    (reads : KeptByReads S Q) (caches : KeptByTokens p R) where
  abbrev P : Server S → Type 0
  P = Holds {S = S} Q R

  pub get_by_telegram-Keeps : (r : Request) (tid : ℤ) → Keeps P (handle_get_by_telegram p w r tid)
  unfolding handle_get_by_telegram
  get_by_telegram-Keeps r tid = Keeps-bind _ _ (authorize-Keeps p w reads caches r _) (λ _.
      Keeps-bind _ _ (call_store-Keeps _ (reads.get_by_telegram_id tid))
        (λ found. Keeps-bind _ _ (or_not_found-Keeps _ found) (λ row. Keeps-pure _)))

  pub lookup_telegram_batch-Keeps : (r : Request) → Keeps P (handle_lookup_telegram_batch p w r)
  unfolding handle_lookup_telegram_batch
  lookup_telegram_batch-Keeps r = Keeps-bind _ _ (authorize-Keeps p w reads caches r _) (λ _.
      Keeps-bind _ _ (decoded-Keeps _) (λ req. Keeps-bind _ _ (require-Keeps _ _) (λ _.
        Keeps-bind _ _ (call_store-Keeps _ (reads.get_by_telegram_ids req.telegram_ids))
          (λ found. Keeps-bind _ _ (or_internal-Keeps found) (λ rows. Keeps-pure _)))))

  pub list_by_nickname-Keeps :
      (r : Request) (nick : Text) → Keeps P (handle_list_by_nickname p w r nick)
  unfolding handle_list_by_nickname
  list_by_nickname-Keeps r nick = Keeps-bind _ _ (authorize-Keeps p w reads caches r _) (λ _.
      Keeps-bind _ _ (call_store-Keeps _ (reads.list_by_nickname nick))
        (λ found. Keeps-bind _ _ (or_internal-Keeps found) (λ rows. Keeps-pure _)))

  list_rows-Keeps : (filter : Option ℤ) → Keeps P (list_rows p w filter)
  unfolding list_rows
  list_rows-Keeps filter =
      Keeps-bind _ _ (call_store-Keeps _ reads.list_keys)
        (λ found. Keeps-bind _ _ (or_internal-Keeps found) (λ rows. Keeps-pure _))

  list_as-Keeps : (k : Option ApiKey) (by : CreatedBy) → Keeps P (list_as p w k by)
  unfolding list_as
  list_as-Keeps k malformed = stop-Keeps _
  list_as-Keeps k (given tid) = list_rows-Keeps (some tid)
  list_as-Keeps k absent =
      Keeps-bind _ _ (key_has_scope-Keeps k _)
        (λ admin. Keeps-bind _ _ (require-Keeps admin _) (λ _. list_rows-Keeps none))

  pub list_keys-Keeps : (r : Request) → Keeps P (handle_list_keys p w r)
  unfolding handle_list_keys
  list_keys-Keeps r =
      Keeps-bind _ _ (authorize-Keeps p w reads caches r _)
        (λ (k, _). list_as-Keeps k (created_by r))
