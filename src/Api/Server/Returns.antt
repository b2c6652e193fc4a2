-- ===== src/Api/Server/Returns.antt =====
-- What it means that a helper of the handlers of pkg/api/server.go returns.
use s21_identity_service.Base.{◌≡◌, refl, ap, Option, none, some, Bool, true, false, arith}
use s21_identity_service.Base.Exec.{Outcome, ok, err, pure, fail}
use s21_identity_service.Store.{Store, StoreError, not_found, Repo}
use s21_identity_service.Api.Models.{Response}
use s21_identity_service.Api.Server.{
  Server, Stop, call_store, stop, decoded, require, or_internal, or_not_found,
}

module _ {S : Store} {A : Type 0} where
  pub stop_ok :
      {B : Type 0} (response : Response) (s : Server S) (a : A) → (stop response s).0 ≡ ok a → B
  unfolding stop fail
  stop_ok response s a h = absurd (cc)

  pub pure_ok : (x : A) (s : Server S) (a : A) → (pure {E = Stop} x s).0 ≡ ok a → x ≡ a
  unfolding pure
  pure_ok x s a h = ground arith

  pub decoded_ok :
      (o : Option A) (s : Server S) (a : A)
      → (decoded o s).0 ≡ ok a
      → (o ≡ some a) × ((decoded o s).1 ≡ s)
  unfolding decoded
  decoded_ok none s a h = stop_ok _ s a h
  decoded_ok (some x) s a h = (ap some (pure_ok x s a h), unfold pure in refl)

  pub or_internal_ok :
      (o : Outcome StoreError A) (s : Server S) (a : A)
      → (or_internal o s).0 ≡ ok a
      → (o ≡ ok a) × ((or_internal o s).1 ≡ s)
  unfolding or_internal
  or_internal_ok (err e) s a h = stop_ok _ s a h
  or_internal_ok (ok x) s a h = (ap ok (pure_ok x s a h), unfold pure in refl)

  pub or_not_found_ok :
      (response : Response) (o : Outcome StoreError A) (s : Server S) (a : A)
      → (or_not_found response o s).0 ≡ ok a
      → (o ≡ ok a) × ((or_not_found response o s).1 ≡ s)
  unfolding or_not_found
  or_not_found_ok response (err not_found) s a h = stop_ok _ s a h
  or_not_found_ok response (err _) s a h = stop_ok _ s a h
  or_not_found_ok response (ok x) s a h = (ap ok (pure_ok x s a h), unfold pure in refl)

  -- A call of the store returns its result, and leaves the rest of the server alone.
  pub call_store_ok :
      (m : Repo S.State A) (s : Server S) (o : Outcome StoreError A)
      → (call_store {E = Stop} m s).0 ≡ ok o
      → ((m s.store).0 ≡ o) × ((call_store {E = Stop} m s).1 ≡ record s { store = (m s.store).1 })
  unfolding call_store
  call_store_ok m s o h = (ground arith, refl)

pub require_ok :
    {S : Store} (b : Bool) (response : Response) (s : Server S)
    → (require b response s).0 ≡ ok tt
    → (b ≡ true) × ((require b response s).1 ≡ s)
unfolding require
require_ok true response s h = (refl, unfold pure in refl)
require_ok false response s h = stop_ok _ s tt h
