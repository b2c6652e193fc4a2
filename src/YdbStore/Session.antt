-- ===== src/YdbStore/Session.antt =====
-- `doRO`, `doTx` and the reading of result sets in pkg/store/ydbstore/ydbstore.go. One
-- attempt of the function is modelled. With `table.WithIdempotent` the driver tries it again, also
-- after a commit of which it does not know whether it was made; these attempts are left out. A query
-- that fails, a result set that is missing and a row that does not scan are one failure, with the
-- driver's message.
pub mod Laws
pub mod Checks
pub mod Lookup
use s21_identity_service.Base.{List, [], ◌∷◌}
use s21_identity_service.Base.Exec.{Exec, Outcome, ok, err, pure, fail, ◌>>=◌, ◌>>◌}
use s21_identity_service.Text.{Text}
use s21_identity_service.Store.{StoreError, not_found, failure, Repo}
use s21_identity_service.YdbStore.Service.{Ydb}

abbrev pub as_failure : {A : Type 0} → Outcome Text A → Outcome StoreError A
as_failure (ok a) = ok a
as_failure (err message) = err (failure message)

module _ {S A : Type 0} where
  -- One statement.
  unfoldable pub execute : Exec S Text A → Repo S A
  execute statement s = let (r, s') = statement s in (as_failure r, s')

  -- `if !res.NextRow() { return store.ErrNotFound }`
  unfoldable pub first_row : List A → Repo S A
  unfolding pure fail
  first_row [] = fail not_found
  first_row (row ∷ _) = pure row

  -- `if res.NextRow() { return e }`
  unfoldable pub no_row : StoreError → List A → Repo S (Unit {0})
  unfolding pure fail
  no_row e [] = pure tt
  no_row e (_ ∷ _) = fail e

  -- A call whose error is a value for the caller to look at.
  unfoldable pub attempt : Repo S A → Repo S (Outcome StoreError A)
  attempt m s = let (r, s') = m s in (ok r, s')

module _ (y : Ydb) {A : Type 0} where
  -- A function that returns an error is rolled back, any other is committed.
  unfoldable pub settle : Outcome StoreError A → y.State → Repo y.State A
  unfolding execute ◌>>=◌
  settle (ok a) before s = (do execute y.commit; pure a) s
  settle (err e) before s = (err e, before)

  unfoldable pub do_tx : Repo y.State A → Repo y.State A
  unfolding settle
  do_tx body s = let (r, s') = body s in settle r s s'
