-- ===== src/YdbStore/Keys/Revoke.antt =====
-- What the function of the transaction in `RevokeByName` of pkg/store/ydbstore/ydbstore.go has read
-- and written.
pub mod Refines
use s21_identity_service.Base.{
  ℕ, ◌≡◌, ◌≢◌, refl, sym, ◌∙◌, ap, ◌⊎◌, inl, inr, true, Option, none, some, some_inj, List, [], ◌∷◌,
  arith, text_eq, ◌==◌, Bool-cases, Option-cases, if◌then◌else◌,
}
use s21_identity_service.Base.Int.{ℤ, pos, int_eq}
use s21_identity_service.Base.Map
use s21_identity_service.Base.Map.{Map, lookup, lookup-insert}
use s21_identity_service.Base.Exec.{ok, err, ◌>>=◌, ◌>>◌, err_of_bind, steps_of_bind}
use s21_identity_service.Text.{Text}
use s21_identity_service.Store.{Time, Repo, ApiKey, is_active, StoreError, not_found}
use s21_identity_service.MemStore.Keys
use s21_identity_service.MemStore.Keys.Laws.{Rows, IsValid, revoke_by_name_outcomes}
use s21_identity_service.MemStore.Keys.Order.{SameRows}
use s21_identity_service.YdbStore.Columns.{KeyRow, Timestamp, int64_of}
use s21_identity_service.YdbStore.Service.{Ydb, IsYdb, Tables, ActiveRow, OneOf, set_revoked}
use s21_identity_service.YdbStore.Session.{execute, first_row, do_tx}
use s21_identity_service.YdbStore.Session.Laws.{
  IsSentinel, execute-Reads, execute-Writes, execute-err, do_tx-ok, do_tx-err,
}
use s21_identity_service.YdbStore.Keys.{
  scan_api_key, creator_of, check_owner, revoke_tx, revoke_by_name,
}
use s21_identity_service.YdbStore.Keys.Shown.{
  shown, shown-insert, shown_found, row_of, active_scan, active_row, name_scan, creator_scan,
}
use s21_identity_service.YdbStore.Keys.Insert.{keys_in}

check_owner-ok :
    {S : Type 0} (by : ℤ) (owner : Option ℕ) (s : S)
    → (check_owner by owner s).0 ≡ ok tt
    → ((check_owner by owner s).1 ≡ s) × (by ≢ pos 0 → creator_of owner ≡ by)
unfolding check_owner creator_of
check_owner-ok by none s h = ground arith
check_owner-ok by (some n) s h = ground arith

check_owner-err :
    {S : Type 0} (by : ℤ) (owner : Option ℕ) (s : S) (e : StoreError)
    → (check_owner by owner s).0 ≡ err e
    → (e ≡ not_found) × (by ≢ pos 0) × (creator_of owner ≢ by)
unfolding check_owner creator_of
check_owner-err by none s e h = ground arith
check_owner-err by (some n) s e h = ground arith

first_row-ok :
    {S A : Type 0} (rows : List A) (s : S) (a : A)
    → (first_row rows s).0 ≡ ok a
    → ((rest : List A) × (rows ≡ a ∷ rest)) × ((first_row rows s).1 ≡ s)
unfolding first_row
first_row-ok [] s a h = absurd (cc)
first_row-ok (x ∷ rows) s a h = ((rows, cc), refl)

first_row-err :
    {S A : Type 0} (rows : List A) (s : S) (e : StoreError)
    → (first_row rows s).0 ≡ err e
    → (e ≡ not_found) × (rows ≡ [])
unfolding first_row
first_row-err [] s e h = (cc, refl)
first_row-err (x ∷ rows) s e h = absurd (cc)

module _ {y : Ydb} (d : IsYdb y) (name : Text) (by : ℤ) (at : Time) (s : y.State) where
  abbrev pub Named : KeyRow → Type 0
  Named r = r.name ≡ name

  abbrev Owners : Tables → List (Text × Option ℕ) → Type 0
  Owners t rows = OneOf Named (λ h k. (h, k.created_by_telegram_id)) t.api_keys rows

  abbrev pub revoked : KeyRow → KeyRow
  revoked r = record r { revoked_at = some (y.timestamp at) }

  abbrev query : Repo y.State (List (Text × Option ℕ))
  query = execute (y.select_active_owner name)

  abbrev finish : Text × Option ℕ → Repo y.State (Unit {0})
  finish (hash, owner) = check_owner by owner >> execute (y.update_revoked hash (y.timestamp at))

  abbrev from_rows : List (Text × Option ℕ) → Repo y.State (Unit {0})
  from_rows rows = first_row rows >>= finish

  -- The row that a transaction that returns has marked.
  pub record Marked : Type 0 where
    pub hash : Text
    pub at_hash : ActiveRow Named (keys_in d s) hash
    pub owned : by ≢ pos 0 → creator_of at_hash.row.created_by_telegram_id ≡ by
    pub after :
        keys_in d (revoke_tx y name by at s).1 ≡ Map.insert hash (revoked at_hash.row) (keys_in d s)

  abbrev marked : Text → Tables → Tables
  marked hash t = set_revoked (lookup hash t.api_keys) hash (y.timestamp at) t

  finish-ok :
      (hash : Text) (owner : Option ℕ) (t : y.State)
      → (finish (hash, owner) t).0 ≡ ok tt
      → (by ≢ pos 0 → creator_of owner ≡ by)
        × (d.tables (finish (hash, owner) t).1 ≡ marked hash (d.tables t))
  finish-ok hash owner t h =
      let write = execute (y.update_revoked hash (y.timestamp at)) in
      let (_, checked, rest, run) = steps_of_bind (check_owner by owner) (λ _. write) t tt h in
      let (same, owned) = check_owner-ok by owner t checked in
      (
        owned,
        ap (λ x. d.tables x.1) run
            ∙ execute-Writes (y.update_revoked hash (y.timestamp at)) (check_owner by owner t).1
                d.tables (marked hash) (d.update_revoked hash (y.timestamp at)) rest
            ∙ ap (λ u. marked hash (d.tables u)) same,
      )

  finish-err :
      (hash : Text) (owner : Option ℕ) (t : y.State) (e : StoreError)
      → IsSentinel e
      → (finish (hash, owner) t).0 ≡ err e
      → (e ≡ not_found) × (by ≢ pos 0) × (creator_of owner ≢ by)
  finish-err hash owner t e sentinel h =
      let write = execute (y.update_revoked hash (y.timestamp at)) in
      elim (err_of_bind (check_owner by owner) (λ _. write) t e h) [
        | inl refused ↦ check_owner-err by owner t e refused
        | inr (_, _, failed) ↦
            absurd (execute-err (y.update_revoked hash (y.timestamp at)) _ e failed sentinel)
      ]

  rows_found :
      (d.tables (query s).1 ≡ d.tables s)
      × ((rows : List (Text × Option ℕ)) → (query s).0 ≡ ok rows → Owners (d.tables s) rows)
  rows_found =
      execute-Reads (y.select_active_owner name) s d.tables Owners (d.select_active_owner name)

  pub revoke_tx-ok : (revoke_tx y name by at s).0 ≡ ok tt → Marked
  unfolding revoke_tx
  revoke_tx-ok h =
      let (rows, queried, h2, run) = steps_of_bind query from_rows s tt h in
      let (a, first, h3, run') = steps_of_bind (first_row rows) finish (query s).1 tt h2 in
      let ((_, shape), same) = first_row-ok rows (query s).1 a first in
      let (owned, written) = finish-ok a.0 a.1 (first_row rows (query s).1).1 h3 in
      let (kept, found) = rows_found in
      elim (found rows queried) [
        | inl (empty, _) ↦ absurd (cc)
        | inr (hash, r, one) ↦
            let p : a ≡ (hash, r.row.created_by_telegram_id) = cc in
            record {
              hash = hash;
              at_hash = r;
              owned = λ o. sym (ap (λ x. creator_of x.1) p) ∙ owned o;
              after =
                  ap (λ x. keys_in d x.1) (run ∙ run')
                  ∙ ap (λ t. t.api_keys) (written ∙ ap (marked a.0) (ap d.tables same ∙ kept))
                  ∙ ap (λ x. (marked x.0 (d.tables s)).api_keys) p
                  ∙ rw r.found refl;
            }
      ]

  -- No active row has the name, or the one that has it has another owner.
  abbrev pub Missing : Type 0
  Missing =
      ((hash : Text) → ¬ ActiveRow Named (keys_in d s) hash)
      ⊎ ((hash : Text) × (r : ActiveRow Named (keys_in d s) hash) × (by ≢ pos 0)
          × (creator_of r.row.created_by_telegram_id ≢ by))

  pub revoke_tx-err :
      (e : StoreError)
      → IsSentinel e
      → (revoke_tx y name by at s).0 ≡ err e
      → (e ≡ not_found) × Missing
  unfolding revoke_tx
  revoke_tx-err e sentinel h = elim (err_of_bind query from_rows s e h) [
    | inl failed ↦ absurd (execute-err (y.select_active_owner name) s e failed sentinel)
    | inr (rows, queried, h2) ↦ elim (rows_found.1 rows queried) [
      | inl (empty, absent) ↦ elim (err_of_bind (first_row rows) finish (query s).1 e h2) [
        | inl missing ↦ ((first_row-err rows (query s).1 e missing).0, inl absent)
        | inr (a, first, _) ↦
            let ((_, shape), _) = first_row-ok rows (query s).1 a first in absurd (cc)
      ]
      | inr (hash, r, one) ↦ elim (err_of_bind (first_row rows) finish (query s).1 e h2) [
        | inl missing ↦ absurd (cc ((first_row-err rows (query s).1 e missing).1))
        | inr (a, first, h3) ↦
            let ((_, shape), _) = first_row-ok rows (query s).1 a first in
            let p : a ≡ (hash, r.row.created_by_telegram_id) = cc in
            let (q, o, other) = finish-err a.0 a.1 (first_row rows (query s).1).1 e sentinel h3 in
            (q, inr (hash, r, o, λ c. other (ap (λ x. creator_of x.1) p ∙ c)))
      ]
    ]
  ]
