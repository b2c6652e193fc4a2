-- ===== src/YdbStore/Session/Checks.antt =====
-- The queries of pkg/store/ydbstore/ydbstore.go that must find no row, and those that must find one.
use s21_identity_service.Base.{◌≡◌, ◌≢◌, refl, ◌∙◌, ap, inl, inr, List, [], ◌∷◌}
use s21_identity_service.Base.Exec.{Exec, ok, err, ◌>>=◌, ok_of_bind, err_of_bind, bind_ok}
use s21_identity_service.Text.{Text}
use s21_identity_service.Store.{StoreError, Repo}
use s21_identity_service.YdbStore.Columns.{KeyRow}
use s21_identity_service.YdbStore.Service.{Tables, Reads, ActiveRow, OneOf}
use s21_identity_service.YdbStore.Session.{execute, no_row}
use s21_identity_service.YdbStore.Session.Laws.{IsSentinel, execute-Reads, execute-err}

no_row-ok :
    {S A : Type 0} (rows : List A) (s : S) (e : StoreError)
    → (no_row e rows s).0 ≡ ok tt
    → (rows ≡ []) × ((no_row e rows s).1 ≡ s)
unfolding no_row
no_row-ok [] s e h = (refl, refl)
no_row-ok (x ∷ rows) s e h = absurd (cc)

no_row-err :
    {S A : Type 0} (rows : List A) (s : S) (e x : StoreError)
    → (no_row e rows s).0 ≡ err x
    → (x ≡ e) × (rows ≢ [])
unfolding no_row
no_row-err [] s e x h = absurd (cc)
no_row-err (r ∷ rows) s e x h = (cc, λ p. cc)

module _ {S A : Type 0} (tables : S → Tables) (P : KeyRow → Type 0) (shown : Text → KeyRow → A)
    (query : Exec S Text (List A))
    (law : Reads tables query (λ t rows. OneOf P shown t.api_keys rows)) (e : StoreError)
    (s : S) where
  abbrev Found : Tables → List A → Type 0
  Found t rows = OneOf P shown t.api_keys rows

  abbrev check : Repo S (Unit {0})
  check = execute query >>= λ rows. no_row e rows

  -- A check that passes has found no row, and has changed no table.
  pub check_passed :
      (check s).0 ≡ ok tt
      → (tables (check s).1 ≡ tables s) × ((hash : Text) → ¬ ActiveRow P (tables s).api_keys hash)
  check_passed h =
      let (rows, queried, rest) = ok_of_bind (execute query) (λ rows. no_row e rows) s tt h in
      let (kept, found) = execute-Reads query s tables Found law in
      let (empty, same) = no_row-ok rows (execute query s).1 e rest in
      (
        ap tables (
              ap (λ x. x.1) (bind_ok (execute query) (λ rows. no_row e rows) s rows queried) ∙ same)
            ∙ kept,
        elim (found rows queried) [ inl (_, absent) ↦ absent | inr (hash, r, one) ↦ absurd (cc) ],
      )

  -- A check that fails, other than by the driver, has found a row.
  pub check_failed :
      (x : StoreError)
      → IsSentinel x
      → (check s).0 ≡ err x
      → (x ≡ e) × ((hash : Text) × ActiveRow P (tables s).api_keys hash)
  check_failed x sentinel h = elim (err_of_bind (execute query) (λ rows. no_row e rows) s x h) [
    | inl bad ↦ absurd (execute-err query s x bad sentinel)
    | inr (rows, queried, rest) ↦
        let (same, some_row) = no_row-err rows (execute query s).1 e x rest in
        let (_, found) = execute-Reads query s tables Found law in
        elim (found rows queried) [
          | inl (none_left, _) ↦ absurd (some_row none_left)
          | inr (hash, r, _) ↦ (same, (hash, r))
        ]
  ]
