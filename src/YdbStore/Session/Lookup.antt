-- ===== src/YdbStore/Session/Lookup.antt =====
-- A query of pkg/store/ydbstore/ydbstore.go by the primary key, whose row is scanned.
use s21_identity_service.Base.{◌≡◌, refl, ◌∙◌, ap, ◌⊎◌, inl, inr, Option, none, some, List}
use s21_identity_service.Base.Exec.{
  Exec, Outcome, ok, err, Outcome-cases, pure, ◌>>=◌, bind_ok, bind_err,
}
use s21_identity_service.Text.{Text}
use s21_identity_service.Store.{StoreError, not_found, failure, Repo}
use s21_identity_service.YdbStore.Service.{Tables, Reads, at_most_one}
use s21_identity_service.YdbStore.Session.{as_failure, execute, first_row}
use s21_identity_service.YdbStore.Session.Laws.{execute-Reads}

-- What the lookup answers, if the driver does not fail.
abbrev pub answer : {A B : Type 0} → (A → B) → Option A → Outcome StoreError B
answer scan none = err not_found
answer scan (some a) = ok (scan a)

-- The result, or a failure of the driver.
abbrev pub OrFailure : {A : Type 0} → Outcome StoreError A → Outcome StoreError A → Type 0
OrFailure r r' = (r ≡ r') ⊎ ((message : Text) × (r ≡ err (failure message)))

failed :
    {A : Type 0} (r : Outcome Text A) (e : StoreError)
    → as_failure r ≡ err e
    → (message : Text) × (e ≡ failure message)
failed (ok a) e h = absurd (cc)
failed (err m) e h = (m, cc)

execute_failed :
    {S A : Type 0} (m : Exec S Text A) (s : S) (e : StoreError)
    → (execute m s).0 ≡ err e
    → (message : Text) × (e ≡ failure message)
unfolding execute
execute_failed m s e h = failed (m s).0 e h

module _ {S A B : Type 0} (tables : S → Tables) (pick : Tables → Option A)
    (query : Exec S Text (List A))
    (law : Reads tables query (λ t rows. rows ≡ at_most_one (pick t))) (scan : A → B) (s : S) where
  abbrev scanned : List A → Repo S B
  scanned rows = first_row rows >>= λ row. pure (scan row)

  abbrev read : Repo S B
  read = execute query >>= scanned

  scanned_lem : (o : Option A) (t : S) → scanned (at_most_one o) t ≡ (answer scan o, t)
  unfolding first_row ◌>>=◌
  scanned_lem none t = refl
  scanned_lem (some a) t = refl

  -- A lookup changes no table, and answers with the row of the table.
  pub lookup_lem :
      (tables (read s).1 ≡ tables s) × OrFailure (read s).0 (answer scan (pick (tables s)))
  lookup_lem =
      let (kept, found) =
        execute-Reads query s tables (λ t rows. rows ≡ at_most_one (pick t)) law in
      elim (Outcome-cases (execute query s).0) [
        | inr (e, bad) ↦
            let (message, q) = execute_failed query s e bad in
            let whole = bind_err (execute query) scanned s e bad in
            (ap (λ x. tables x.1) whole ∙ kept, inr (message, ap (λ x. x.0) whole ∙ ap err q))
        | inl (rows, queried) ↦
            let whole : read s ≡ (answer scan (pick (tables s)), (execute query s).1) =
              bind_ok (execute query) scanned s rows queried
              ∙ ap (λ l. scanned l (execute query s).1) (found rows queried)
              ∙ scanned_lem (pick (tables s)) (execute query s).1 in
            (ap (λ x. tables x.1) whole ∙ kept, inl (ap (λ x. x.0) whole))
      ]
