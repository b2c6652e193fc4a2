-- ===== src/YdbStore/Session/Laws.antt =====
-- What a transaction of pkg/store/ydbstore/ydbstore.go leaves in the tables, and what a method that
-- returns has read.
use s21_identity_service.Base.{◌≡◌, ◌≢◌, refl, ◌∙◌, ap, inl, inr, arith, text_eq}
use s21_identity_service.Base.Exec.{
  Exec, Outcome, ok, err, Outcome-cases, pure, ◌>>=◌, ok_of_bind, err_of_bind, bind_ok,
}
use s21_identity_service.Text.{Text}
use s21_identity_service.Store.{StoreError, failure, Repo}
use s21_identity_service.YdbStore.Service.{Ydb, IsYdb, Tables, Reads, Writes}
use s21_identity_service.YdbStore.Session.{as_failure, execute, settle, do_tx}

-- An error that the code itself returns, not one of the driver.
abbrev pub IsSentinel : StoreError → Type 0
IsSentinel e = (message : Text) → e ≢ failure message

as_failure-ok : {A : Type 0} (r : Outcome Text A) (a : A) → as_failure r ≡ ok a → r ≡ ok a
as_failure-ok (ok x) a h = cc
as_failure-ok (err m) a h = absurd (cc)

as_failure-err :
    {A : Type 0} (r : Outcome Text A) (e : StoreError) → as_failure r ≡ err e → ¬ IsSentinel e
as_failure-err (ok x) e h s = cc
as_failure-err (err m) e h s = s m (cc)

module _ {S A : Type 0} (m : Exec S Text A) (s : S) where
  pub execute-ok : (a : A) → (execute m s).0 ≡ ok a → (m s).0 ≡ ok a
  unfolding execute
  execute-ok a h = as_failure-ok (m s).0 a h

  pub execute-err : (e : StoreError) → (execute m s).0 ≡ err e → ¬ IsSentinel e
  unfolding execute
  execute-err e h = as_failure-err (m s).0 e h

  -- A query, run as a step.
  pub execute-Reads :
      (tables : S → Tables) (P : Tables → A → Type 0)
      → Reads tables m P
      → (tables (execute m s).1 ≡ tables s) × ((a : A) → (execute m s).0 ≡ ok a → P (tables s) a)
  unfolding execute
  execute-Reads tables P law = ((law s).0, λ a h. (law s).1 a (as_failure-ok (m s).0 a h))

pub execute-Writes :
    {S : Type 0} (m : Exec S Text (Unit {0})) (s : S) (tables : S → Tables) (f : Tables → Tables)
    → Writes tables m f
    → (execute m s).0 ≡ ok tt
    → tables (execute m s).1 ≡ f (tables s)
unfolding execute
execute-Writes m s tables f law h = law s (as_failure-ok (m s).0 tt h)

module _ {y : Ydb} (d : IsYdb y) {A : Type 0} (body : Repo y.State A) (s : y.State) where
  abbrev Committed : A → Type 0
  Committed a = ((body s).0 ≡ ok a) × (d.tables (do_tx y body s).1 ≡ d.tables (body s).1)

  -- A transaction that succeeds leaves the tables that its function has left.
  pub do_tx-ok : (a : A) → (do_tx y body s).0 ≡ ok a → Committed a
  unfolding do_tx
  do_tx-ok a h = elim (Outcome-cases (body s).0) [
    | inr (e, q) ↦ absurd (ground (arith, q))
    | inl (b, q) ↦
        let h' : ((execute y.commit >>= λ _. pure b) (body s).1).0 ≡ ok a = rw q at h in
        let (_, done, rest) = ok_of_bind (execute y.commit) (λ _. pure b) (body s).1 a h' in
        let same : b ≡ a = unfold pure in cc in
        (
          q ∙ ap ok same,
          rw (q, settle)
              (ap d.tables
                  (ap (λ x. x.1) (bind_ok (execute y.commit) (λ _. pure b) (body s).1 _ done))
                ∙ execute-Writes y.commit (body s).1 d.tables (λ t. t) d.commit done),
        )
  ]

  -- A transaction that ends with an error of the code itself leaves the database as it was.
  pub do_tx-err :
      (e : StoreError)
      → IsSentinel e
      → (do_tx y body s).0 ≡ err e
      → ((body s).0 ≡ err e) × ((do_tx y body s).1 ≡ s)
  unfolding do_tx
  do_tx-err e sentinel h = elim (Outcome-cases (body s).0) [
    | inr (x, q) ↦ rw (q, settle) (rw (q, settle) at h, refl)
    | inl (b, q) ↦
        let h' : ((execute y.commit >>= λ _. pure b) (body s).1).0 ≡ err e = rw q at h in
        elim (err_of_bind (execute y.commit) (λ _. pure b) (body s).1 e h') [
          | inl bad ↦ absurd (execute-err y.commit (body s).1 e bad sentinel)
          | inr (_, _, bad) ↦ absurd (unfold pure in cc)
        ]
  ]
