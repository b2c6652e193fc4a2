-- ===== src/YdbStore/Keys/Insert.antt =====
-- What the function of the transaction in `Insert` of pkg/store/ydbstore/ydbstore.go has read and
-- written.
pub mod Refines
use s21_identity_service.Base.{
  ◌≡◌, ◌≢◌, refl, sym, ◌∙◌, ap, ◌⊎◌, inl, inr, true, false, none, some, arith, text_eq, ◌==◌,
  Bool-cases,
}
use s21_identity_service.Base.Int.{ℤ, pos, int_eq, IsInt64}
use s21_identity_service.Base.Map
use s21_identity_service.Base.Map.{Map, lookup, NodupKeys}
use s21_identity_service.Base.Exec.{
  ok, err, pure, ◌>>=◌, ◌>>◌, ok_of_bind, err_of_bind, steps_of_bind,
}
use s21_identity_service.Text.{Text}
use s21_identity_service.Store.{
  Time, Repo, ApiKey, StoreError, not_found, key_name_in_use, creator_has_active_key,
}
use s21_identity_service.MemStore.Keys
use s21_identity_service.MemStore.Keys.Scan.{TakesName, TakesCreator}
use s21_identity_service.MemStore.Keys.Laws.{insert_outcomes}
use s21_identity_service.YdbStore.Columns.{KeyRow, uint64_of}
use s21_identity_service.YdbStore.Service.{Ydb, IsYdb, Tables, ActiveRow}
use s21_identity_service.YdbStore.Session.{execute, do_tx}
use s21_identity_service.YdbStore.Session.Laws.{
  IsSentinel, execute-Writes, execute-err, do_tx-ok, do_tx-err,
}
use s21_identity_service.YdbStore.Session.Checks.{check_passed, check_failed}
use s21_identity_service.YdbStore.Keys.{
  scan_api_key, key_params, check_name, check_creator, insert_tx, insert, created_or_now,
}
use s21_identity_service.YdbStore.Keys.Shown.{
  creator_of-creator_param, creator_scan, IsTyped, shown, stored, shown-insert, shown-NodupKeys,
  takes_name, name_taken, takes_creator, creator_taken,
}

module _ {y : Ydb} (d : IsYdb y) where
  abbrev pub keys_in : y.State → Map Text KeyRow
  keys_in s = (d.tables s).api_keys

  check_name-ok :
      (name : Text) (s : y.State)
      → (check_name y name s).0 ≡ ok tt
      → (d.tables (check_name y name s).1 ≡ d.tables s)
        × ((hash : Text) → ¬ ActiveRow (λ r. r.name ≡ name) (keys_in s) hash)
  unfolding check_name
  check_name-ok name s h =
      check_passed d.tables _ _ (y.select_active_name name) (d.select_active_name name)
        key_name_in_use s h

  check_name-err :
      (name : Text) (s : y.State) (e : StoreError)
      → IsSentinel e
      → (check_name y name s).0 ≡ err e
      → (e ≡ key_name_in_use) × ((hash : Text) × ActiveRow (λ r. r.name ≡ name) (keys_in s) hash)
  unfolding check_name
  check_name-err name s e sentinel h =
      check_failed d.tables _ _ (y.select_active_name name) (d.select_active_name name)
        key_name_in_use s e sentinel h

  abbrev pub Created : ℤ → KeyRow → Type 0
  Created by r = r.created_by_telegram_id ≡ some (uint64_of by)

  check_creator-ok :
      (by : ℤ) (s : y.State)
      → (check_creator y by s).0 ≡ ok tt
      → (d.tables (check_creator y by s).1 ≡ d.tables s)
        × (by ≢ pos 0 → (hash : Text) → ¬ ActiveRow (Created by) (keys_in s) hash)
  unfolding check_creator
  check_creator-ok by s h = elim (Bool-cases (by == pos 0)) [
    | inl e ↦ rw e (unfold pure in (refl, λ owned. absurd (ground arith)))
    | inr e ↦
        let (kept, absent) =
          check_passed d.tables _ _ (y.select_active_creator (uint64_of by))
            (d.select_active_creator (uint64_of by)) creator_has_active_key s (rw e at h) in
        (rw e kept, λ _. absent)
  ]

  check_creator-err :
      (by : ℤ) (s : y.State) (e : StoreError)
      → IsSentinel e
      → (check_creator y by s).0 ≡ err e
      → (e ≡ creator_has_active_key)
        × (by ≢ pos 0)
        × ((hash : Text) × ActiveRow (Created by) (keys_in s) hash)
  unfolding check_creator
  check_creator-err by s e sentinel h = elim (Bool-cases (by == pos 0)) [
    | inl z ↦ absurd (unfold pure in ground (arith, rw z at h))
    | inr z ↦
        let (same, found) =
          check_failed d.tables _ _ (y.select_active_creator (uint64_of by))
            (d.select_active_creator (uint64_of by)) creator_has_active_key s e sentinel
            (rw z at h) in
        (same, ground arith, found)
  ]

  module _ (k : ApiKey) (s : y.State) where
    abbrev after_name : y.State
    after_name = (check_name y k.name s).1

    abbrev after_checks : y.State
    after_checks = (check_creator y k.created_by_telegram_id after_name).1

    abbrev write : Repo y.State (Unit {0})
    write = execute (y.upsert_key (key_params y k))

    abbrev rest : Repo y.State (Unit {0})
    rest = check_creator y k.created_by_telegram_id >> write

    abbrev pub written : Tables → Tables
    written t = record t {
      api_keys = Map.insert (key_params y k).key_hash (key_params y k) t.api_keys;
    }

    -- The function of a transaction that returns has found no row in the way, and has written one.
    pub insert_tx-ok :
        (insert_tx y k s).0 ≡ ok tt
        → ((hash : Text) → ¬ ActiveRow (λ r. r.name ≡ k.name) (keys_in s) hash)
          × (k.created_by_telegram_id ≢ pos 0
              → (hash : Text) → ¬ ActiveRow (Created k.created_by_telegram_id) (keys_in s) hash)
          × (d.tables (insert_tx y k s).1 ≡ written (d.tables s))
    unfolding insert_tx
    insert_tx-ok h =
        let (_, named, h2, run) = steps_of_bind (check_name y k.name) (λ _. rest) s tt h in
        let (_, created, h3, run') =
          steps_of_bind (check_creator y k.created_by_telegram_id) (λ _. write) after_name tt h2 in
        let (kept, no_name) = check_name-ok k.name s named in
        let (kept', no_creator) = check_creator-ok k.created_by_telegram_id after_name created in
        (
          no_name,
          λ owned hash. rw (← kept, keys_in) (no_creator owned hash),
          ap (λ x. d.tables x.1) (run ∙ run')
              ∙ execute-Writes (y.upsert_key (key_params y k)) after_checks d.tables
                  (λ t. record t {
                    api_keys = Map.insert (key_params y k).key_hash (key_params y k) t.api_keys;
                  })
                  (d.upsert_key (key_params y k)) h3
              ∙ ap written (kept' ∙ kept),
        )

    -- One that fails, other than by the driver, has found a row in the way.
    pub insert_tx-err :
        (e : StoreError)
        → IsSentinel e
        → (insert_tx y k s).0 ≡ err e
        → ((e ≡ key_name_in_use)
            × ((hash : Text) × ActiveRow (λ r. r.name ≡ k.name) (keys_in s) hash))
          ⊎ ((e ≡ creator_has_active_key)
              × (k.created_by_telegram_id ≢ pos 0)
              × ((hash : Text) × ActiveRow (Created k.created_by_telegram_id) (keys_in s) hash))
    unfolding insert_tx
    insert_tx-err e sentinel h = elim (err_of_bind (check_name y k.name) (λ _. rest) s e h) [
      | inl named ↦ inl (check_name-err k.name s e sentinel named)
      | inr (_, named, h2) ↦
          elim (err_of_bind (check_creator y k.created_by_telegram_id) (λ _. write) after_name e
            h2) [
              | inl created ↦ inr (
                  rw (← ((check_name-ok k.name s named).0), keys_in)
                    (check_creator-err k.created_by_telegram_id after_name e sentinel created))
              | inr (_, _, h3) ↦
                  absurd (execute-err (y.upsert_key (key_params y k)) after_checks e h3 sentinel)
            ]
    ]
