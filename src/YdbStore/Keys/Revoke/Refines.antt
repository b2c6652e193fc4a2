-- ===== src/YdbStore/Keys/Revoke/Refines.antt =====
-- `RevokeByName` of pkg/store/ydbstore/ydbstore.go against that of pkg/store/memstore/memstore.go.
use s21_identity_service.Base.{
  ◌≡◌, ◌≢◌, sym, ◌∙◌, ap, inl, inr, true, some, some_inj, text_eq, ◌==◌, if◌then◌else◌,
}
use s21_identity_service.Base.Int.{ℤ, pos, int_eq}
use s21_identity_service.Base.Map
use s21_identity_service.Base.Map.{Map, lookup, lookup-insert}
use s21_identity_service.Base.Exec.{ok, err}
use s21_identity_service.Text.{Text}
use s21_identity_service.Store.{Time, ApiKey, is_active, StoreError, not_found}
use s21_identity_service.MemStore.Keys
use s21_identity_service.MemStore.Keys.Laws.{Rows, IsValid, revoke_by_name_outcomes}
use s21_identity_service.MemStore.Keys.Order.{SameRows}
use s21_identity_service.YdbStore.Service.{Ydb, IsYdb, ActiveRow}
use s21_identity_service.YdbStore.Session.{do_tx}
use s21_identity_service.YdbStore.Session.Laws.{IsSentinel, do_tx-ok, do_tx-err}
use s21_identity_service.YdbStore.Keys.{scan_api_key, creator_of, revoke_tx, revoke_by_name}
use s21_identity_service.YdbStore.Keys.Shown.{
  shown, shown-insert, shown_found, row_of, active_scan, active_row, name_scan, creator_scan,
}
use s21_identity_service.YdbStore.Keys.Insert.{keys_in}
use s21_identity_service.YdbStore.Keys.Revoke.{Named, revoked, Missing, revoke_tx-ok, revoke_tx-err}

module _ {y : Ydb} (d : IsYdb y) (name : Text) (by : ℤ) (at : Time) (s : y.State) where
  abbrev in_memory : Rows
  in_memory = shown y (keys_in d s)

  abbrev now : Time
  now = y.time (y.timestamp at)

  module _ (v : IsValid in_memory) where
    -- In valid rows the active row of a name is the only one.
    only :
        (hash h : Text) (r : ActiveRow (Named d name by at s) (keys_in d s) hash) (k : ApiKey)
        → lookup h in_memory ≡ some k
        → is_active k ≡ true
        → k.name ≡ name
        → (h ≡ hash) × (k ≡ scan_api_key y r.row)
    only hash h r k l live n =
        let found = shown_found y hash r.row (keys_in d s) r.found in
        let p : h ≡ hash =
          v.one_name h hash k (scan_api_key y r.row) l found live (active_scan y r.row r.active)
            (n ∙ sym (name_scan y r.row ∙ r.fits)) in
        (p, some_inj (sym l ∙ ap (λ j. lookup j in_memory) p ∙ found))

    in_memory-ok :
        (hash : Text) (r : ActiveRow (Named d name by at s) (keys_in d s) hash)
        → (by ≢ pos 0 → creator_of r.row.created_by_telegram_id ≡ by)
        → ((Keys.revoke_by_name name by now in_memory).0 ≡ ok tt)
          × ((j : Text)
              → lookup j (Keys.revoke_by_name name by now in_memory).1 ≡ (
                  if hash == j
                  then some (record (scan_api_key y r.row) { revoked_at = some now })
                  else lookup j in_memory))
    in_memory-ok hash r owned = elim (revoke_by_name_outcomes name by now in_memory v.nodup) [
      | inl (h, k, l, live, n, o, done, after) ↦
          let (p, q) = only hash h r k l live n in (done, λ j. rw (← p, ← q) (after j))
      | inr (none_fits, _) ↦
          let (o, other) =
            none_fits hash (scan_api_key y r.row) (shown_found y hash r.row (keys_in d s) r.found)
              (active_scan y r.row r.active) (name_scan y r.row ∙ r.fits) in
          absurd (other (creator_scan y r.row ∙ owned o))
    ]

    in_memory-err :
        Missing d name by at s
        → Keys.revoke_by_name name by now in_memory ≡ (err not_found, in_memory)
    in_memory-err missing = elim (revoke_by_name_outcomes name by now in_memory v.nodup) [
      | inr (_, failed) ↦ failed
      | inl (h, k, l, live, n, o, _, _) ↦ elim missing [
        | inl absent ↦
            let (row, found, e) = row_of y h k (keys_in d s) l in
            absurd (
              absent h (record {
                row = row;
                found = found;
                active = active_row y row (rw e live);
                fits = sym (name_scan y row) ∙ ap (λ x. x.name) e ∙ n;
              }))
        | inr (hash, r, owned, other) ↦
            let (p, q) = only hash h r k l live n in
            absurd (
              other
                (sym (creator_scan y r.row) ∙ ap (λ x. x.created_by_telegram_id) (sym q) ∙ o owned))
      ]
    ]

    -- If YDB behaves as documented, and the rows that the table shows are valid: a revocation that
    -- succeeds is made by the store in memory too, at the time that the column keeps, and leaves
    -- the rows that it leaves. One that fails, other than by the driver, has changed nothing, and
    -- the store in memory fails with the same error and changes nothing.
    pub revoke_by_name-refines :
        ((revoke_by_name y name by at s).0 ≡ ok tt
          → ((Keys.revoke_by_name name by now in_memory).0 ≡ ok tt)
            × SameRows
                (shown y (keys_in d (revoke_by_name y name by at s).1))
                (Keys.revoke_by_name name by now in_memory).1)
        × ((e : StoreError)
            → IsSentinel e
            → (revoke_by_name y name by at s).0 ≡ err e
            → ((revoke_by_name y name by at s).1 ≡ s)
              × (Keys.revoke_by_name name by now in_memory ≡ (err e, in_memory)))
    unfolding revoke_by_name
    revoke_by_name-refines = (
      λ h.
          let (done, committed) = do_tx-ok d (revoke_tx y name by at) s tt h in
          let m = revoke_tx-ok d name by at s done in
          let (made, after) = in_memory-ok m.hash m.at_hash m.owned in
          let rows : shown y (keys_in d (do_tx y (revoke_tx y name by at) s).1)
              ≡ Map.insert m.hash (scan_api_key y (revoked d name by at s m.at_hash.row))
                  in_memory =
            ap (λ t. shown y t.api_keys) committed
            ∙ ap (shown y) m.after
            ∙ shown-insert y m.hash (revoked d name by at s m.at_hash.row) (keys_in d s) in
          (
            made,
            λ j.
                ap (lookup j) rows
                ∙ lookup-insert m.hash j (scan_api_key y (revoked d name by at s m.at_hash.row))
                    in_memory
                ∙ unfold scan_api_key in sym (after j),
          ),
      λ e sentinel h.
          let (failed, same) = do_tx-err d (revoke_tx y name by at) s e sentinel h in
          let (q, missing) = revoke_tx-err d name by at s e sentinel failed in
          (same, in_memory-err missing ∙ ap (λ x. (err x, in_memory)) (sym q)),
    )
