-- ===== src/YdbStore/Keys/Stored.antt =====
-- A key that `Insert` of pkg/store/ydbstore/ydbstore.go has written, as `GetByHash` reads it.
use s21_identity_service.Base.{
  ◌+◌, ◌-◌, ◌%◌, ◌^◌, ◌≤◌, ◌<◌, ◌≡◌, refl, ◌∙◌, ap, none, some, arith, text_eq,
}
use s21_identity_service.Base.Int.{IsInt64}
use s21_identity_service.Base.Map
use s21_identity_service.Base.Map.{lookup, lookup-insert}
use s21_identity_service.Base.Exec.{ok}
use s21_identity_service.Text.{Text}
use s21_identity_service.Store.{Time, ApiKey}
use s21_identity_service.YdbStore.Service.{Ydb, IsYdb, epoch}
use s21_identity_service.YdbStore.Session.Laws.{do_tx-ok}
use s21_identity_service.YdbStore.Session.Lookup.{answer, OrFailure, lookup_lem}
use s21_identity_service.YdbStore.Keys.{
  scan_api_key, key_params, get_by_hash, insert, insert_tx, created_or_now,
}
use s21_identity_service.YdbStore.Keys.Shown.{stored, creator_of-creator_param}
use s21_identity_service.YdbStore.Keys.Insert.{keys_in, insert_tx-ok}

-- A time that a column of type Timestamp keeps up to the microsecond.
abbrev pub IsTimestamp : Time → Type 0
IsTimestamp t = (epoch ≤ t) × (t < epoch + 2 ^ 63)

abbrev pub truncated : Time → Time
truncated t = t - t % 1000

module _ {y : Ydb} (d : IsYdb y) where
  pub get_by_hash_lem :
      (h : Text) (s : y.State)
      → (d.tables (get_by_hash y h s).1 ≡ d.tables s)
        × OrFailure (get_by_hash y h s).0 (answer (scan_api_key y) (lookup h (keys_in d s)))
  unfolding get_by_hash
  get_by_hash_lem h s =
      lookup_lem d.tables (λ t. lookup h t.api_keys) (y.select_key h) (d.select_key h)
        (scan_api_key y) s

  pub keys_in-insert :
      (now : Time) (k : ApiKey) (s : y.State)
      → (insert y now k s).0 ≡ ok tt
      → keys_in d (insert y now k s).1
        ≡ Map.insert k.key_hash (key_params y (created_or_now y now k)) (keys_in d s)
  unfolding insert key_params
  keys_in-insert now k s h =
      let (done, committed) = do_tx-ok d (insert_tx y (created_or_now y now k)) s tt h in
      let (_, _, written) = insert_tx-ok d (created_or_now y now k) s done in
      ap (λ t. t.api_keys) (committed ∙ written)

  -- What a row of the table reads back as.
  pub stored_lem :
      (k : ApiKey)
      → IsInt64 k.created_by_telegram_id
      → IsTimestamp k.created_at
      → stored y k ≡ record k { created_at = truncated k.created_at; revoked_at = none }
  unfolding scan_api_key key_params
  stored_lem k word (lo, hi) =
      rw (d.time_kept k.created_at lo hi, creator_of-creator_param k.created_by_telegram_id word)
        refl

  -- If YDB behaves as documented, the row that an insertion has written, with a creator within
  -- int64 and a time that the column keeps, is read back by its hash as it was given, but active,
  -- dated by the clock where it had no time, and with the time truncated to the microsecond; or the
  -- driver fails.
  pub get_by_hash-insert :
      (now : Time) (k : ApiKey) (s : y.State)
      → IsInt64 k.created_by_telegram_id
      → IsTimestamp (created_or_now y now k).created_at
      → (insert y now k s).0 ≡ ok tt
      → OrFailure (get_by_hash y k.key_hash (insert y now k s).1).0 (
          ok (record k {
            created_at = truncated (created_or_now y now k).created_at;
            revoked_at = none;
          }))
  get_by_hash-insert now k s word time h =
      let row = key_params y (created_or_now y now k) in
      let found : lookup k.key_hash (keys_in d (insert y now k s).1) ≡ some row =
        ap (lookup k.key_hash) (keys_in-insert now k s h)
        ∙ lookup-insert k.key_hash k.key_hash row (keys_in d s)
        ∙ ground arith in
      rw (← (stored_lem (created_or_now y now k) word time))
        (rw found at ((get_by_hash_lem k.key_hash (insert y now k s).1).1))
