-- ===== src/YdbStore/Keys/Insert/Refines.antt =====
-- `Insert` of pkg/store/ydbstore/ydbstore.go against `Insert` of pkg/store/memstore/memstore.go.
use s21_identity_service.Base.{
  ◌≡◌, ◌≢◌, sym, ◌∙◌, ap, ◌⊎◌, inl, inr, none, refl, if◌then◌else◌, text_eq,
}
use s21_identity_service.Base.Int.{pos, int_eq, IsInt64}
use s21_identity_service.Base.Map
use s21_identity_service.Base.Map.{Map, lookup, NodupKeys}
use s21_identity_service.Base.Exec.{ok, err}
use s21_identity_service.Text.{Text}
use s21_identity_service.Store.{
  Time, is_zero, ApiKey, StoreError, key_name_in_use, creator_has_active_key,
}
use s21_identity_service.MemStore.Keys
use s21_identity_service.MemStore.Keys.Scan.{TakesName, TakesCreator}
use s21_identity_service.MemStore.Keys.Laws.{insert_outcomes}
use s21_identity_service.YdbStore.Service.{Ydb, IsYdb, ActiveRow}
use s21_identity_service.YdbStore.Session.Laws.{IsSentinel, do_tx-ok, do_tx-err}
use s21_identity_service.YdbStore.Keys.{scan_api_key, key_params, insert_tx, insert, created_or_now}
use s21_identity_service.YdbStore.Keys.Shown.{
  creator_of-creator_param, IsTyped, shown, stored, shown-insert, shown-NodupKeys, takes_name,
  name_taken, takes_creator, creator_taken,
}
use s21_identity_service.YdbStore.Keys.Insert.{keys_in, Created, insert_tx-ok, insert_tx-err}

module _ {y : Ydb} (d : IsYdb y) where
  module _ (now : Time) (k : ApiKey) (s : y.State) (nodup : NodupKeys (keys_in d s))
      (typed : IsTyped (keys_in d s)) (word : IsInt64 k.created_by_telegram_id) where
    -- The key as it was given, but active, and dated with the time that the column keeps of its own
    -- or, if that is zero, of the clock.
    abbrev pub new_row : ApiKey
    new_row = record k {
      created_at = y.time (y.timestamp (if is_zero k.created_at then now else k.created_at));
      revoked_at = none;
    }

    pub row_as_stored : stored y (created_or_now y now k) ≡ new_row
    unfolding scan_api_key key_params
    row_as_stored = rw (creator_of-creator_param k.created_by_telegram_id word) refl

    same_creator : new_row.created_by_telegram_id ≡ k.created_by_telegram_id
    same_creator = refl

    no-TakesName :
        ((hash : Text) → ¬ ActiveRow (λ r. r.name ≡ k.name) (keys_in d s) hash)
        → ¬ TakesName new_row (shown y (keys_in d s))
    unfolding scan_api_key key_params
    no-TakesName absent t = absent t.hash (name_taken y new_row (keys_in d s) t)

    as_stored :
        TakesCreator k (shown y (keys_in d s)) → TakesCreator new_row (shown y (keys_in d s))
    as_stored t = record {
      hash = t.hash;
      row = t.row;
      found = t.found;
      active = t.active;
      owned = λ z. t.owned (sym same_creator ∙ z);
      same = t.same ∙ sym same_creator;
    }

    as_given : TakesCreator new_row (shown y (keys_in d s)) → TakesCreator k (shown y (keys_in d s))
    as_given t = record {
      hash = t.hash;
      row = t.row;
      found = t.found;
      active = t.active;
      owned = λ z. t.owned (same_creator ∙ z);
      same = t.same ∙ same_creator;
    }

    no-TakesCreator :
        (k.created_by_telegram_id ≢ pos 0
          → (hash : Text) → ¬ ActiveRow (Created d k.created_by_telegram_id) (keys_in d s) hash)
        → ¬ TakesCreator new_row (shown y (keys_in d s))
    no-TakesCreator absent t =
        let given = as_given t in
        absent given.owned given.hash (creator_taken y k (keys_in d s) word typed given)

    -- An insertion that nothing blocks is made in memory too.
    unblocked :
        ¬ TakesName new_row (shown y (keys_in d s))
        → ¬ TakesCreator new_row (shown y (keys_in d s))
        → Keys.insert new_row (shown y (keys_in d s))
          ≡ (ok tt, Map.insert new_row.key_hash new_row (shown y (keys_in d s)))
    unblocked named created =
        elim (insert_outcomes new_row (shown y (keys_in d s))
          (shown-NodupKeys y (keys_in d s) nodup)) [
            | inl (done, _, _) ↦ done
            | inr (inl (_, t)) ↦ absurd (named t)
            | inr (inr (_, t)) ↦ absurd (created t)
          ]

    -- If YDB behaves as documented, and the table has a row once for each hash with every creator a
    -- value of its type: an insertion that succeeds, with a creator within int64, is made by the
    -- store in memory too, given the same key but active and with the time that the column keeps of
    -- its time of creation or, if that is zero, of the clock; and it leaves the rows that this
    -- leaves in memory. One that fails, other than by the driver, has changed nothing; it reports
    -- the name in use and an active row has it, or the creator's active key and an active row has
    -- the creator, which is not 0.
    pub insert-refines :
        ((insert y now k s).0 ≡ ok tt
          → Keys.insert new_row (shown y (keys_in d s))
            ≡ (ok tt, shown y (keys_in d (insert y now k s).1)))
        × ((e : StoreError)
            → IsSentinel e
            → (insert y now k s).0 ≡ err e
            → ((insert y now k s).1 ≡ s)
              × (((e ≡ key_name_in_use) × TakesName new_row (shown y (keys_in d s)))
                  ⊎ ((e ≡ creator_has_active_key) × TakesCreator new_row (shown y (keys_in d s)))))
    unfolding insert scan_api_key key_params
    insert-refines = (
      λ h.
          let (done, committed) = do_tx-ok d (insert_tx y (created_or_now y now k)) s tt h in
          let (named, created, written_to) = insert_tx-ok d (created_or_now y now k) s done in
          unblocked (no-TakesName named) (no-TakesCreator created)
          ∙ ap (λ t. (ok tt, t))
              (sym (
                ap (λ t. shown y t.api_keys) (committed ∙ written_to)
                ∙ shown-insert y k.key_hash (key_params y (created_or_now y now k)) (keys_in d s)
                ∙ ap (λ row. Map.insert k.key_hash row (shown y (keys_in d s))) row_as_stored)),
      λ e sentinel h.
          let (failed, same) = do_tx-err d (insert_tx y (created_or_now y now k)) s e sentinel h in
          (
            same,
            elim (insert_tx-err d (created_or_now y now k) s e sentinel failed) [
              | inl (q, (hash, r)) ↦ inl (q, takes_name y new_row (keys_in d s) hash r)
              | inr (q, owned, (hash, r)) ↦
                  inr (q, as_stored (takes_creator y k (keys_in d s) word hash owned r))
            ],
          ),
    )
