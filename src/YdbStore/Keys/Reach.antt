-- ===== src/YdbStore/Keys/Reach.antt =====
-- The table api_keys over any sequence of the writes of pkg/store/ydbstore/ydbstore.go.
use s21_identity_service.Base.{
  ℕ, ◌^◌, ◌<◌, ◌≡◌, ◌≢◌, sym, ◌∙◌, ap, inl, inr, some, some_inj, arith, text_eq, ◌==◌, Bool-cases,
}
use s21_identity_service.Base.Int.{ℤ, pos, negsuc, int_eq, IsInt64}
use s21_identity_service.Base.Map
use s21_identity_service.Base.Map.{Map, lookup, NodupKeys, lookup-insert, insert-NodupKeys}
use s21_identity_service.Base.Exec.{Outcome, err, Outcome-cases}
use s21_identity_service.Text.{Text}
use s21_identity_service.Store.{Time, ApiKey, StoreError, failure}
use s21_identity_service.MemStore.Keys.Laws.{Rows, IsValid, insert-IsValid, revoke_by_name-IsValid}
use s21_identity_service.MemStore.Keys.Order.{SameRows}
use s21_identity_service.YdbStore.Columns.{KeyRow, uint64_of}
use s21_identity_service.YdbStore.Service.{Ydb, IsYdb}
use s21_identity_service.YdbStore.Session.Laws.{do_tx-ok}
use s21_identity_service.YdbStore.Keys.{
  key_params, creator_param, insert, revoke_by_name, revoke_tx, created_or_now,
}
use s21_identity_service.YdbStore.Keys.Shown.{IsTyped, shown, shown-NodupKeys}
use s21_identity_service.YdbStore.Keys.Insert.{keys_in}
use s21_identity_service.YdbStore.Keys.Insert.Refines.{new_row, insert-refines}
use s21_identity_service.YdbStore.Keys.Revoke.{revoke_tx-ok, revoked}
use s21_identity_service.YdbStore.Keys.Revoke.Refines.{revoke_by_name-refines}
use s21_identity_service.YdbStore.Keys.Stored.{keys_in-insert}

uint64_of-lt : (z : ℤ) → uint64_of z < 2 ^ 64
unfolding uint64_of
uint64_of-lt (pos n) = omega arith
uint64_of-lt (negsuc n) = omega arith

IsValid-SameRows : (a b : Rows) → SameRows a b → NodupKeys b → IsValid a → IsValid b
IsValid-SameRows a b same u v = record {
  nodup = u;
  keyed = λ h k l. v.keyed h k (same h ∙ l);
  one_name = λ h h' k k' l l'. v.one_name h h' k k' (same h ∙ l) (same h' ∙ l');
  one_key = λ h h' k k' l l'. v.one_key h h' k k' (same h ∙ l) (same h' ∙ l');
}

module _ {y : Ydb} (d : IsYdb y) where
  -- The table has each row once, under its own hash and with a creator that is a value of its type
  -- or none, and no two active rows show one name, or one creator that is set.
  pub record IsValidTable (s : y.State) : Type 0 where
    pub nodup : NodupKeys (keys_in d s)
    pub typed : IsTyped (keys_in d s)
    pub valid : IsValid (shown y (keys_in d s))

  -- The call returns, or ends with an error of the code itself.
  abbrev pub Answered : {A : Type 0} → Outcome StoreError A → Type 0
  Answered r = (message : Text) → r ≢ err (failure message)

  -- One write that the driver lets through.
  pub data Step (s : y.State) : y.State → Type 0 where
    insertion :
        (now : Time) (k : ApiKey)
        → IsInt64 k.created_by_telegram_id
        → Answered (insert y now k s).0
        → Step s (insert y now k s).1
    revocation :
        (name : Text) (by : ℤ) (at : Time)
        → Answered (revoke_by_name y name by at s).0
        → Step s (revoke_by_name y name by at s).1

  pub data Reach (s : y.State) : y.State → Type 0 where
    here : Reach s s
    next : {t u : y.State} → Reach s t → Step t u → Reach s u

  IsTyped-insert :
      (h : Text) (k : KeyRow) (keys : Map Text KeyRow)
      → IsTyped keys
      → ((n : ℕ) → k.created_by_telegram_id ≡ some n → n < 2 ^ 64)
      → IsTyped (Map.insert h k keys)
  IsTyped-insert h k keys typed small j x n l c =
      let front = lookup-insert h j k keys in
      elim (Bool-cases (h == j)) [
        | inl e ↦
            let found : lookup j (Map.insert h k keys) ≡ some k = rw e at front in
            small n (ap (λ z. z.created_by_telegram_id) (some_inj (sym found ∙ l)) ∙ c)
        | inr e ↦
            let found : lookup j (Map.insert h k keys) ≡ lookup j keys = rw e at front in
            typed j x n (sym found ∙ l) c
      ]

  params_small :
      (k : ApiKey) (n : ℕ) → (key_params y k).created_by_telegram_id ≡ some n → n < 2 ^ 64
  unfolding key_params creator_param
  params_small k n e = ground (arith, uint64_of-lt k.created_by_telegram_id)

  insert-IsValidTable :
      (now : Time) (k : ApiKey) (s : y.State)
      → IsInt64 k.created_by_telegram_id
      → Answered (insert y now k s).0
      → IsValidTable s
      → IsValidTable (insert y now k s).1
  insert-IsValidTable now k s word answered v =
      let (made, refused) = insert-refines d now k s v.nodup v.typed word in
      elim (Outcome-cases (insert y now k s).0) [
        | inl (_, h) ↦
            let row = key_params y (created_or_now y now k) in
            let after = keys_in-insert d now k s h in
            record {
              nodup = rw (after, keys_in) (insert-NodupKeys k.key_hash row (keys_in d s) v.nodup);
              typed =
                  rw (after, keys_in)
                    (IsTyped-insert k.key_hash row (keys_in d s) v.typed
                      (params_small (created_or_now y now k)));
              valid = rw (made h) at (
                  insert-IsValid (new_row d now k s v.nodup v.typed word) (shown y (keys_in d s))
                    v.valid);
            }
        | inr (e, h) ↦ rw ((refused e (λ m q. answered m (h ∙ ap err q)) h).0) v
      ]

  revoke_by_name-IsValidTable :
      (name : Text) (by : ℤ) (at : Time) (s : y.State)
      → Answered (revoke_by_name y name by at s).0
      → IsValidTable s
      → IsValidTable (revoke_by_name y name by at s).1
  unfolding revoke_by_name
  revoke_by_name-IsValidTable name by at s answered v =
      let (made, refused) = revoke_by_name-refines d name by at s v.valid in
      elim (Outcome-cases (revoke_by_name y name by at s).0) [
        | inr (e, h) ↦ rw ((refused e (λ m q. answered m (h ∙ ap err q)) h).0) v
        | inl (_, h) ↦
            let (done, committed) = do_tx-ok d (revoke_tx y name by at) s tt h in
            let m = revoke_tx-ok d name by at s done in
            let row = revoked d name by at s m.at_hash.row in
            let after : keys_in d (revoke_by_name y name by at s).1
                ≡ Map.insert m.hash row (keys_in d s) =
              ap (λ t. t.api_keys) committed ∙ m.after in
            let nodup : NodupKeys (keys_in d (revoke_by_name y name by at s).1) =
              rw (after, keys_in) (insert-NodupKeys m.hash row (keys_in d s) v.nodup) in
            record {
              nodup = nodup;
              typed =
                  rw (after, keys_in)
                    (IsTyped-insert m.hash row (keys_in d s) v.typed
                      (λ n c. v.typed m.hash m.at_hash.row n m.at_hash.found c));
              valid =
                  IsValid-SameRows _ _ (λ j. sym ((made h).1 j)) (shown-NodupKeys y _ nodup)
                    (revoke_by_name-IsValid name by (y.time (y.timestamp at))
                      (shown y (keys_in d s)) v.valid);
            }
      ]

  Step-IsValidTable : {s t : y.State} → IsValidTable s → Step s t → IsValidTable t
  Step-IsValidTable {s} v (insertion now k word answered) =
      insert-IsValidTable now k s word answered v
  Step-IsValidTable {s} v (revocation name by at answered) =
      revoke_by_name-IsValidTable name by at s answered v

  -- If YDB behaves as documented, and the table has each row once, under its own hash and with a
  -- creator that is a value of its type or none, and no two active rows show one name, or one
  -- creator that is set: all this holds after any number of insertions, with creators within int64,
  -- and revocations, whether they succeed or fail, as long as none fails by the driver.
  pub Reach-IsValidTable : {s t : y.State} → IsValidTable s → Reach s t → IsValidTable t
  Reach-IsValidTable v here = v
  Reach-IsValidTable v (next r w) = Step-IsValidTable (Reach-IsValidTable v r) w
