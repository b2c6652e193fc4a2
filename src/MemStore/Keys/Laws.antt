-- ===== src/MemStore/Keys/Laws.antt =====
-- What the operations of pkg/store/memstore/memstore.go on API keys do to the rows.
use s21_identity_service.Base.{
  ◌≡◌, ◌≢◌, ◌⊎◌, true, some, arith, text_eq, inl, inr, ◌==◌, if◌then◌else◌, Option-cases,
}
use s21_identity_service.Base.Int.{ℤ, pos, int_eq}
use s21_identity_service.Base.Map.{Map, lookup, NodupKeys, lookup-insert, insert-NodupKeys}
use s21_identity_service.Base.Map
use s21_identity_service.Base.Exec.{ok, err}
use s21_identity_service.Text.{Text}
use s21_identity_service.Store.{
  Time, ApiKey, is_active, not_found, key_name_in_use, creator_has_active_key,
}
use s21_identity_service.MemStore.Keys.{conflict, insert, revocable, revoke_by_name}
use s21_identity_service.MemStore.Keys.Scan.{
  TakesName, TakesCreator, conflict-none, conflict-name, conflict-creator, conflict_kinds,
  revocable-none, revocable-some,
}

abbrev pub Rows : Type 0
Rows = Map Text ApiKey

-- Every row stands under its own hash, and no two active rows share a name, or a creator that is set.
pub record IsValid (rows : Rows) : Type 0 where
  pub nodup : NodupKeys rows
  pub keyed : (h : Text) (k : ApiKey) → lookup h rows ≡ some k → k.key_hash ≡ h
  pub one_name :
      (h h' : Text) (k k' : ApiKey)
      → lookup h rows ≡ some k
      → lookup h' rows ≡ some k'
      → is_active k ≡ true
      → is_active k' ≡ true
      → k.name ≡ k'.name
      → h ≡ h'
  pub one_key :
      (h h' : Text) (k k' : ApiKey)
      → lookup h rows ≡ some k
      → lookup h' rows ≡ some k'
      → is_active k ≡ true
      → is_active k' ≡ true
      → k.created_by_telegram_id ≢ pos 0
      → k.created_by_telegram_id ≡ k'.created_by_telegram_id
      → h ≡ h'

module _ (k : ApiKey) (rows : Rows) where
  -- Whatever the row, an insertion into valid rows leaves valid rows: each under its own hash, and
  -- no two active ones with one name or with one creator that is set.
  pub insert-IsValid : IsValid rows → IsValid (insert k rows).1
  unfolding insert
  insert-IsValid v = elim (Option-cases (conflict k rows)) [
    | inr (e, c) ↦ rw (c, insert) v
    | inl c ↦
        rw (c, insert)
          (record {
            nodup = insert-NodupKeys k.key_hash k rows v.nodup;
            keyed = λ h e l. ground (arith, lookup-insert k.key_hash h k rows, v.keyed h e);
            one_name = λ h h' e e' l l' a a' p. ground (
              arith,
              lookup-insert k.key_hash h k rows,
              lookup-insert k.key_hash h' k rows,
              conflict-none k rows h e c,
              conflict-none k rows h' e' c,
              v.one_name h h' e e',
            );
            one_key = λ h h' e e' l l' a a' o p. ground (
              arith,
              lookup-insert k.key_hash h k rows,
              lookup-insert k.key_hash h' k rows,
              conflict-none k rows h e c,
              conflict-none k rows h' e' c,
              v.one_key h h' e e',
            );
          })
  ]

  -- On rows with distinct hashes an insertion ends in one of three ways: it writes the row, and no
  -- active row has its name or its creator that is set; or it reports the name in use, an active
  -- row has it, and nothing changes; or it reports the creator's active key, an active row has the
  -- creator, which is not 0, and nothing changes.
  pub insert_outcomes :
      NodupKeys rows
      → ((insert k rows ≡ (ok tt, Map.insert k.key_hash k rows))
          × (¬ TakesName k rows)
          × (¬ TakesCreator k rows))
        ⊎ ((insert k rows ≡ (err key_name_in_use, rows)) × TakesName k rows)
        ⊎ ((insert k rows ≡ (err creator_has_active_key, rows)) × TakesCreator k rows)
  unfolding insert
  insert_outcomes u = elim (Option-cases (conflict k rows)) [
    | inl c ↦ inl (
      rw (c, insert),
      λ t. (conflict-none k rows t.hash t.row c t.found t.active).0 t.same,
      λ t. (conflict-none k rows t.hash t.row c t.found t.active).1 t.owned t.same,
    )
    | inr (e, c) ↦ elim (conflict_kinds k rows e c) [
      | inl p ↦
          let c' : conflict k rows ≡ some key_name_in_use = rw (← p) c in
          inr (inl (rw (c', insert), conflict-name k rows u c'))
      | inr p ↦
          let c' : conflict k rows ≡ some creator_has_active_key = rw (← p) c in
          inr (inr (rw (c', insert), conflict-creator k rows u c'))
    ]
  ]

module _ (name : Text) (by : ℤ) (time : Time) (rows : Rows) where
  -- A revocation of valid rows leaves valid rows.
  pub revoke_by_name-IsValid : IsValid rows → IsValid (revoke_by_name name by time rows).1
  unfolding revoke_by_name
  revoke_by_name-IsValid v = elim (Option-cases (revocable name by rows)) [
    | inl c ↦ rw (c, revoke_by_name) v
    | inr ((j, r), c) ↦
        let (l, t) = revocable-some name by rows j r v.nodup c in
        let r' : ApiKey = record r { revoked_at = some time } in
        rw (c, revoke_by_name)
          (record {
            nodup = insert-NodupKeys j r' rows v.nodup;
            keyed = λ h e q. ground (arith, lookup-insert j h r' rows, v.keyed h e, v.keyed j r);
            one_name = λ h h' e e' q q' a a' p. ground (
              arith,
              lookup-insert j h r' rows,
              lookup-insert j h' r' rows,
              v.one_name h h' e e',
            );
            one_key = λ h h' e e' q q' a a' o p.
                ground (
                  arith,
                  lookup-insert j h r' rows,
                  lookup-insert j h' r' rows,
                  v.one_key h h' e e',
                );
          })
  ]

  -- On rows with distinct hashes a revocation ends in one of two ways. If some active row has the
  -- name and, where `by` is not 0, the owner, one such row is marked and no other row changes; if
  -- there is none, the result is `not_found` and nothing changes.
  pub revoke_by_name_outcomes :
      NodupKeys rows
      → ((h : Text) × (k : ApiKey) × (lookup h rows ≡ some k)
          × (is_active k ≡ true)
          × (k.name ≡ name)
          × (by ≢ pos 0 → k.created_by_telegram_id ≡ by)
          × ((revoke_by_name name by time rows).0 ≡ ok tt)
          × ((j : Text)
              → lookup j (revoke_by_name name by time rows).1
                ≡ (if h == j then some (record k { revoked_at = some time }) else lookup j rows)))
        ⊎ (((h : Text) (k : ApiKey)
              → lookup h rows ≡ some k
              → is_active k ≡ true
              → k.name ≡ name
              → (by ≢ pos 0) × (k.created_by_telegram_id ≢ by))
            × (revoke_by_name name by time rows ≡ (err not_found, rows)))
  unfolding revoke_by_name
  revoke_by_name_outcomes u = elim (Option-cases (revocable name by rows)) [
    | inl c ↦
        inr
          (λ h k l a n. ground (arith, revocable-none name by rows h k c l), rw (c, revoke_by_name))
    | inr ((h, k), c) ↦
        let (l, t) = revocable-some name by rows h k u c in
        inl (
          h,
          k,
          l,
          ground arith,
          ground arith,
          λ o. ground arith,
          rw (c, revoke_by_name),
          λ j.
              rw (c, revoke_by_name) (lookup-insert h j (record k { revoked_at = some time }) rows),
        )
  ]
