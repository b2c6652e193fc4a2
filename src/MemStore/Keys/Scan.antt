-- ===== src/MemStore/Keys/Scan.antt =====
-- What the loops of pkg/store/memstore/memstore.go over the API keys find, in terms of the rows.
use s21_identity_service.Base.{
  ◌≡◌, ◌≢◌, ◌⊎◌, Bool, true, false, not, ◌&&◌, none, some, [], ◌∷◌, arith, text_eq, Bool-cases, inl,
  inr, ◌==◌,
}
use s21_identity_service.Base.Int.{ℤ, pos, int_eq}
use s21_identity_service.Base.Map.{Map, lookup, NodupKeys}
use s21_identity_service.Text.{Text}
use s21_identity_service.Store.{
  ApiKey, is_active, StoreError, key_name_in_use, creator_has_active_key,
}
use s21_identity_service.MemStore.Keys.{conflict, is_revocable, revocable}

-- An active row that uses the name of `k`, or one of the same creator.
pub record TakesName (k : ApiKey) (rows : Map Text ApiKey) : Type 0 where
  pub hash : Text
  pub row : ApiKey
  pub found : lookup hash rows ≡ some row
  pub active : is_active row ≡ true
  pub same : row.name ≡ k.name

pub record TakesCreator (k : ApiKey) (rows : Map Text ApiKey) : Type 0 where
  pub hash : Text
  pub row : ApiKey
  pub found : lookup hash rows ≡ some row
  pub active : is_active row ≡ true
  pub owned : k.created_by_telegram_id ≢ pos 0
  pub same : row.created_by_telegram_id ≡ k.created_by_telegram_id

module _ (k : ApiKey) where
  pub conflict-none :
      (rows : Map Text ApiKey) (h : Text) (e : ApiKey)
      → conflict k rows ≡ none
      → lookup h rows ≡ some e
      → is_active e ≡ true
      → (e.name ≢ k.name)
        × (k.created_by_telegram_id ≢ pos 0 → e.created_by_telegram_id ≢ k.created_by_telegram_id)
  unfolding conflict lookup
  conflict-none [] h e c l a = absurd (ground arith)
  conflict-none ((j, existing) ∷ rest) h e c l a = ground (arith, conflict-none rest h e)

  -- A row of the tail is a row of the whole map.
  lookup-tail :
      (j h : Text) (e v : ApiKey) (rest : Map Text ApiKey)
      → lookup j rest ≡ none
      → lookup h rest ≡ some e
      → lookup h ((j, v) ∷ rest) ≡ some e
  unfolding lookup
  lookup-tail j h e v rest fresh l = ground arith

  pub conflict-name :
      (rows : Map Text ApiKey)
      → NodupKeys rows
      → conflict k rows ≡ some key_name_in_use
      → TakesName k rows
  unfolding conflict
  conflict-name [] u c = absurd (ground arith)
  conflict-name ((j, existing) ∷ rest) (fresh, u) c = elim (Bool-cases (is_active existing)) [
    | inr gone ↦ weaken (conflict-name rest u (ground arith))
    | inl live ↦ elim (Bool-cases (existing.name == k.name)) [
      | inl p ↦ record {
        hash = j;
        row = existing;
        found = head;
        active = live;
        same = ground arith;
      }
      | inr q ↦ weaken (conflict-name rest u (ground arith))
    ]
  ]
    where
      head : lookup j ((j, existing) ∷ rest) ≡ some existing
      head = unfold lookup in ground arith

      weaken : TakesName k rest → TakesName k ((j, existing) ∷ rest)
      weaken t = record {
        hash = t.hash;
        row = t.row;
        found = lookup-tail j t.hash t.row existing rest fresh t.found;
        active = t.active;
        same = t.same;
      }

  pub conflict_kinds :
      (rows : Map Text ApiKey) (e : StoreError)
      → conflict k rows ≡ some e
      → (e ≡ key_name_in_use) ⊎ (e ≡ creator_has_active_key)
  unfolding conflict
  conflict_kinds [] e c = absurd (ground arith)
  conflict_kinds ((j, existing) ∷ rest) e c = ground (arith, conflict_kinds rest e)

  pub conflict-creator :
      (rows : Map Text ApiKey)
      → NodupKeys rows
      → conflict k rows ≡ some creator_has_active_key
      → TakesCreator k rows
  unfolding conflict
  conflict-creator [] u c = absurd (ground arith)
  conflict-creator ((j, existing) ∷ rest) (fresh, u) c = elim (Bool-cases (is_active existing)) [
    | inr gone ↦ weaken (conflict-creator rest u (ground arith))
    | inl live ↦ elim (Bool-cases (blocks existing)) [
      | inl p ↦ record {
        hash = j;
        row = existing;
        found = head;
        active = live;
        owned = ground arith;
        same = ground arith;
      }
      | inr q ↦ weaken (conflict-creator rest u (ground arith))
    ]
  ]
    where
      head : lookup j ((j, existing) ∷ rest) ≡ some existing
      head = unfold lookup in ground arith

      weaken : TakesCreator k rest → TakesCreator k ((j, existing) ∷ rest)
      weaken t = record {
        hash = t.hash;
        row = t.row;
        found = lookup-tail j t.hash t.row existing rest fresh t.found;
        active = t.active;
        owned = t.owned;
        same = t.same;
      }

      blocks : ApiKey → Bool
      blocks e =
          not (k.created_by_telegram_id == pos 0)
          && e.created_by_telegram_id == k.created_by_telegram_id

module _ (name : Text) (by : ℤ) where
  pub revocable-none :
      (rows : Map Text ApiKey) (h : Text) (e : ApiKey)
      → revocable name by rows ≡ none
      → lookup h rows ≡ some e
      → is_revocable name by e ≡ false
  unfolding revocable lookup
  revocable-none [] h e c l = absurd (ground arith)
  revocable-none ((j, existing) ∷ rest) h e c l = ground (arith, revocable-none rest h e)

  pub revocable-some :
      (rows : Map Text ApiKey) (h : Text) (e : ApiKey)
      → NodupKeys rows
      → revocable name by rows ≡ some (h, e)
      → (lookup h rows ≡ some e) × (is_revocable name by e ≡ true)
  unfolding revocable lookup
  revocable-some [] h e u c = absurd (ground arith)
  revocable-some ((j, existing) ∷ rest) h e (fresh, u) c = ground (arith, revocable-some rest h e)
