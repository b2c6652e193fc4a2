-- ===== src/YdbStore/Keys/Shown.antt =====
-- The table api_keys as the rows that `scanAPIKey` of pkg/store/ydbstore/ydbstore.go reads from it.
use s21_identity_service.Base.{
  ℕ, ◌^◌, ◌<◌, ◌≡◌, ◌≢◌, refl, sym, ◌∙◌, ap, inl, inr, true, Option, none, some, some_inj, [], ◌∷◌,
  arith, text_eq, Option-cases, Bool-cases, ◌==◌,
}
use mathlib.Core.Option
use s21_identity_service.Base.Int.{ℤ, pos, int_eq, IsInt64}
use s21_identity_service.Base.Map
use s21_identity_service.Base.Map.{Map, lookup, NodupKeys}
use s21_identity_service.Text.{Text}
use s21_identity_service.Store.{ApiKey, is_active}
use s21_identity_service.MemStore.Keys.Scan.{TakesName, TakesCreator}
use s21_identity_service.YdbStore.Columns.{
  KeyRow, uint64_of, int64_of-uint64_of, uint64_of-int64_of,
}
use s21_identity_service.YdbStore.Service.{Ydb, ActiveRow}
use s21_identity_service.YdbStore.Keys.{scan_api_key, key_params, creator_of, creator_param}

-- Every creator is a value of type Uint64.
abbrev pub IsTyped : Map Text KeyRow → Type 0
IsTyped keys =
    (h : Text) (k : KeyRow) (n : ℕ)
    → lookup h keys ≡ some k
    → k.created_by_telegram_id ≡ some n
    → n < 2 ^ 64

pub creator_of-creator_param : (by : ℤ) → IsInt64 by → creator_of (creator_param by) ≡ by
unfolding creator_of creator_param
creator_of-creator_param by h = elim (Bool-cases (by == pos 0)) [
  | inl e ↦ ground arith
  | inr e ↦ rw (e, creator_of) (int64_of-uint64_of by h)
]

module _ (y : Ydb) where
  abbrev pub shown : Map Text KeyRow → Map Text ApiKey
  shown [] = []
  shown ((h, k) ∷ keys) = (h, scan_api_key y k) ∷ shown keys

  -- A row that is inserted, as it is read back.
  abbrev pub stored : ApiKey → ApiKey
  stored k = scan_api_key y (key_params y k)

  lookup-shown :
      (h : Text) (keys : Map Text KeyRow)
      → lookup h (shown keys) ≡ Option.map (scan_api_key y) (lookup h keys)
  unfolding lookup
  lookup-shown h [] = refl
  lookup-shown h ((j, k) ∷ keys) = ground (arith, lookup-shown h keys)

  pub shown-insert :
      (h : Text) (k : KeyRow) (keys : Map Text KeyRow)
      → shown (Map.insert h k keys) ≡ Map.insert h (scan_api_key y k) (shown keys)
  unfolding Map.insert
  shown-insert h k [] = refl
  shown-insert h k ((j, x) ∷ keys) = ground (arith, shown-insert h k keys)

  pub shown_found :
      (h : Text) (k : KeyRow) (keys : Map Text KeyRow)
      → lookup h keys ≡ some k
      → lookup h (shown keys) ≡ some (scan_api_key y k)
  shown_found h k keys l = lookup-shown h keys ∙ rw l refl

  pub row_of :
      (h : Text) (x : ApiKey) (keys : Map Text KeyRow)
      → lookup h (shown keys) ≡ some x
      → (k : KeyRow) × (lookup h keys ≡ some k) × (scan_api_key y k ≡ x)
  row_of h x keys l = elim (Option-cases (lookup h keys)) [
    | inl e ↦ absurd (ground (arith, lookup-shown h keys))
    | inr (k, e) ↦ (k, e, some_inj (sym (shown_found h k keys e) ∙ l))
  ]

  pub shown-NodupKeys : (keys : Map Text KeyRow) → NodupKeys keys → NodupKeys (shown keys)
  shown-NodupKeys [] u = tt
  shown-NodupKeys ((h, k) ∷ keys) (fresh, u) =
      (lookup-shown h keys ∙ rw fresh refl, shown-NodupKeys keys u)

  pub active_scan : (k : KeyRow) → k.revoked_at ≡ none → is_active (scan_api_key y k) ≡ true
  unfolding scan_api_key
  active_scan k e = rw e refl

  pub active_row : (k : KeyRow) → is_active (scan_api_key y k) ≡ true → k.revoked_at ≡ none
  unfolding scan_api_key
  active_row k e = elim (Option-cases k.revoked_at) [
    | inl q ↦ q
    | inr (t, q) ↦ absurd (ground arith)
  ]

  pub name_scan : (k : KeyRow) → (scan_api_key y k).name ≡ k.name
  unfolding scan_api_key
  name_scan k = refl

  pub creator_scan :
      (k : KeyRow) → (scan_api_key y k).created_by_telegram_id ≡ creator_of k.created_by_telegram_id
  unfolding scan_api_key
  creator_scan k = refl

  module _ (k : ApiKey) (keys : Map Text KeyRow) where
    pub takes_name : (h : Text) → ActiveRow (λ r. r.name ≡ k.name) keys h → TakesName k (shown keys)
    takes_name h r = record {
      hash = h;
      row = scan_api_key y r.row;
      found = shown_found h r.row keys r.found;
      active = active_scan r.row r.active;
      same = unfold scan_api_key in r.fits;
    }

    pub name_taken : (t : TakesName k (shown keys)) → ActiveRow (λ r. r.name ≡ k.name) keys t.hash
    name_taken t =
        let (r, l, e) = row_of t.hash t.row keys t.found in
        record {
          row = r;
          found = l;
          active = active_row r (rw e t.active);
          fits = sym (name_scan r) ∙ ap (λ x. x.name) e ∙ t.same;
        }

    module _ (word : IsInt64 k.created_by_telegram_id) where
      abbrev pub ByCreator : KeyRow → Type 0
      ByCreator r = r.created_by_telegram_id ≡ some (uint64_of k.created_by_telegram_id)

      pub takes_creator :
          (h : Text)
          → k.created_by_telegram_id ≢ pos 0
          → ActiveRow ByCreator keys h
          → TakesCreator k (shown keys)
      takes_creator h owned r = record {
        hash = h;
        row = scan_api_key y r.row;
        found = shown_found h r.row keys r.found;
        active = active_scan r.row r.active;
        owned = owned;
        same =
            unfold scan_api_key creator_of in
            rw (r.fits, creator_of) (int64_of-uint64_of k.created_by_telegram_id word);
      }

      creator_word :
          (c : Option ℕ) (by : ℤ)
          → by ≢ pos 0
          → ((n : ℕ) → c ≡ some n → n < 2 ^ 64)
          → creator_of c ≡ by
          → c ≡ some (uint64_of by)
      unfolding creator_of
      creator_word none by o small e = absurd (o (sym e))
      creator_word (some n) by o small e =
          ap some (sym (uint64_of-int64_of n (small n refl)) ∙ ap uint64_of e)

      pub creator_taken :
          IsTyped keys → (t : TakesCreator k (shown keys)) → ActiveRow ByCreator keys t.hash
      creator_taken typed t =
          let (r, l, e) = row_of t.hash t.row keys t.found in
          record {
            row = r;
            found = l;
            active = active_row r (rw e t.active);
            fits =
                creator_word r.created_by_telegram_id k.created_by_telegram_id t.owned
                  (λ n c. typed t.hash r n l c)
                  (sym (creator_scan r) ∙ ap (λ x. x.created_by_telegram_id) e ∙ t.same);
          }
