-- ===== src/MemStore/Keys/Order.antt =====
-- The API keys of pkg/store/memstore/memstore.go and the order in which Go ranges over the map.
use s21_identity_service.Base.{
  ◌≡◌, refl, ◌↔◌, ◌⊎◌, inl, inr, true, false, map, List, arith, text_eq, sym, ◌∙◌,
}
use s21_identity_service.Base.Int.{ℤ, int_eq}
use s21_identity_service.Base.Map
use s21_identity_service.Base.Map.{Map, lookup, NodupKeys, lookup-insert}
use s21_identity_service.Base.Exec.{ok, err}
use s21_identity_service.Base.Sort.{sort, IsSorted, sort-perm, sort-IsSorted}
use s21_identity_service.Text.{Text}
use s21_identity_service.Text.Order.{ltb_text_asym}
use s21_identity_service.Store.{Time, ApiKey, StoreError, key_name_in_use, creator_has_active_key}
use s21_identity_service.MemStore.Keys.{insert, revoke_by_name, by_creation, list}
use s21_identity_service.MemStore.Keys.Scan.{TakesName, TakesCreator}
use s21_identity_service.MemStore.Keys.Laws.{
  Rows, IsValid, insert_outcomes, revoke_by_name_outcomes,
}
use mathlib.Core.List.{Perm}

-- The same map, with its entries in any order.
abbrev pub SameRows : Rows → Rows → Type 0
SameRows a b = (h : Text) → lookup h a ≡ lookup h b

-- A revocation of valid rows has the same result and leaves the same rows, whatever the order in
-- which the map is ranged over.
pub revoke_by_name-SameRows :
    (name : Text) (by : ℤ) (time : Time) (a b : Rows)
    → IsValid a
    → NodupKeys b
    → SameRows a b
    → ((revoke_by_name name by time a).0 ≡ (revoke_by_name name by time b).0)
      × SameRows (revoke_by_name name by time a).1 (revoke_by_name name by time b).1
revoke_by_name-SameRows name by time a b v u same =
    elim (revoke_by_name_outcomes name by time a v.nodup) [
      | inl (h, k, l, act, n, o, r, s) ↦ elim (revoke_by_name_outcomes name by time b u) [
        | inl (h', k', l', act', n', o', r', s') ↦
            let p : h ≡ h' = v.one_name h h' k k' l (same h' ∙ l') act act' (n ∙ sym n') in
            let q : k ≡ k' = ground (arith, same h, same h') in
            (r ∙ sym r', λ j. ground (arith, s j, s' j, same j))
        | inr (none_fits, r') ↦ absurd (ground (arith, none_fits h k (sym (same h) ∙ l) act n))
      ]
      | inr (none_fits, r) ↦ elim (revoke_by_name_outcomes name by time b u) [
        | inl (h', k', l', act', n', o', r', s') ↦
            absurd (ground (arith, none_fits h' k' (same h' ∙ l') act' n'))
        | inr (none_fits', r') ↦ rw (r, r') (refl, same)
      ]
    ]

abbrev Blocked : ApiKey → Rows → Type 0
Blocked k rows = TakesName k rows ⊎ TakesCreator k rows

Blocked-SameRows : (k : ApiKey) (a b : Rows) → SameRows a b → Blocked k b → Blocked k a
Blocked-SameRows k a b same (inl t) = inl (record {
  hash = t.hash;
  row = t.row;
  found = same t.hash ∙ t.found;
  active = t.active;
  same = t.same;
})
Blocked-SameRows k a b same (inr t) = inr (record {
  hash = t.hash;
  row = t.row;
  found = same t.hash ∙ t.found;
  active = t.active;
  owned = t.owned;
  same = t.same;
})

-- `insert_outcomes` with the two errors taken together.
insert_verdict :
    (k : ApiKey) (rows : Rows)
    → NodupKeys rows
    → ((insert k rows ≡ (ok tt, Map.insert k.key_hash k rows)) × (¬ Blocked k rows))
      ⊎ ((e : StoreError) × (insert k rows ≡ (err e, rows)) × Blocked k rows)
insert_verdict k rows u = elim (insert_outcomes k rows u) [
  | inl (r, n, c) ↦ inl (r, λ t. elim t [ inl x ↦ n x | inr y ↦ c y ])
  | inr (inl (r, t)) ↦ inr (key_name_in_use, r, inl t)
  | inr (inr (r, t)) ↦ inr (creator_has_active_key, r, inr t)
]

-- For rows with distinct hashes, whether an insertion succeeds, and what it leaves, does not depend
-- on the order in which the map is ranged over.
pub insert-SameRows :
    (k : ApiKey) (a b : Rows)
    → NodupKeys a
    → NodupKeys b
    → SameRows a b
    → (((insert k a).0 ≡ ok tt) ↔ ((insert k b).0 ≡ ok tt)) × SameRows (insert k a).1 (insert k b).1
insert-SameRows k a b u u' same = elim (insert_verdict k a u) [
  | inl (r, clear) ↦ elim (insert_verdict k b u') [
    | inl (r', clear') ↦
        rw (r, r')
          (
            (λ _. refl, λ _. refl),
            λ h.
                ground
                  (arith, lookup-insert k.key_hash h k a, lookup-insert k.key_hash h k b, same h),
          )
    | inr (e', r', t) ↦ absurd (clear (Blocked-SameRows k a b same t))
  ]
  | inr (e, r, t) ↦ elim (insert_verdict k b u') [
    | inl (r', clear') ↦ absurd (clear' (Blocked-SameRows k b a (λ h. sym (same h)) t))
    | inr (e', r', t') ↦ rw (r, r') ((λ q. absurd (cc), λ q. absurd (cc)), same)
  ]
]

by_creation_asym : (x y : ApiKey) → by_creation x y ≡ true → by_creation y x ≡ false
by_creation_asym x y h = ground (arith, ltb_text_asym x.name y.name)

-- A listing holds every row, active or revoked, as often as it is stored; no row comes before one
-- created earlier, nor before one created at the same time under a smaller name.
pub list_ordered :
    (rows : Rows)
    → (keys : List ApiKey) × (list rows ≡ (ok keys, rows))
      × Perm keys (map (λ (_, k). k) rows)
      × IsSorted by_creation keys
unfolding list
list_ordered rows = (
  sort by_creation (map (λ (_, k). k) rows),
  refl,
  sort-perm by_creation _,
  sort-IsSorted by_creation by_creation_asym _,
)
