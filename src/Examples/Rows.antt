-- ===== src/Examples/Rows.antt =====
-- The theorems on the store in memory, applied.
use s21_identity_service.Base.{
  ◌↔◌, ◌≡◌, ◌≢◌, refl, ◌⊎◌, inl, inr, ◌==◌, ==_iff, Bool-cases, if◌then◌else◌, none, some, true, [],
  ◌∷◌, text_eq,
}
use s21_identity_service.Base.Int.{ℤ, pos, int_eq}
use s21_identity_service.Base.Map
use s21_identity_service.Base.Map.{Map, lookup, NodupKeys}
use s21_identity_service.Base.Exec.{ok, err}
use s21_identity_service.Text.{Text, codes}
use s21_identity_service.Text.Case.{ascii}
use s21_identity_service.Store.{
  User, ApiKey, is_active, not_found, key_name_in_use, creator_has_active_key,
}
use s21_identity_service.MemStore.Invariant.{empty-IsSound}
use s21_identity_service.MemStore.Keys.{insert, revoke_by_name}
use s21_identity_service.MemStore.Keys.Scan.{TakesName, TakesCreator}
use s21_identity_service.MemStore.Keys.Laws.{
  IsValid, insert-IsValid, insert_outcomes, revoke_by_name_outcomes,
}
use s21_identity_service.MemStore.Keys.Order.{SameRows, revoke_by_name-SameRows, insert-SameRows}
use s21_identity_service.Examples.{root, rows}

abbrev bot : ApiKey
bot = record {
  key_hash = codes "k2";
  name = codes "bot";
  scopes = codes "read";
  created_at = 2;
  revoked_at = none;
  created_by_telegram_id = pos 7;
}

abbrev rows' : Map Text ApiKey
rows' = (codes "k1", root) ∷ (codes "k2", bot) ∷ []

abbrev swapped : Map Text ApiKey
swapped = (codes "k2", bot) ∷ (codes "k1", root) ∷ []

root-IsValid : IsValid (insert root []).1
root-IsValid = insert-IsValid root [] ((empty-IsSound ascii).api_keys)

rows-IsValid : IsValid rows'
unfolding insert Map.insert text_eq int_eq
rows-IsValid = insert-IsValid bot rows root-IsValid

insert_outcomes_example :
    ((insert bot rows ≡ (ok tt, Map.insert (codes "k2") bot rows))
      × (¬ TakesName bot rows)
      × (¬ TakesCreator bot rows))
    ⊎ ((insert bot rows ≡ (err key_name_in_use, rows)) × TakesName bot rows)
    ⊎ ((insert bot rows ≡ (err creator_has_active_key, rows)) × TakesCreator bot rows)
unfolding lookup
insert_outcomes_example = insert_outcomes bot rows (refl, tt)

nodup : NodupKeys rows'
unfolding lookup text_eq
nodup = (refl, (refl, tt))

revoke_by_name_outcomes_example :
    ((h : Text) × (k : ApiKey) × (lookup h rows' ≡ some k)
      × (is_active k ≡ true)
      × (k.name ≡ codes "bot")
      × (pos 7 ≢ pos 0 → k.created_by_telegram_id ≡ pos 7)
      × ((revoke_by_name (codes "bot") (pos 7) 5 rows').0 ≡ ok tt)
      × ((j : Text)
          → lookup j (revoke_by_name (codes "bot") (pos 7) 5 rows').1
            ≡ (if h == j then some (record k { revoked_at = some 5 }) else lookup j rows')))
    ⊎ (((h : Text) (k : ApiKey)
          → lookup h rows' ≡ some k
          → is_active k ≡ true
          → k.name ≡ codes "bot"
          → (pos 7 ≢ pos 0) × (k.created_by_telegram_id ≢ pos 7))
        × (revoke_by_name (codes "bot") (pos 7) 5 rows' ≡ (err not_found, rows')))
revoke_by_name_outcomes_example = revoke_by_name_outcomes (codes "bot") (pos 7) 5 rows' nodup

nodup_swapped : NodupKeys swapped
unfolding lookup text_eq
nodup_swapped = (refl, (refl, tt))

same_rows : SameRows rows' swapped
unfolding lookup text_eq
same_rows h = elim (Bool-cases (codes "k1" == h)) [
  | inl e ↦ rw (← ((==_iff (codes "k1") h).0 e)) refl
  | inr e ↦ rw e refl
]

revoke_by_name-SameRows_example :
    ((revoke_by_name (codes "bot") (pos 7) 5 rows').0
      ≡ (revoke_by_name (codes "bot") (pos 7) 5 swapped).0)
    × SameRows
        (revoke_by_name (codes "bot") (pos 7) 5 rows').1
        (revoke_by_name (codes "bot") (pos 7) 5 swapped).1
revoke_by_name-SameRows_example =
    revoke_by_name-SameRows (codes "bot") (pos 7) 5 rows' swapped rows-IsValid nodup_swapped
      same_rows

abbrev evan : User
evan = record {
  telegram_id = pos 7;
  nickname = codes "evan";
  campus_id = codes "c1";
  campus_name = codes "Kazan";
  coalition_name = codes "Alpha";
  created_at = 5;
  updated_at = 5;
}

abbrev users : Map ℤ User
users = (pos 7, record evan { created_at = 1 }) ∷ []

insert-SameRows_example :
    (((insert root rows').0 ≡ ok tt) ↔ ((insert root swapped).0 ≡ ok tt))
    × SameRows (insert root rows').1 (insert root swapped).1
insert-SameRows_example = insert-SameRows root rows' swapped nodup nodup_swapped same_rows
