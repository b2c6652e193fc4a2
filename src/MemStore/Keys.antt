-- ===== src/MemStore/Keys.antt =====
-- `apiKeyRepo` of pkg/store/memstore/memstore.go.
pub mod Scan
pub mod Laws
pub mod Order
use s21_identity_service.Base.{
  ℕ, suc, Bool, true, false, not, ◌&&◌, ◌||◌, ◌==ℕ◌, Option, none, some, List, [], ◌∷◌, map, ◌==◌,
  text_eq, ltb, if◌then◌else◌,
}
use s21_identity_service.Base.Int.{ℤ, pos, int_eq}
use s21_identity_service.Base.Map
use s21_identity_service.Base.Map.{Map}
use s21_identity_service.Base.Exec.{ok, err}
use s21_identity_service.Base.Sort.{sort}
use s21_identity_service.Text.{Text}
use s21_identity_service.Text.Order.{ltb_text}
use s21_identity_service.Store.{
  Time, ApiKey, is_active, StoreError, Repo, not_found, key_name_in_use, creator_has_active_key,
}

unfoldable pub get_by_hash : Text → Repo (Map Text ApiKey) ApiKey
get_by_hash h api_keys = elim (Map.lookup h api_keys) [
  | none ↦ (err not_found, api_keys)
  | some k ↦ (ok k, api_keys)
]

-- The loop of `Insert`: the first row in the range order that stands in the way of `k`.
unfoldable pub conflict : ApiKey → Map Text ApiKey → Option StoreError
conflict k [] = none
conflict k ((_, existing) ∷ rest) =
    let later = conflict k rest in
    if not (is_active existing)
    then later
    else if existing.name == k.name
    then some key_name_in_use
    else if not (k.created_by_telegram_id == pos 0)
        && existing.created_by_telegram_id == k.created_by_telegram_id
    then some creator_has_active_key
    else later

unfoldable pub insert : ApiKey → Repo (Map Text ApiKey) (Unit {0})
unfolding conflict
insert k api_keys = elim (conflict k api_keys) [
  | some e ↦ (err e, api_keys)
  | none ↦ (ok tt, Map.insert k.key_hash k api_keys)
]

-- The tests of the loop of `RevokeByName`.
abbrev pub is_revocable : Text → ℤ → ApiKey → Bool
is_revocable name by k =
    is_active k && k.name == name && (by == pos 0 || k.created_by_telegram_id == by)

-- The row at which that loop stops.
unfoldable pub revocable : Text → ℤ → Map Text ApiKey → Option (Text × ApiKey)
revocable name by [] = none
revocable name by ((hash, k) ∷ rest) =
    let later = revocable name by rest in if is_revocable name by k then some (hash, k) else later

unfoldable pub revoke_by_name : Text → ℤ → Time → Repo (Map Text ApiKey) (Unit {0})
unfolding revocable
revoke_by_name name by at api_keys = elim (revocable name by api_keys) [
  | none ↦ (err not_found, api_keys)
  | some (hash, k) ↦ (ok tt, Map.insert hash (record k { revoked_at = some at }) api_keys)
]

abbrev pub by_creation : ApiKey → ApiKey → Bool
by_creation a b =
    if not (a.created_at ==ℕ b.created_at)
    then ltb a.created_at b.created_at
    else ltb_text a.name b.name

unfoldable pub list : Repo (Map Text ApiKey) (List ApiKey)
list api_keys = (ok (sort by_creation (map (λ (_, k). k) api_keys)), api_keys)

-- The loop of `CountByCreatorSince`.
unfoldable pub count_since : ℤ → Time → Map Text ApiKey → ℕ
count_since by since [] = 0
count_since by since ((_, k) ∷ rest) =
    let later = count_since by since rest in
    if k.created_by_telegram_id == by && not (ltb k.created_at since) then suc later else later

unfoldable pub count_by_creator_since : ℤ → Time → Repo (Map Text ApiKey) ℕ
unfolding count_since
count_by_creator_since by since api_keys = (ok (count_since by since api_keys), api_keys)
