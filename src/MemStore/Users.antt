-- ===== src/MemStore/Users.antt =====
-- `userRepo` of pkg/store/memstore/memstore.go.
pub mod Laws
use s21_identity_service.Base.{
  ℕ, Bool, ◌==ℕ◌, not, Option, none, some, List, [], ◌∷◌, ltb, if◌then◌else◌,
}
use s21_identity_service.Base.Int.{ℤ, int_eq, ltb_ℤ}
use s21_identity_service.Base.Map
use s21_identity_service.Base.Map.{Map}
use s21_identity_service.Base.Exec.{ok, err}
use s21_identity_service.Base.Sort.{sort}
use s21_identity_service.Text.{Text}
use s21_identity_service.Text.Case.{CaseTable, equal_fold}
use s21_identity_service.Store.{User, Repo, not_found}

unfoldable pub get_by_telegram_id : ℤ → Repo (Map ℤ User) User
get_by_telegram_id tid users = elim (Map.lookup tid users) [
  | none ↦ (err not_found, users)
  | some u ↦ (ok u, users)
]

-- The loop of `GetByTelegramIDs`.
unfoldable pub found : Map ℤ User → List ℤ → List User
found users [] = []
found users (id ∷ tids) =
    let out = found users tids in elim (Map.lookup id users) [ none ↦ out | some u ↦ u ∷ out ]

abbrev pub by_id : User → User → Bool
by_id a b = ltb_ℤ a.telegram_id b.telegram_id

unfoldable pub get_by_telegram_ids : List ℤ → Repo (Map ℤ User) (List User)
unfolding found
get_by_telegram_ids tids users = (ok (sort by_id (found users tids)), users)

-- The loop of `ListByNickname`.
unfoldable pub named : CaseTable → Text → Map ℤ User → List User
named table nickname [] = []
named table nickname ((_, u) ∷ users) =
    let out = named table nickname users in
    if equal_fold table u.nickname nickname then u ∷ out else out

abbrev pub by_creation : User → User → Bool
by_creation a b =
    if not (a.created_at ==ℕ b.created_at) then ltb a.created_at b.created_at else by_id a b

unfoldable pub list_by_nickname : CaseTable → Text → Repo (Map ℤ User) (List User)
unfolding named
list_by_nickname table nickname users = (ok (sort by_creation (named table nickname users)), users)

-- An existing row keeps its `CreatedAt`.
unfoldable pub upsert : User → Repo (Map ℤ User) User
upsert u users =
    let kept : User = elim (Map.lookup u.telegram_id users) [
      | none ↦ u
      | some existing ↦ record u { created_at = existing.created_at }
    ] in
    (ok kept, Map.insert kept.telegram_id kept users)

unfoldable pub delete : ℤ → Repo (Map ℤ User) (Unit {0})
delete tid users = elim (Map.lookup tid users) [
  | none ↦ (err not_found, users)
  | some _ ↦ (ok tt, Map.erase tid users)
]
