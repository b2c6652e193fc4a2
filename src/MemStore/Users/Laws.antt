-- ===== src/MemStore/Users/Laws.antt =====
-- What the operations of pkg/store/memstore/memstore.go on users read and write.
use s21_identity_service.Base.{
  some_inj, ◌≡◌, refl, ◌∙◌, sym, ap, ◌↔◌, ◌⊎◌, inl, inr, true, false, some, none, List, [], ◌∷◌,
  Has, arith, ◌==◌, text_eq, Bool-cases, Option-cases, if◌then◌else◌,
}
use s21_identity_service.Base.Int.{ℤ, int_eq}
use s21_identity_service.Base.Map.{Map, lookup, NodupKeys, lookup-insert, lookup-erase}
use s21_identity_service.Base.Exec.{ok, err}
use s21_identity_service.Base.Sort.{sort, IsSorted, sort-Has, sort-IsSorted}
use s21_identity_service.Text.{Text}
use s21_identity_service.Text.Case.{CaseTable, equal_fold}
use s21_identity_service.Store.{User, not_found}
use s21_identity_service.MemStore.Users.{
  get_by_telegram_id, found, by_id, get_by_telegram_ids, named, by_creation, list_by_nickname,
  upsert, delete,
}

abbrev pub Users : Type 0
Users = Map ℤ User

-- The row that an upsert of `u` stores: as given, but for the creation time of an existing row.
abbrev pub stored : User → Users → User
stored u users = elim (lookup u.telegram_id users) [
  | none ↦ u
  | some old ↦ record u { created_at = old.created_at }
]

-- An upsert returns the row that later reads of this id return, which keeps the creation time of
-- the row it replaces; reads of any other id are as before.
pub get-upsert :
    (u : User) (users : Users) (tid : ℤ)
    → ((upsert u users).0 ≡ ok (stored u users))
      × ((get_by_telegram_id tid (upsert u users).1).0 ≡ (
          if u.telegram_id == tid then ok (stored u users) else (get_by_telegram_id tid users).0))
unfolding upsert get_by_telegram_id
get-upsert u users tid = ground (arith, lookup-insert u.telegram_id tid (stored u users) users)

-- A deletion fails exactly when the id has no row, and then changes nothing; afterwards the id has
-- no row, and reads of any other id are as before.
pub get-delete :
    (tid other : ℤ) (users : Users)
    → (((delete tid users).0 ≡ err not_found) ↔ ((get_by_telegram_id tid users).0 ≡ err not_found))
      × ((delete tid users).0 ≡ err not_found → (delete tid users).1 ≡ users)
      × ((get_by_telegram_id other (delete tid users).1).0
          ≡ (if tid == other then err not_found else (get_by_telegram_id other users).0))
unfolding delete get_by_telegram_id
get-delete tid other users = ground (arith, lookup-erase tid other users)

by_id_asym : (x y : User) → by_id x y ≡ true → by_id y x ≡ false
by_id_asym x y h = ground arith

by_creation_asym : (x y : User) → by_creation x y ≡ true → by_creation y x ≡ false
by_creation_asym x y h = ground arith

both : {P Q R : Type 0} → (P ↔ Q) → (Q ↔ R) → P ↔ R
both (f, g) (h, k) = (λ p. h (f p), λ r. g (k r))

true-false : true ≡ false → ⊥
true-false h = cc

none-some : {A : Type 0} {x : A} → none ≡ some x → ⊥
none-some h = cc

-- An entry behind the first, and the two places of an entry.
later_entry :
    (id tid : ℤ) (x u : User) (users : Users)
    → lookup id users ≡ none
    → lookup tid users ≡ some u
    → lookup tid ((id, x) ∷ users) ≡ some u
unfolding lookup
later_entry id tid x u users fresh l = ground arith

entry_cases :
    (id tid : ℤ) (x u : User) (users : Users)
    → lookup tid ((id, x) ∷ users) ≡ some u
    → (x ≡ u) ⊎ (lookup tid users ≡ some u)
unfolding lookup
entry_cases id tid x u users l = ground arith

first_entry : (id : ℤ) (x : User) (users : Users) → lookup id ((id, x) ∷ users) ≡ some x
unfolding lookup
first_entry id x users = ground arith

found-Has :
    (users : Users) (tids : List ℤ) (u : User)
    → Has u (found users tids) ↔ ((tid : ℤ) × Has tid tids × (lookup tid users ≡ some u))
unfolding found
found-Has users [] u = (λ h. absurd h, λ (_, h, _). absurd h)
found-Has users (id ∷ tids) u =
    let (there, back) = found-Has users tids u in
    elim (Option-cases (lookup id users)) [
      | inl e ↦ (
        λ h. let (tid, k, l) = there (rw (e, Has) at h) in (tid, inr k, l),
        λ (tid, k, l). elim k [
          | inl q ↦ absurd (none-some (sym e ∙ ap (λ y. lookup y users) q ∙ l))
          | inr k' ↦ rw (e, Has) (back (tid, k', l))
        ],
      )
      | inr (x, e) ↦ (
        λ h. elim (rw (e, Has) at h) [
          | inl q ↦ (id, inl refl, e ∙ ap some q)
          | inr k ↦ let (tid, k', l) = there k in (tid, inr k', l)
        ],
        λ (tid, k, l). elim k [
          | inl q ↦ rw (e, Has) (inl (some_inj (sym e ∙ ap (λ y. lookup y users) q ∙ l)))
          | inr k' ↦ rw (e, Has) (inr (back (tid, k', l)))
        ],
      )
    ]

-- A batch read returns the rows of the ids that have one, and no other, in the order of the ids.
pub get_by_telegram_ids_ordered :
    (tids : List ℤ) (users : Users)
    → (out : List User) × (get_by_telegram_ids tids users ≡ (ok out, users))
      × ((u : User) → Has u out ↔ ((tid : ℤ) × Has tid tids × (lookup tid users ≡ some u)))
      × IsSorted by_id out
unfolding get_by_telegram_ids
get_by_telegram_ids_ordered tids users = (
  sort by_id (found users tids),
  refl,
  λ u. both (sort-Has by_id u (found users tids)) (found-Has users tids u),
  sort-IsSorted by_id by_id_asym _,
)

empty_lookup : (tid : ℤ) (u : User) → lookup tid [] ≡ some u → ⊥
unfolding lookup
empty_lookup tid u l = cc

named-Has :
    (table : CaseTable) (nick : Text) (users : Users) (u : User)
    → NodupKeys users
    → Has u (named table nick users)
      ↔ ((tid : ℤ) × (lookup tid users ≡ some u) × (equal_fold table u.nickname nick ≡ true))
unfolding named
named-Has table nick [] u n = (λ h. absurd h, λ (tid, l, _). absurd (empty_lookup tid u l))
named-Has table nick ((id, x) ∷ users) u (fresh, n) =
    let (there, back) = named-Has table nick users u n in
    elim (Bool-cases (equal_fold table x.nickname nick)) [
      | inl e ↦ (
        λ h. elim (rw e at h) [
          | inl q ↦ (
            id,
            first_entry id x users ∙ ap some q,
            ap (λ y. equal_fold table y.nickname nick) (sym q) ∙ e,
          )
          | inr k ↦ let (tid, l, g) = there k in (tid, later_entry id tid x u users fresh l, g)
        ],
        λ (tid, l, g). elim (entry_cases id tid x u users l) [
          | inl q ↦ rw e (inl q)
          | inr m ↦ rw e (inr (back (tid, m, g)))
        ],
      )
      | inr e ↦ (
        λ h. let (tid, l, g) = there (rw e at h) in (tid, later_entry id tid x u users fresh l, g),
        λ (tid, l, g). elim (entry_cases id tid x u users l) [
          | inl q ↦
              absurd (true-false (sym g ∙ ap (λ y. equal_fold table y.nickname nick) (sym q) ∙ e))
          | inr m ↦ rw e (back (tid, m, g))
        ],
      )
    ]

-- If the map holds a key once, a list by nickname holds the rows whose nickname folds to the same
-- text, and only those, with the earliest first and ties in the order of the ids.
pub list_by_nickname_ordered :
    (table : CaseTable) (nick : Text) (users : Users)
    → NodupKeys users
    → (out : List User) × (list_by_nickname table nick users ≡ (ok out, users))
      × ((u : User)
          → Has u out
            ↔ ((tid : ℤ) × (lookup tid users ≡ some u) × (equal_fold table u.nickname nick ≡ true)))
      × IsSorted by_creation out
unfolding list_by_nickname
list_by_nickname_ordered table nick users n = (
  sort by_creation (named table nick users),
  refl,
  λ u. both (sort-Has by_creation u (named table nick users)) (named-Has table nick users u n),
  sort-IsSorted by_creation by_creation_asym _,
)
