-- ===== src/YdbStore/Users/Listed.antt =====
-- What `ListByNickname` of pkg/store/ydbstore/ydbstore.go lists.
use s21_identity_service.Base.{ℕ, sym, refl, ◌≡◌, ◌∙◌, ap, ◌↔◌, some, List, map, Has, Has-map}
use s21_identity_service.Base.Map.{lookup}
use s21_identity_service.Base.Exec.{ok, pure, steps_of_bind}
use s21_identity_service.Text.{Text}
use s21_identity_service.Store.{User}
use s21_identity_service.YdbStore.Columns.{UserRow, uint64_of}
use s21_identity_service.YdbStore.Service.{Ydb, IsYdb, Tables, nat_eq}
use s21_identity_service.YdbStore.Keys.Stored.{IsTimestamp}
use s21_identity_service.Base.Int.{IsInt64}
use s21_identity_service.YdbStore.Session.{execute}
use s21_identity_service.YdbStore.Session.Laws.{execute-Reads}
use s21_identity_service.YdbStore.Users.{scan_user, user_params, upsert, list_by_nickname}
use s21_identity_service.YdbStore.Users.Stored.{users_in, upsert-ok, kept_user, found_same, scanned}

nickname-scan_user : (y : Ydb) (r : UserRow) → (scan_user y r).nickname ≡ r.nickname
unfolding scan_user
nickname-scan_user y r = refl

nickname-user_params : (y : Ydb) (u : User) → (user_params y u).nickname ≡ u.nickname
unfolding user_params
nickname-user_params y u = refl

-- If YDB behaves as documented, a list by nickname that returns changes no table and holds exactly
-- the stored rows whose nickname is equal to the given one, case included.
pub list_by_nickname_exact :
    {y : Ydb} (d : IsYdb y) (nick : Text) (s : y.State) (out : List User)
    → (list_by_nickname y nick s).0 ≡ ok out
    → (d.tables (list_by_nickname y nick s).1 ≡ d.tables s)
      × ((u : User)
          → Has u out ↔ (
              (tid : ℕ) × (r : UserRow) × (lookup tid (users_in d s) ≡ some r)
              × (r.nickname ≡ nick)
              × (scan_user y r ≡ u)))
unfolding list_by_nickname
list_by_nickname_exact {y} d nick s out h =
    let query = execute (y.select_by_nickname nick) in
    let (rows, queried, rest, run) =
      steps_of_bind query (λ rows. pure (map (scan_user y) rows)) s out h in
    let (kept, found) =
      execute-Reads (y.select_by_nickname nick) s d.tables
        (λ (t : Tables) rows.
          (r : UserRow)
          → Has r rows ↔ ((tid : ℕ) × (lookup tid t.users ≡ some r) × (r.nickname ≡ nick)))
        (d.select_by_nickname nick) in
    let q : map (scan_user y) rows ≡ out = unfold pure in cc in
    (
      ap (λ x. d.tables x.1) run ∙ unfold pure in kept,
      λ u. (
        λ k.
            let (r, k', e) = (Has-map (scan_user y) u rows).0 (rw q k) in
            let (tid, l, n) = (found rows queried r).0 k' in (tid, r, l, n, e),
        λ (tid, r, l, n, e).
            rw (← q)
              ((Has-map (scan_user y) u rows).1 (r, (found rows queried r).1 (tid, l, n), e)),
      ),
    )

-- If YDB behaves as documented, a list by nickname that returns after an upsert that has returned a
-- row, with an id within int64 and times that the columns keep, holds that row, with its times
-- truncated to the microsecond, exactly if the nickname is that of the row, case included; and
-- every user that it holds has the nickname, case included.
pub list_by_nickname-upsert :
    {y : Ydb} (d : IsYdb y) (u : User) (s : y.State) (u' : User) (nick : Text) (out : List User)
    → IsInt64 u'.telegram_id
    → IsTimestamp u'.created_at
    → IsTimestamp u'.updated_at
    → (upsert y u s).0 ≡ ok u'
    → (list_by_nickname y nick (upsert y u s).1).0 ≡ ok out
    → (Has (kept_user d u s u') out ↔ (u'.nickname ≡ nick))
      × ((v : User) → Has v out → v.nickname ≡ nick)
list_by_nickname-upsert {y} d u s u' nick out word c t h l =
    let w = upsert-ok d u s u' h in
    let (_, listed) = list_by_nickname_exact d nick (upsert y u s).1 out l in
    let exact : (v : User) → Has v out → v.nickname ≡ nick = λ v k.
      let (_, r, _, n, e) = (listed v).0 k in
      sym (ap (λ x. x.nickname) e) ∙ nickname-scan_user y r ∙ n in
    (
      (
        λ k. exact (kept_user d u s u') k,
        λ n. (listed (kept_user d u s u')).1 (
          uint64_of u.telegram_id,
          user_params y u',
          found_same d u s u' w,
          nickname-user_params y u' ∙ n,
          scanned d u s u' word c t,
        ),
      ),
      exact,
    )
