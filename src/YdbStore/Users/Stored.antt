-- ===== src/YdbStore/Users/Stored.antt =====
-- A user that `Upsert` of pkg/store/ydbstore/ydbstore.go has written, as `GetByTelegramID` reads it.
use s21_identity_service.Base.{
  ℕ, ◌≡◌, ◌≢◌, refl, sym, ◌∙◌, ap, inl, inr, some, arith, ◌==◌, Bool-cases, ==_iff, test_of_eq,
  test_of_ne, true, if◌then◌else◌,
}
use s21_identity_service.Base.Int.{ℤ, IsInt64, int_eq}
use s21_identity_service.Base.Map
use s21_identity_service.Base.Map.{Map, lookup, lookup-insert}
use s21_identity_service.Base.Exec.{Outcome, ok, err, pure, ◌>>=◌, ◌>>◌, steps_of_bind}
use s21_identity_service.Text.{Text}
use s21_identity_service.Store.{
  Time, User, Repo, StoreError, not_found, key_name_in_use, creator_has_active_key, failure,
}
use s21_identity_service.YdbStore.Columns.{UserRow, uint64_of, int64_of, int64_of-uint64_of}
use s21_identity_service.YdbStore.Service.{Ydb, IsYdb, Tables, nat_eq}
use s21_identity_service.YdbStore.Session.{execute, attempt, do_tx}
use s21_identity_service.YdbStore.Session.Laws.{do_tx-ok, execute-Writes}
use s21_identity_service.YdbStore.Session.Lookup.{answer, OrFailure, lookup_lem}
use s21_identity_service.YdbStore.Users.{
  scan_user, user_params, get_by_telegram_id, existing_created_at, dated, upsert,
}
use s21_identity_service.YdbStore.Keys.Stored.{IsTimestamp, truncated}

created-ok :
    {S : Type 0} (r : Outcome StoreError User) (s : S) (c : Time)
    → (existing_created_at r s).0 ≡ ok c
    → ((u : User) → r ≡ ok u → c ≡ u.created_at)
      × ((existing_created_at r s).1 ≡ s)
      × ((message : Text) → r ≢ err (failure message))
unfolding existing_created_at
created-ok (ok u) s c h = (λ u' e. cc, refl, λ m e. cc)
created-ok (err not_found) s c h = (λ u' e. cc, refl, λ m e. cc)
created-ok (err key_name_in_use) s c h = absurd (cc)
created-ok (err creator_has_active_key) s c h = absurd (cc)
created-ok (err (failure m)) s c h = absurd (cc)

telegram_id-dated : (c : Time) (u : User) → (dated c u).telegram_id ≡ u.telegram_id
unfolding dated
telegram_id-dated c u = refl

created_at-dated : (c : Time) (u : User) → c ≢ 0 → (dated c u).created_at ≡ c
unfolding dated
created_at-dated c u h = ground arith

same_word : (a b : ℤ) → IsInt64 a → IsInt64 b → (uint64_of a == uint64_of b) ≡ (a == b)
same_word a b word word' = elim (Bool-cases (a == b)) [
  | inl e ↦ test_of_eq (ap uint64_of ((==_iff a b).0 e)) ∙ sym e
  | inr e ↦
      test_of_ne (λ p.
        let q : (a == b) ≡ true =
          test_of_eq
            (sym (int64_of-uint64_of a word) ∙ ap int64_of p ∙ int64_of-uint64_of b word') in
        cc)
      ∙ sym e
]

module _ {y : Ydb} (d : IsYdb y) where
  abbrev pub users_in : y.State → Map ℕ UserRow
  users_in s = (d.tables s).users

  pub get_by_telegram_id_lem :
      (tid : ℤ) (s : y.State)
      → (d.tables (get_by_telegram_id y tid s).1 ≡ d.tables s)
        × OrFailure
            (get_by_telegram_id y tid s).0
            (answer (scan_user y) (lookup (uint64_of tid) (users_in s)))
  unfolding get_by_telegram_id
  get_by_telegram_id_lem tid s =
      lookup_lem d.tables (λ t. lookup (uint64_of tid) t.users) (y.select_user (uint64_of tid))
        (d.select_user (uint64_of tid)) (scan_user y) s

  module _ (u : User) (s : y.State) where
    abbrev look : Repo y.State (Outcome StoreError User)
    look = attempt (get_by_telegram_id y u.telegram_id)

    abbrev write : Time → Repo y.State (Unit {0})
    write c = do_tx y (execute (y.upsert_user (user_params y (dated c u))))

    abbrev finish : Time → Repo y.State User
    finish c = write c >> pure (dated c u)

    abbrev next : Outcome StoreError User → Repo y.State User
    next r = existing_created_at r >>= finish

    abbrev put : User → Tables → Tables
    put w t = record t {
      users = Map.insert (user_params y w).telegram_id (user_params y w) t.users;
    }

    -- What an upsert that returns has read and written.
    pub record Upserted (u' : User) : Type 0 where
      pub created : Time
      pub returned : u' ≡ dated created u
      pub kept :
          (row : UserRow)
          → lookup (uint64_of u.telegram_id) (users_in s) ≡ some row
          → created ≡ y.time row.created_at
      pub after : users_in (upsert y u s).1 ≡ (put u' (d.tables s)).users

    pub upsert-ok : (u' : User) → (upsert y u s).0 ≡ ok u' → Upserted u'
    unfolding upsert attempt
    upsert-ok u' h =
        let id = uint64_of u.telegram_id in
        let s1 = (get_by_telegram_id y u.telegram_id s).1 in
        let (got, looked, h1, run) = steps_of_bind look next s u' h in
        let (c, created, h2, run') = steps_of_bind (existing_created_at got) finish s1 u' h1 in
        let s2 = (existing_created_at got s1).1 in
        let (_, written, h3, run'') = steps_of_bind (write c) (λ _. pure (dated c u)) s2 u' h2 in
        let (found, same, fine) = created-ok got s1 c created in
        let (done, committed) =
          do_tx-ok d (execute (y.upsert_user (user_params y (dated c u)))) s2 tt written in
        let (read, answered) = get_by_telegram_id_lem u.telegram_id s in
        let q : dated c u ≡ u' = unfold pure in cc in
        let g : (get_by_telegram_id y u.telegram_id s).0 ≡ got = cc in
        record {
          created = c;
          returned = sym q;
          kept = λ row l. elim answered [
            | inl e ↦ found (scan_user y row) (sym g ∙ e ∙ rw l refl)
            | inr (message, bad) ↦ absurd (fine message (sym g ∙ bad))
          ];
          after =
              ap (λ x. users_in x.1) (run ∙ run' ∙ run'')
              ∙ ap (λ t. t.users)
                  (committed
                    ∙ execute-Writes (y.upsert_user (user_params y (dated c u))) s2 d.tables
                        (put (dated c u)) (d.upsert_user (user_params y (dated c u))) done
                    ∙ ap (put (dated c u)) (ap d.tables same ∙ read))
              ∙ ap (λ x. (put x (d.tables s)).users) q;
        }

    same_id : (u' : User) → Upserted u' → (user_params y u').telegram_id ≡ uint64_of u.telegram_id
    unfolding user_params
    same_id u' w =
        ap (λ x. uint64_of x.telegram_id) w.returned ∙ ap uint64_of (telegram_id-dated w.created u)

    found_after :
        (u' : User) (tid : ℤ)
        → Upserted u'
        → lookup (uint64_of tid) (users_in (upsert y u s).1) ≡ (
            if uint64_of u.telegram_id == uint64_of tid
            then some (user_params y u')
            else lookup (uint64_of tid) (users_in s))
    found_after u' tid w =
        ap (lookup (uint64_of tid)) w.after
        ∙ lookup-insert (user_params y u').telegram_id (uint64_of tid) (user_params y u')
            (users_in s)
        ∙ rw (same_id u' w) refl

    pub found_same :
        (u' : User)
        → Upserted u'
        → lookup (uint64_of u.telegram_id) (users_in (upsert y u s).1) ≡ some (user_params y u')
    found_same u' w =
        found_after u' u.telegram_id w ∙ rw (test_of_eq {a = uint64_of u.telegram_id} refl) refl

    -- The user as the columns keep it.
    abbrev pub kept_user : User → User
    kept_user u' = record u' {
      created_at = truncated u'.created_at;
      updated_at = truncated u'.updated_at;
    }

    pub scanned :
        (u' : User)
        → IsInt64 u'.telegram_id
        → IsTimestamp u'.created_at
        → IsTimestamp u'.updated_at
        → scan_user y (user_params y u') ≡ kept_user u'
    unfolding scan_user user_params
    scanned u' word (lo, hi) (lo', hi') =
        rw
          (
            d.time_kept u'.created_at lo hi,
            d.time_kept u'.updated_at lo' hi',
            int64_of-uint64_of u'.telegram_id word,
          )
          refl

    -- If YDB behaves as documented, after an upsert that returns a row, with ids within int64 and
    -- times that the columns keep: the row has the creation time of the row that was there, unless
    -- that is zero; a read of its id finds it, with its times truncated to the microsecond, and a
    -- read of any other id finds what was there before; or the driver fails.
    pub get_by_telegram_id-upsert :
        (u' : User) (tid : ℤ)
        → IsInt64 u'.telegram_id
        → IsInt64 tid
        → IsTimestamp u'.created_at
        → IsTimestamp u'.updated_at
        → (upsert y u s).0 ≡ ok u'
        → ((row : UserRow)
            → lookup (uint64_of u.telegram_id) (users_in s) ≡ some row
            → y.time row.created_at ≢ 0
            → u'.created_at ≡ y.time row.created_at)
          × OrFailure (get_by_telegram_id y tid (upsert y u s).1).0 (
              if u'.telegram_id == tid
              then ok (kept_user u')
              else answer (scan_user y) (lookup (uint64_of tid) (users_in s)))
    get_by_telegram_id-upsert u' tid word word' c t h =
        let w = upsert-ok u' h in
        let (_, answered) = get_by_telegram_id_lem tid (upsert y u s).1 in
        let id : u'.telegram_id ≡ u.telegram_id =
          ap (λ x. x.telegram_id) w.returned ∙ telegram_id-dated w.created u in
        let after : lookup (uint64_of tid) (users_in (upsert y u s).1) ≡ (
            if u'.telegram_id == tid
            then some (user_params y u')
            else lookup (uint64_of tid) (users_in s)) =
          found_after u' tid w ∙ rw (← id, same_word u'.telegram_id tid word word') refl in
        (
          λ row l set.
              let p = w.kept row l in
              ap (λ x. x.created_at) w.returned
              ∙ created_at-dated w.created u (λ z. set (sym p ∙ z))
              ∙ p,
          elim (Bool-cases (u'.telegram_id == tid)) [
            | inl e ↦ rw (e, ← (scanned u' word c t)) (rw (after, e) at answered)
            | inr e ↦ rw e (rw (after, e) at answered)
          ],
        )
