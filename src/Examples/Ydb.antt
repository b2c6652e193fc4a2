-- ===== src/Examples/Ydb.antt =====
-- A YDB service that keeps its tables in memory and never fails, and what holds of it.
use native.Mathlib.Decide.{ℕ_discrete}
use s21_identity_service.Base.{
  ℕ, ◌+◌, ◌-◌, ◌≤◌, ◌<◌, ◌^◌, ◌%◌, ◌*◌, ◌/◌, ◌≡◌, ◌↔◌, refl, sym, ◌∙◌, ap, inl, inr, Bool, true,
  false, Option, none, some, List, [], ◌∷◌, map, Has, arith, ◌==◌, text_eq, if◌then◌else◌,
  Bool-cases, ==_iff, Option-cases, any, length, test_of_eq, Eq,
}
use s21_identity_service.Base.Map
use s21_identity_service.Base.Map.{Map, lookup}
use s21_identity_service.Base.Exec.{Exec, Outcome, ok}
use s21_identity_service.Text.{Text}
use s21_identity_service.YdbStore.Columns.{UserRow, KeyRow}
use s21_identity_service.YdbStore.Service.{
  Ydb, IsYdb, Tables, nat_eq, epoch, at_most_one, OneOf, set_revoked,
}

-- A statement that reads, and one that writes.
abbrev reads : {A : Type 0} → (Tables → A) → Exec Tables Text A
reads f t = (ok (f t), t)

abbrev writes : (Tables → Tables) → Exec Tables Text (Unit {0})
writes f t = (ok tt, f t)

-- The rows that can be looked up and fit.
unfoldable pub kept : (UserRow → Bool) → Map ℕ UserRow → Map ℕ UserRow → List UserRow
kept fits all [] = []
kept fits all ((tid, _) ∷ rest) =
    let below = kept fits all rest in
    elim (lookup tid all) [ none ↦ below | some u ↦ if fits u then u ∷ below else below ]

-- The first active row that fits.
unfoldable pub first_active :
    (KeyRow → Bool) → Map Text KeyRow → Map Text KeyRow → Option (Text × KeyRow)
first_active fits all [] = none
first_active fits all ((hash, _) ∷ rest) =
    let later = first_active fits all rest in
    elim (lookup hash all) [
      | none ↦ later
      | some k ↦ elim k.revoked_at [
        | some _ ↦ later
        | none ↦ if fits k then some (hash, k) else later
      ]
    ]

first_active-none :
    (fits : KeyRow → Bool) (all part : Map Text KeyRow) (hash : Text) (k k' : KeyRow)
    → first_active fits all part ≡ none
    → lookup hash part ≡ some k'
    → lookup hash all ≡ some k
    → k.revoked_at ≡ none
    → fits k ≡ false
unfolding first_active lookup
first_active-none fits all [] hash k k' h l m a = absurd (cc)
first_active-none fits all ((j, x) ∷ part) hash k k' h l m a =
    ground (arith, first_active-none fits all part hash k k')

first_active-some :
    (fits : KeyRow → Bool) (all part : Map Text KeyRow) (hash : Text) (k : KeyRow)
    → first_active fits all part ≡ some (hash, k)
    → (lookup hash all ≡ some k) × (k.revoked_at ≡ none) × (fits k ≡ true)
unfolding first_active
first_active-some fits all [] hash k h = absurd (cc)
first_active-some fits all ((j, x) ∷ part) hash k h =
    ground (arith, first_active-some fits all part hash k)

pub kept-Has :
    (fits : UserRow → Bool) (all part : Map ℕ UserRow) (r : UserRow)
    → Has r (kept fits all part)
    → (tid : ℕ) × (lookup tid all ≡ some r) × (fits r ≡ true)
unfolding kept
kept-Has fits all [] r h = absurd h
kept-Has fits all ((j, x) ∷ part) r h = elim (Option-cases (lookup j all)) [
  | inl e ↦ kept-Has fits all part r (rw (e, Has) at h)
  | inr (u, e) ↦ elim (Bool-cases (fits u)) [
    | inr no_fit ↦ kept-Has fits all part r (rw (e, no_fit, Has) at h)
    | inl fit ↦ elim (rw (e, fit, Has) at h) [
      | inl p ↦ (j, e ∙ ap some p, ap fits (sym p) ∙ fit)
      | inr k ↦ kept-Has fits all part r k
    ]
  ]
]

pub Has-kept :
    (fits : UserRow → Bool) (all part : Map ℕ UserRow) (tid : ℕ) (r x : UserRow)
    → lookup tid part ≡ some x
    → lookup tid all ≡ some r
    → fits r ≡ true
    → Has r (kept fits all part)
unfolding kept lookup
Has-kept fits all [] tid r x l m f = absurd (cc)
Has-kept fits all ((j, u) ∷ part) tid r x l m f = ground (arith, Has-kept fits all part tid r x)

abbrev found_one : {A : Type 0} → (Text → KeyRow → A) → (KeyRow → Bool) → Map Text KeyRow → List A
found_one shown fits keys = elim (first_active fits keys keys) [
  | none ↦ []
  | some (hash, k) ↦ shown hash k ∷ []
]

instance unfoldable pub option_eq : Eq (Option ℕ)
unfolding ℕ_discrete
option_eq = record { dec = hlevel ℕ_discrete }

-- Microseconds since 1970, and back.
abbrev pub ydb : Ydb
ydb = record {
  State = Tables;
  timestamp = λ t. (t - epoch) / 1000;
  time = λ m. epoch + m * 1000;
  select_user = λ tid. reads (λ t. at_most_one (lookup tid t.users));
  select_users =
      λ tids. reads (λ t. kept (λ u. any (λ tid. tid == u.telegram_id) tids) t.users t.users);
  select_by_nickname = λ n. reads (λ t. kept (λ u. u.nickname == n) t.users t.users);
  upsert_user = λ u. writes (λ t. record t { users = Map.insert u.telegram_id u t.users });
  delete_user = λ tid. writes (λ t. record t { users = Map.erase tid t.users });
  select_nickname = λ n. reads (λ t. at_most_one (lookup n t.nicknames));
  upsert_nickname = λ e. writes (λ t. record t { nicknames = Map.insert e.nickname e t.nicknames });
  select_key = λ h. reads (λ t. at_most_one (lookup h t.api_keys));
  select_active_name = λ name. reads (λ t. found_one (λ h k. h) (λ k. k.name == name) t.api_keys);
  select_active_creator =
      λ by. reads (λ t. found_one (λ h k. h) (λ k. k.created_by_telegram_id == some by) t.api_keys);
  select_active_owner = λ name.
      reads
        (λ t. found_one (λ h k. (h, k.created_by_telegram_id)) (λ k. k.name == name) t.api_keys);
  upsert_key = λ k. writes (λ t. record t { api_keys = Map.insert k.key_hash k t.api_keys });
  update_revoked = λ h at. writes (λ t. set_revoked (lookup h t.api_keys) h at t);
  select_keys = reads (λ t. map (λ (_, k). k) t.api_keys);
  count_keys = λ by since. reads (λ t. length t.api_keys ∷ []);
  select_token = λ h. reads (λ t. at_most_one (lookup h t.token_cache));
  upsert_token =
      λ e. writes (λ t. record t { token_cache = Map.insert e.token_hash e t.token_cache });
  commit = writes (λ t. t);
}

-- A query by name or creator returns one of the active rows that fit, if there is one.
pub found_one-OneOf :
    {A : Type 0} (Fits : KeyRow → Type 0) (fits : KeyRow → Bool) (shown : Text → KeyRow → A)
    (sound : (k : KeyRow) → fits k ≡ true → Fits k)
    (complete : (k : KeyRow) → Fits k → fits k ≡ true) (keys : Map Text KeyRow)
    → OneOf Fits shown keys (found_one shown fits keys)
found_one-OneOf Fits fits shown sound complete keys =
    elim (Option-cases (first_active fits keys keys)) [
      | inl e ↦
          rw (e, found_one)
            (inl (
              refl,
              λ hash r.
                  let out =
                    first_active-none fits keys keys hash r.row r.row e r.found r.found r.active in
                  let fit = complete r.row r.fits in cc,
            ))
      | inr ((hash, k), e) ↦
          let (l, a, f) = first_active-some fits keys keys hash k e in
          rw (e, found_one)
            (inr (hash, record { row = k; found = l; active = a; fits = sound k f }, refl))
    ]

pub reading :
    {A : Type 0} (rows : A) (P : A → Type 0)
    → P rows
    → (a : A) → ◌≡◌ {A = Outcome Text A} (ok rows) (ok a)
    → P a
reading rows P p a h = let q : rows ≡ a = cc in rw (← q) p

pub time_kept :
    (t : ℕ) → epoch ≤ t → t < epoch + 2 ^ 63 → epoch + (t - epoch) / 1000 * 1000 ≡ t - t % 1000
time_kept t lo hi = omega arith

abbrev pub ydb-IsYdb : IsYdb ydb
ydb-IsYdb = record {
  tables = λ t. t;
  time_kept = time_kept;
  select_user = λ tid t. (refl, reading _ (λ rows. rows ≡ at_most_one (lookup tid t.users)) refl);
  select_by_nickname = λ n t. (
    refl,
    reading _
        (λ rows.
          (r : UserRow)
          → Has r rows ↔ ((tid : ℕ) × (lookup tid t.users ≡ some r) × (r.nickname ≡ n)))
        (λ r. (
          λ h.
              let (tid, l, e) = kept-Has (λ u. u.nickname == n) t.users t.users r h in
              (tid, l, (==_iff r.nickname n).0 e),
          λ (tid, l, e).
              Has-kept (λ u. u.nickname == n) t.users t.users tid r r l l
                ((==_iff r.nickname n).1 e),
        )),
  );
  upsert_user = λ u t h. refl;
  delete_user = λ tid t h. refl;
  select_nickname =
      λ n t. (refl, reading _ (λ rows. rows ≡ at_most_one (lookup n t.nicknames)) refl);
  upsert_nickname = λ e t h. refl;
  select_key = λ k t. (refl, reading _ (λ rows. rows ≡ at_most_one (lookup k t.api_keys)) refl);
  select_active_name = λ name t. (
    refl,
    reading _ (λ rows. OneOf (λ k. k.name ≡ name) (λ h k. h) t.api_keys rows)
        (found_one-OneOf (λ k. k.name ≡ name) (λ k. k.name == name) (λ h k. h)
          (λ k e. (==_iff k.name name).0 e) (λ k e. test_of_eq e) t.api_keys),
  );
  select_active_creator = λ by t. (
    refl,
    reading _ (λ rows. OneOf (λ k. k.created_by_telegram_id ≡ some by) (λ h k. h) t.api_keys rows)
        (found_one-OneOf (λ k. k.created_by_telegram_id ≡ some by)
          (λ k. k.created_by_telegram_id == some by) (λ h k. h)
          (λ k e. (==_iff k.created_by_telegram_id (some by)).0 e) (λ k e. test_of_eq e)
          t.api_keys),
  );
  select_active_owner = λ name t. (
    refl,
    reading _
        (λ rows. OneOf (λ k. k.name ≡ name) (λ h k. (h, k.created_by_telegram_id)) t.api_keys rows)
        (found_one-OneOf (λ k. k.name ≡ name) (λ k. k.name == name)
          (λ h k. (h, k.created_by_telegram_id)) (λ k e. (==_iff k.name name).0 e)
          (λ k e. test_of_eq e) t.api_keys),
  );
  upsert_key = λ k t h. refl;
  update_revoked = λ k at t h. refl;
  commit = λ t h. refl;
}
