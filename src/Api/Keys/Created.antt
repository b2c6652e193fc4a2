-- ===== src/Api/Keys/Created.antt =====
-- Keys that `handleCreateKey` of pkg/api/server.go creates, over the store in memory.
use s21_identity_service.Base.{
  some_inj, ◌≡◌, ◌≢◌, refl, ◌∙◌, sym, ap, inl, inr, ◌<◌, ◌≤◌, ◌+◌, ◌-◌, ℕ, Option, none, some, true,
  Option-cases, [], ◌∷◌, text_eq, arith, Bool, ◌&&◌, leb, ◌==◌, ◌*◌, length, filter,
}
use s21_identity_service.Base.Int.{ℤ, pos, int_eq}
use s21_identity_service.Base.Map
use s21_identity_service.Base.Map.{Map, lookup, lookup-insert}
use s21_identity_service.Base.Exec.{ok}
use s21_identity_service.Text.{Text, trim_space}
use s21_identity_service.Store.{ApiKey, Time, is_active, has_scope}
use s21_identity_service.Store.Scopes.{has_scope_in}
use s21_identity_service.MemStore.{mem_store}
use s21_identity_service.MemStore.Keys
use s21_identity_service.MemStore.Keys.{get_by_hash, conflict, count_since, count_by_creator_since}
use s21_identity_service.MemStore.Keys.Laws.{Rows}
use s21_identity_service.Api.Models.{
  Request, CreateKeyRequest, CreateKeyResponse, Body, created_body, Response,
}
use s21_identity_service.Api.Platform.{Platform, World, rate_time}
use s21_identity_service.Api.Server.{Server, write_json}
use s21_identity_service.Api.Auth.{authenticate_api_key}
use s21_identity_service.Api.Auth.Keys.{Granted, api_key_of, authenticate_api_key_complete}
use s21_identity_service.Api.Keys.{
  handle_create_key, key_row, key_create_rate_limit_window, key_create_rate_limit_max,
}
use s21_identity_service.Api.Keys.Create.{handle_create_key_ok}

-- An insertion that succeeds has written the row.
inserted_rows :
    (k : ApiKey) (rows : Rows)
    → (Keys.insert k rows).0 ≡ ok tt
    → (Keys.insert k rows).1 ≡ Map.insert k.key_hash k rows
unfolding Keys.insert
inserted_rows k rows h = elim (Option-cases (conflict k rows)) [
  | inl e ↦ rw (e, Keys.insert) refl
  | inr (x, e) ↦ absurd (ground arith)
]

inserted_found :
    (k : ApiKey) (rows : Rows)
    → (Keys.insert k rows).0 ≡ ok tt
    → (get_by_hash k.key_hash (Keys.insert k rows).1).0 ≡ ok k
unfolding get_by_hash
inserted_found k rows h =
    rw (inserted_rows k rows h) (ground (arith, lookup-insert k.key_hash k.key_hash k rows))

-- One write of a row adds at most one to the count of a creator.
count_since-insert :
    (by : ℤ) (since : Time) (h : Text) (k : ApiKey) (rows : Rows)
    → count_since by since (Map.insert h k rows) ≤ count_since by since rows + 1
unfolding count_since Map.insert
count_since-insert by since h k [] = ground arith
count_since-insert by since h k ((j, x) ∷ rows) =
    ground (arith, count_since-insert by since h k rows)

-- A row of the creator, which was created at the time or later.
abbrev pub created_since : ℤ → Time → Text × ApiKey → Bool
created_since by since (_, k) = k.created_by_telegram_id == by && leb since k.created_at

count_since-filter :
    (by : ℤ) (since : Time) (rows : Rows)
    → count_since by since rows ≡ length (filter (created_since by since) rows)
unfolding count_since
count_since-filter by since [] = refl
count_since-filter by since ((h, k) ∷ rows) = ground (arith, count_since-filter by since rows)

within_limit :
    (tid : ℤ) (since : Time) (n : ℕ) (k : ApiKey) (rows : Rows)
    → (count_by_creator_since tid since rows).0 ≡ ok n
    → n < key_create_rate_limit_max
    → (Keys.insert k rows).0 ≡ ok tt
    → count_since tid since (Keys.insert k rows).1 ≤ key_create_rate_limit_max
unfolding count_by_creator_since
within_limit tid since n k rows c l h =
    rw (inserted_rows k rows h) (ground (arith, count_since-insert tid since k.key_hash k rows))

created_in : Body → Option CreateKeyResponse
created_in (created_body k) = some k
created_in _ = none

created_body_inj :
    (k k' : CreateKeyResponse)
    → write_json 201 (created_body k) ≡ write_json 201 (created_body k')
    → k ≡ k'
unfolding created_in
created_body_inj k k' h = let e = ap (λ x. created_in x.body) h in cc

module _ (p : Platform) (w : World) (r : Request) (s : Server (mem_store p.case_table)) where
  -- A key that `handle_create_key` has answered with opens every scope that the answer lists: if it
  -- is not empty, the next request that presents it, at any time, is let through with the row that
  -- was stored, which is active and has the name and the scopes of the answer.
  pub created_key_authenticates :
      (k : CreateKeyResponse) (w' : World) (r' : Request) (scope : Text)
      → (handle_create_key p w r s).0 ≡ ok (write_json 201 (created_body k))
      → api_key_of r' ≡ k.key
      → k.key ≢ []
      → has_scope_in k.scopes scope ≡ true
      → (row : ApiKey) × ((authenticate_api_key p w' r' scope (handle_create_key p w r s).1).0
          ≡ ok (some row))
        × (is_active row ≡ true)
        × (row.name ≡ k.name)
        × (row.scopes ≡ k.scopes)
  created_key_authenticates k w' r' scope h presented nonempty scoped =
      let c = handle_create_key_ok p w r s _ h in
      let m = c.minted in
      let row =
        key_row p w (p.base64 m.bytes) (trim_space c.req.name) c.canon
          c.req.created_by_telegram_id in
      let same = created_body_inj k _ m.answer in
      let key : api_key_of r' ≡ p.base64 m.bytes = presented ∙ ap (λ x. x.key) same in
      let scopes : k.scopes ≡ c.canon = ap (λ x. x.scopes) same in
      let g : Granted p (mem_store p.case_table) r' scope (handle_create_key p w r s).1.store row =
        record {
          presented = λ q. nonempty (sym presented ∙ q);
          found = rw (key, m.after) (inserted_found row c.ready.store.api_keys m.inserted);
          hashed = ap p.hash (sym key);
          active = refl;
          scoped = λ _. unfold has_scope in rw (← scopes) scoped;
        } in
      (
        row,
        authenticate_api_key_complete p w' r' scope _ row g,
        refl,
        sym (ap (λ x. x.name) same),
        sym scopes,
      )

  counted_keys_limited :
      (response : Response) (req : CreateKeyRequest)
      → (handle_create_key p w r s).0 ≡ ok response
      → p.decode_create r.body ≡ some req
      → req.created_by_telegram_id ≢ pos 0
      → count_since req.created_by_telegram_id
          (w.now rate_time - key_create_rate_limit_window)
          (handle_create_key p w r s).1.store.api_keys
        ≤ key_create_rate_limit_max
  counted_keys_limited response req h decodes user =
      let c = handle_create_key_ok p w r s response h in
      let m = c.minted in
      let since = w.now rate_time - key_create_rate_limit_window in
      let row =
        key_row p w (p.base64 m.bytes) (trim_space c.req.name) c.canon
          c.req.created_by_telegram_id in
      let tid : c.req.created_by_telegram_id ≡ req.created_by_telegram_id =
        ap (λ x. x.created_by_telegram_id) (some_inj (sym c.decodes ∙ decodes)) in
      let rows : (handle_create_key p w r s).1.store.api_keys
          ≡ (Keys.insert row c.ready.store.api_keys).1 =
        ap (λ x. x.store.api_keys) m.after in
      elim c.limited [
        | inl (operator, _) ↦ absurd (user (sym tid ∙ operator))
        | inr (n, (counted, (below, ready))) ↦
            let same : c.ready.store.api_keys ≡ c.before.store.api_keys =
              ap (λ x. x.store.api_keys) ready ∙ unfold count_by_creator_since in refl in
            let count : (count_by_creator_since req.created_by_telegram_id since
                  c.ready.store.api_keys).0
                ≡ ok n =
              rw (same, ← tid) counted in
            rw rows (
              within_limit req.created_by_telegram_id since n row c.ready.store.api_keys count below
                m.inserted)
      ]

  -- A key is created for a user only within the limit: after a creation for a creator that is not
  -- 0, at most ten rows of the store, revoked ones included, have this creator and a time of
  -- creation that is not before the one hour that ended when the rate limit read the clock, the new
  -- row included.
  pub created_keys_limited :
      (response : Response) (req : CreateKeyRequest)
      → (handle_create_key p w r s).0 ≡ ok response
      → p.decode_create r.body ≡ some req
      → req.created_by_telegram_id ≢ pos 0
      → length (
          filter
            (created_since req.created_by_telegram_id (w.now rate_time - 3600 * 1000000000))
            (handle_create_key p w r s).1.store.api_keys)
        ≤ 10
  created_keys_limited response req h decodes user =
      rw
        (← (
          count_since-filter req.created_by_telegram_id (w.now rate_time - 3600 * 1000000000)
            (handle_create_key p w r s).1.store.api_keys))
        (counted_keys_limited response req h decodes user)
