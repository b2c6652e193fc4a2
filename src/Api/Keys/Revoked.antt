-- ===== src/Api/Keys/Revoked.antt =====
-- What `handleRevokeKey` of pkg/api/server.go takes away, over the store in memory.
use s21_identity_service.Base.{
  some_inj, ℕ, ◌≡◌, ◌≢◌, refl, ◌∙◌, sym, ap, inl, inr, Option, none, some, true, false, Bool-cases,
  [], test_of_eq, text_eq, arith,
}
use s21_identity_service.Base.Int.{ℤ, pos}
use s21_identity_service.Base.Map.{lookup}
use s21_identity_service.Base.Exec.{ok, err, pure, fail, ◌>>=◌, steps_of_bind, Outcome-cases}
use s21_identity_service.Text.{Text, codes}
use s21_identity_service.Store
use s21_identity_service.Store.{Store, StoreError, ApiKey, is_active, not_found}
use s21_identity_service.MemStore.{mem_store}
use s21_identity_service.MemStore.Keys.{get_by_hash, revoke_by_name}
use s21_identity_service.MemStore.Keys.Laws.{Rows, IsValid, revoke_by_name_outcomes}
use s21_identity_service.MemStore.Invariant.{IsSound}
use s21_identity_service.MemStore.Reads.{OfMaps-KeptByReads}
use s21_identity_service.Api.Models.{Request, Response}
use s21_identity_service.Api.Platform.{Platform, World, revoked_time}
use s21_identity_service.Api.Server.{
  Server, call_store, stop, require, or_not_found, revoked_api_key,
}
use s21_identity_service.Api.Server.Returns.{stop_ok}
use s21_identity_service.Api.Auth.{authorize, authenticate_api_key, check_row, check_found, refuse}
use s21_identity_service.Api.Auth.Keys.{api_key_of, header_present}
use s21_identity_service.Api.Keys.{
  CreatedBy, absent, malformed, given, created_by, key_has_scope, revoke, revoke_as,
  handle_revoke_key,
}
use s21_identity_service.Api.Invariant.Gate.{authorize-Keeps}
use s21_identity_service.Api.Users.Stored.{no_tokens, any_tokens}

module _ (p : Platform) {S : Store} (w : World) where
  -- A call of the store that revokes, and the state that it leaves.
  record Revoked (name : Text) (t t' : Server S) : Type 0 where
    by : ℤ
    done : (S.revoke_by_name name by (w.now revoked_time) t.store).0 ≡ ok tt
    after : t' ≡ record t { store = (S.revoke_by_name name by (w.now revoked_time) t.store).1 }

  revoke_ok :
      (name : Text) (by : ℤ) (t : Server S) (response : Response)
      → (revoke p w name by t).0 ≡ ok response
      → Revoked name t (revoke p w name by t).1
  unfolding revoke call_store or_not_found stop pure fail ◌>>=◌
  revoke_ok name by t response h =
      elim (Outcome-cases (S.revoke_by_name name by (w.now revoked_time) t.store).0) [
        | inl (x, e) ↦ record { by = by; done = e; after = rw e refl }
        | inr (not_found, e) ↦ absurd (ground arith)
        | inr (Store.key_name_in_use, e) ↦ absurd (ground arith)
        | inr (Store.creator_has_active_key, e) ↦ absurd (ground arith)
        | inr (Store.failure m, e) ↦ absurd (ground arith)
      ]

  revoke_as_ok :
      (k : Option ApiKey) (by : CreatedBy) (name : Text) (t : Server S) (response : Response)
      → (revoke_as p w k by name t).0 ≡ ok response
      → Revoked name t (revoke_as p w k by name t).1
  unfolding revoke_as
  revoke_as_ok k malformed name t response h = stop_ok _ t response h
  revoke_as_ok k (given by) name t response h = revoke_ok name by t response h
  revoke_as_ok none absent name t response h = absurd (unfold key_has_scope fail ◌>>=◌ in cc)
  revoke_as_ok (some key) absent name t response h =
      elim (Bool-cases (Store.has_scope key (codes "admin"))) [
        | inl e ↦
            unfold key_has_scope require pure ◌>>=◌ in
            simp e (revoke_ok name (pos 0) t response (rw e at h))
        | inr e ↦ absurd (unfold key_has_scope require stop fail pure ◌>>=◌ in ground arith)
      ]

-- The only active row of the name is the one that a revocation marks.
pub revoked_row :
    (name : Text) (by : ℤ) (time : ℕ) (rows : Rows) (h : Text) (k : ApiKey)
    → IsValid rows
    → lookup h rows ≡ some k
    → is_active k ≡ true
    → k.name ≡ name
    → (revoke_by_name name by time rows).0 ≡ ok tt
    → lookup h (revoke_by_name name by time rows).1 ≡ some (record k { revoked_at = some time })
revoked_row name by time rows h k v l a n d =
    elim (revoke_by_name_outcomes name by time rows v.nodup) [
      | inr (_, e) ↦ absurd (cc)
      | inl (h', k', l', a', n', _, _, after) ↦
          let same = v.one_name h' h k' k l' l a' a (n' ∙ sym n) in
          let row : k' ≡ k = some_inj (sym l' ∙ ap (λ x. lookup x rows) same ∙ l) in
          after h
          ∙ rw (test_of_eq same)
              (ap {A = ApiKey} (λ x. some (record x { revoked_at = some time })) row)
    ]

-- A key that was revoked opens nothing.
pub check_row_revoked :
    (p : Platform) {S : Store} (w : World) (got scope : Text) (row : ApiKey) (t : Server S)
    → t.enforce_api_key ≡ true
    → row.key_hash ≡ got
    → is_active row ≡ false
    → (check_row p w got scope row t).0 ≡ err revoked_api_key
unfolding check_row refuse
check_row_revoked p w got scope row t e h a = ground arith

module _ (p : Platform) (w : World) (r : Request) (name : Text)
    (s : Server (mem_store p.case_table)) where
  abbrev after_revoke : Server (mem_store p.case_table)
  after_revoke = (handle_revoke_key p w r name s).1

  after_ok :
      (response : Response)
      → (handle_revoke_key p w r name s).0 ≡ ok response
      → (t : Server (mem_store p.case_table)) × (t.store.api_keys ≡ s.store.api_keys)
        × Revoked p w name t after_revoke
  unfolding handle_revoke_key
  after_ok response h =
      let ((k, login), _, h1, q1) =
        steps_of_bind (authorize p w r (codes "write")) _ s response h in
      let kept =
        (authorize-Keeps p w
            (OfMaps-KeptByReads p.case_table
              (λ users nicknames api_keys. api_keys ≡ s.store.api_keys))
            (no_tokens p) r (codes "write")).at
          s (record { store = refl; tokens = any_tokens s.tokens }) in
      (
        (authorize p w r (codes "write") s).1,
        kept.store,
        rw (ap (λ x. x.1) q1) (revoke_as_ok p w k (created_by r) name _ response h1),
      )

  -- After a revocation that succeeds on a sound store, the active key that had the name is refused
  -- as revoked, whatever the route and the scope, by every server that enforces keys and has these
  -- API keys.
  pub revoked_key_refused :
      (response : Response) (k : ApiKey) (w' : World) (r' : Request) (scope : Text)
      (later : Server (mem_store p.case_table))
      → IsSound p.case_table s.store
      → (handle_revoke_key p w r name s).0 ≡ ok response
      → lookup (p.hash (api_key_of r')) s.store.api_keys ≡ some k
      → is_active k ≡ true
      → k.name ≡ name
      → api_key_of r' ≢ []
      → later.enforce_api_key ≡ true
      → later.store.api_keys ≡ after_revoke.store.api_keys
      → (authenticate_api_key p w' r' scope later).0 ≡ err revoked_api_key
  unfolding check_found get_by_hash
  revoked_key_refused response k w' r' scope later v h l a n presented e rows =
      let (t, same, done) = after_ok response h in
      let hash = p.hash (api_key_of r') in
      let marked =
        revoked_row name done.by (w.now revoked_time) s.store.api_keys hash k v.api_keys l a n (
          ap (λ x. (revoke_by_name name done.by (w.now revoked_time) x).0) (sym same)
          ∙ done.done) in
      let k' : ApiKey = record k { revoked_at = some (w.now revoked_time) } in
      let left : later.store.api_keys
          ≡ (revoke_by_name name done.by (w.now revoked_time) s.store.api_keys).1 =
        rows
        ∙ ap (λ x. x.store.api_keys) done.after
        ∙ ap (λ x. (revoke_by_name name done.by (w.now revoked_time) x).1) same in
      let found : (get_by_hash hash later.store.api_keys).0 ≡ ok k' =
        rw left (rw (marked, get_by_hash) refl) in
      rw (header_present p w' r' scope later presented, found, check_found)
        (check_row_revoked p w' hash scope k' _ e (v.api_keys.keyed hash k l) refl)
