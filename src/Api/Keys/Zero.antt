-- ===== src/Api/Keys/Zero.antt =====
-- The query `created_by=0` on the routes under /admin/keys of pkg/api/server.go.
use s21_identity_service.Base.{ℕ, ◌≡◌, refl, ◌∙◌, ap, inl, inr, Option, some, true, [], text_eq}
use s21_identity_service.Base.Int.{pos}
use s21_identity_service.Base.Map.{lookup, NodupKeys}
use s21_identity_service.Base.Exec.{ok, pure, fail, ◌>>=◌, bind_ok, Outcome-cases}
use s21_identity_service.Text.{Text, codes}
use s21_identity_service.Store.{ApiKey, is_active, not_found}
use s21_identity_service.Store
use s21_identity_service.MemStore.{mem_store}
use s21_identity_service.MemStore.Keys.{revoke_by_name}
use s21_identity_service.MemStore.Keys.Laws.{Rows, IsValid, revoke_by_name_outcomes}
use s21_identity_service.MemStore.Reads.{OfMaps-KeptByReads}
use s21_identity_service.Api.Models.{Request, no_body}
use s21_identity_service.Api.Platform.{Platform, World, revoked_time}
use s21_identity_service.Api.Server.{Server, call_store, or_not_found, stop}
use s21_identity_service.Api.Auth.{authorize}
use s21_identity_service.Api.Keys.{given, created_by, revoke, revoke_as, handle_revoke_key}
use s21_identity_service.Api.Invariant.Gate.{authorize-Keeps}
use s21_identity_service.Api.Keys.Revoked.{revoked_row}
use s21_identity_service.Api.Users.Stored.{no_tokens, any_tokens}

any_owner :
    (name : Text) (time : ℕ) (rows : Rows) (h : Text) (k : ApiKey)
    → NodupKeys rows
    → lookup h rows ≡ some k
    → is_active k ≡ true
    → k.name ≡ name
    → (revoke_by_name name (pos 0) time rows).0 ≡ ok tt
any_owner name time rows h k u l a n = elim (revoke_by_name_outcomes name (pos 0) time rows u) [
  | inl (_, _, _, _, _, _, done, _) ↦ done
  | inr (none_fits, _) ↦ absurd ((none_fits h k l a n).0 refl)
]

leaves :
    (p : Platform) (w : World) (name : Text) (t : Server (mem_store p.case_table)) (h : Text)
    → lookup h (revoke p w name (pos 0) t).1.store.api_keys
      ≡ lookup h (revoke_by_name name (pos 0) (w.now revoked_time) t.store.api_keys).1
unfolding revoke call_store or_not_found pure stop fail ◌>>=◌
leaves p w name t h =
    elim (Outcome-cases (revoke_by_name name (pos 0) (w.now revoked_time) t.store.api_keys).0) [
      | inl (x, e) ↦ rw e refl
      | inr (not_found, e) ↦ rw e refl
      | inr (Store.key_name_in_use, e) ↦ rw e refl
      | inr (Store.creator_has_active_key, e) ↦ rw e refl
      | inr (Store.failure m, e) ↦ rw e refl
    ]

finishes :
    (p : Platform) (w : World) (name : Text) (t : Server (mem_store p.case_table))
    → (revoke_by_name name (pos 0) (w.now revoked_time) t.store.api_keys).0 ≡ ok tt
    → (revoke p w name (pos 0) t).0 ≡ ok (record { status = 204; headers = []; body = no_body })
unfolding revoke call_store or_not_found pure ◌>>=◌
finishes p w name t done = rw done refl

-- Whatever the scopes of its key, a caller who is let through for writing and passes `created_by=0`
-- revokes any active key by its name, whoever owns it, if the rows are valid: the answer is 204,
-- and the row of the key is marked as revoked at the time of the request.
pub zero_revokes_any :
    (p : Platform) (w : World) (r : Request) (name : Text) (s : Server (mem_store p.case_table))
    (caller : Option ApiKey × Text) (h : Text) (k : ApiKey)
    → (authorize p w r (codes "write") s).0 ≡ ok caller
    → created_by r ≡ given (pos 0)
    → IsValid s.store.api_keys
    → lookup h s.store.api_keys ≡ some k
    → is_active k ≡ true
    → k.name ≡ name
    → ((handle_revoke_key p w r name s).0
        ≡ ok (record { status = 204; headers = []; body = no_body }))
      × (lookup h (handle_revoke_key p w r name s).1.store.api_keys
          ≡ some (record k { revoked_at = some (w.now revoked_time) }))
unfolding handle_revoke_key
zero_revokes_any p w r name s caller h k let_through zero v l a n =
    let t : Server (mem_store p.case_table) = (authorize p w r (codes "write") s).1 in
    let at = w.now revoked_time in
    let kept =
      (authorize-Keeps p w
          (OfMaps-KeptByReads p.case_table
            (λ users nicknames api_keys. api_keys ≡ s.store.api_keys))
          (no_tokens p) r (codes "write")).at
        s (record { store = refl; tokens = any_tokens s.tokens }) in
    let made = any_owner name at s.store.api_keys h k v.nodup l a n in
    let done : (revoke_by_name name (pos 0) at t.store.api_keys).0 ≡ ok tt = rw kept.store made in
    let marked : lookup h (revoke_by_name name (pos 0) at t.store.api_keys).1
        ≡ some (record k { revoked_at = some at }) =
      rw kept.store (revoked_row name (pos 0) at s.store.api_keys h k v l a n made) in
    let whole : handle_revoke_key p w r name s ≡ revoke p w name (pos 0) t =
      bind_ok (authorize p w r (codes "write")) _ s caller let_through
      ∙ rw (zero, revoke_as) refl in
    (
      ap (λ x. x.0) whole ∙ finishes p w name t done,
      ap (λ x. lookup h x.1.store.api_keys) whole ∙ leaves p w name t h ∙ marked,
    )
