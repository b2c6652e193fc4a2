-- ===== src/Api/Invariant.antt =====
-- Invariants of the server of pkg/api/server.go, from invariants of its store and its token cache.
pub mod Gate
pub mod Reads
pub mod Writes
pub mod Served
pub mod Memory
use s21_identity_service.Base.{ℕ, Option, none, some, List}
use s21_identity_service.Base.Int.{ℤ}
use s21_identity_service.Base.Exec.{Outcome, Exec}
use s21_identity_service.Base.Exec.Keeps.{Keeps}
use s21_identity_service.Text.{Text}
use s21_identity_service.Store.{
  Time, Store, User, NicknameCacheEntry, S21TokenCacheEntry, ApiKey, Repo,
}
use s21_identity_service.TokenCache.Defs
use s21_identity_service.TokenCache.Defs.{TokenCache}
use s21_identity_service.Api.Platform.{Platform}
use s21_identity_service.Api.Server.{Server, call_store, remember}

-- `Q` is kept by every read of the store, and by the writes of the durable token cache.
pub record KeptByReads (S : Store) (Q : S.State → Type 0) : Type 0 where
  pub get_by_telegram_id : (tid : ℤ) → Keeps Q (S.get_by_telegram_id tid)
  pub get_by_telegram_ids : (tids : List ℤ) → Keeps Q (S.get_by_telegram_ids tids)
  pub list_by_nickname : (nick : Text) → Keeps Q (S.list_by_nickname nick)
  pub get_nickname : (nick : Text) → Keeps Q (S.get_nickname nick)
  pub get_by_hash : (h : Text) → Keeps Q (S.get_by_hash h)
  pub list_keys : Keeps Q S.list_keys
  pub count_by_creator_since : (by : ℤ) (since : Time) → Keeps Q (S.count_by_creator_since by since)
  pub get_token : (h : Text) → Keeps Q (S.get_token h)
  pub upsert_token : (e : S21TokenCacheEntry) → Keeps Q (S.upsert_token e)

-- `Q` is kept by the writes of users, nicknames and API keys.
pub record KeptByWrites (S : Store) (Q : S.State → Type 0) : Type 0 where
  pub upsert_user : (u : User) → Keeps Q (S.upsert_user u)
  pub delete_user : (tid : ℤ) → Keeps Q (S.delete_user tid)
  pub upsert_nickname : (e : NicknameCacheEntry) → Keeps Q (S.upsert_nickname e)
  pub insert_key : (k : ApiKey) → Keeps Q (S.insert_key k)
  pub revoke_by_name :
      (name : Text) (by : ℤ) (time : Time) → Keeps Q (S.revoke_by_name name by time)

-- `R` is kept by the methods of the in-memory token cache that the server calls.
pub record KeptByTokens (p : Platform) (R : TokenCache → Type 0) : Type 0 where
  pub get : (now : Time) (token : Text) {c : TokenCache} → R c → R (Defs.get p.hash now token c).1
  pub put :
      (now : Time) (token login : Text) {c : TokenCache}
      → R c
      → R (Defs.put p.hash now token login c)

abbrev pub IfPresent : (TokenCache → Type 0) → Option TokenCache → Type 0
IfPresent R none = Unit
IfPresent R (some c) = R c

pub record Holds {S : Store} (Q : S.State → Type 0) (R : TokenCache → Type 0) (s : Server S)
    : Type 0 where
  pub store : Q s.store
  pub tokens : IfPresent R s.tokens

module _ {S : Store} {Q : S.State → Type 0} {R : TokenCache → Type 0} where
  pub call_store-Keeps :
      {E A : Type 0} (m : Repo S.State A)
      → Keeps Q m
      → Keeps {E = E} (Holds {S = S} Q R) (call_store m)
  unfolding call_store
  call_store-Keeps m k = record {
    at = λ s h. record { store = k.at s.store h.store; tokens = h.tokens };
  }
