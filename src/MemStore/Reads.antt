-- ===== src/MemStore/Reads.antt =====
-- What the reads of pkg/store/memstore/memstore.go leave alone: everything but the token cache, which
-- the server writes on its way through a read.
use s21_identity_service.Base.{text_eq, Option-cases, inl, inr}
use s21_identity_service.Base.Int.{ℤ, int_eq}
use s21_identity_service.Base.Map.{Map, lookup}
use s21_identity_service.Text.{Text}
use s21_identity_service.Text.Case.{CaseTable, to_lower}
use s21_identity_service.Store.{User, NicknameCacheEntry, ApiKey}
use s21_identity_service.MemStore.{MemStore, mem_store}
use s21_identity_service.MemStore.Users
use s21_identity_service.MemStore.Nicknames
use s21_identity_service.MemStore.Keys
use s21_identity_service.Api.Invariant.{KeptByReads}

-- A property of the maps of users, nicknames and API keys.
abbrev pub OfMaps :
    (Map ℤ User → Map Text NicknameCacheEntry → Map Text ApiKey → Type 0) → MemStore → Type 0
OfMaps Q m = Q m.users m.nicknames m.api_keys

pub OfMaps-KeptByReads :
    (table : CaseTable) (Q : Map ℤ User → Map Text NicknameCacheEntry → Map Text ApiKey → Type 0)
    → KeptByReads (mem_store table) (OfMaps Q)
unfolding Users.get_by_telegram_id Users.get_by_telegram_ids Users.list_by_nickname Nicknames.get
    Keys.get_by_hash Keys.list Keys.count_by_creator_since
OfMaps-KeptByReads table Q = record {
  get_by_telegram_id = λ tid. record {
    at = λ m i. elim (Option-cases (lookup tid m.users)) [
      | inl e ↦ rw (e, Users.get_by_telegram_id) i
      | inr (u, e) ↦ rw (e, Users.get_by_telegram_id) i
    ];
  };
  get_by_telegram_ids = λ tids. record { at = λ m i. i };
  list_by_nickname = λ nick. record { at = λ m i. i };
  get_nickname = λ nick. record {
    at = λ m i. elim (Option-cases (lookup (to_lower table nick) m.nicknames)) [
      | inl e ↦ rw (e, Nicknames.get) i
      | inr (u, e) ↦ rw (e, Nicknames.get) i
    ];
  };
  get_by_hash = λ h. record {
    at = λ m i. elim (Option-cases (lookup h m.api_keys)) [
      | inl e ↦ rw (e, Keys.get_by_hash) i
      | inr (u, e) ↦ rw (e, Keys.get_by_hash) i
    ];
  };
  list_keys = record { at = λ m i. i };
  count_by_creator_since = λ by since. record { at = λ m i. i };
  get_token = λ h. record { at = λ m i. i };
  upsert_token = λ e. record { at = λ m i. i };
}
