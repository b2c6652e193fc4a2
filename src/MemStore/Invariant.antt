-- ===== src/MemStore/Invariant.antt =====
-- The invariant of the store in memory, pkg/store/memstore/memstore.go, for the server's calls.
use s21_identity_service.Base.{text_eq, Option-cases, inl, inr}
use s21_identity_service.Base.Int.{int_eq}
use s21_identity_service.Base.Map.{lookup, IsKeyed, insert-IsKeyed, erase-IsKeyed}
use s21_identity_service.Text.Case.{CaseTable, to_lower}
use s21_identity_service.MemStore.{MemStore, mem_store, empty}
use s21_identity_service.MemStore.Users
use s21_identity_service.MemStore.Nicknames
use s21_identity_service.MemStore.Tokens
use s21_identity_service.MemStore.Keys
use s21_identity_service.MemStore.Keys.Laws
use s21_identity_service.MemStore.Keys.Laws.{insert-IsValid, revoke_by_name-IsValid}
use s21_identity_service.Api.Invariant.{KeptByReads, KeptByWrites}

-- Each map has its rows under their own keys, and the API keys are valid.
pub record IsSound (table : CaseTable) (m : MemStore) : Type 0 where
  pub users : IsKeyed (λ u. u.telegram_id) m.users
  pub nicknames : IsKeyed (λ e. to_lower table e.nickname) m.nicknames
  pub api_keys : Laws.IsValid m.api_keys
  pub token_cache : IsKeyed (λ e. e.token_hash) m.token_cache

pub empty-IsSound : (table : CaseTable) → IsSound table empty
empty-IsSound table = record {
  users = record { nodup = tt; keyed = λ k v l. unfold lookup in absurd (cc) };
  nicknames = record { nodup = tt; keyed = λ k v l. unfold lookup in absurd (cc) };
  token_cache = record { nodup = tt; keyed = λ k v l. unfold lookup in absurd (cc) };
  api_keys = record {
    nodup = tt;
    keyed = λ k v l. unfold lookup in absurd (cc);
    one_name = λ h h' k k' l. unfold lookup in absurd (cc);
    one_key = λ h h' k k' l. unfold lookup in absurd (cc);
  };
}

module _ (table : CaseTable) where
  abbrev Q : MemStore → Type 0
  Q = IsSound table

  pub reads-IsSound : KeptByReads (mem_store table) (IsSound table)
  unfolding Users.get_by_telegram_id Users.get_by_telegram_ids Users.list_by_nickname Nicknames.get
      Keys.get_by_hash Keys.list Keys.count_by_creator_since Tokens.get Tokens.upsert
  reads-IsSound = record {
    get_by_telegram_id = λ tid. record {
      at = λ m i. elim (Option-cases (lookup tid m.users)) [
        | inl e ↦ rw (e, Users.get_by_telegram_id) i
        | inr (u, e) ↦ rw (e, Users.get_by_telegram_id) i
      ];
    };
    get_by_telegram_ids = λ tids. record { at = λ m i. i };
    list_by_nickname = λ nick. record { at = λ m i. i };
    get_nickname = λ nick. record {
      at = λ m i. elim (Option-cases (lookup (to_lower table nick) m.nicknames)) [
        | inl e ↦ rw (e, Nicknames.get) i
        | inr (u, e) ↦ rw (e, Nicknames.get) i
      ];
    };
    get_by_hash = λ h. record {
      at = λ m i. elim (Option-cases (lookup h m.api_keys)) [
        | inl e ↦ rw (e, Keys.get_by_hash) i
        | inr (u, e) ↦ rw (e, Keys.get_by_hash) i
      ];
    };
    list_keys = record { at = λ m i. i };
    count_by_creator_since = λ by since. record { at = λ m i. i };
    get_token = λ h. record {
      at = λ m i. elim (Option-cases (lookup h m.token_cache)) [
        | inl e ↦ rw (e, Tokens.get) i
        | inr (u, e) ↦ rw (e, Tokens.get) i
      ];
    };
    upsert_token = λ e. record {
      at = λ m i. record {
        users = i.users;
        nicknames = i.nicknames;
        api_keys = i.api_keys;
        token_cache = insert-IsKeyed (λ x. x.token_hash) e m.token_cache i.token_cache;
      };
    };
  }

  pub writes-IsSound : KeptByWrites (mem_store table) (IsSound table)
  unfolding Users.upsert Users.delete Nicknames.upsert
  writes-IsSound = record {
    upsert_user = λ u. record {
      at = λ m i. record {
        users = insert-IsKeyed (λ x. x.telegram_id) _ m.users i.users;
        nicknames = i.nicknames;
        api_keys = i.api_keys;
        token_cache = i.token_cache;
      };
    };
    delete_user = λ tid. record {
      at = λ m i. elim (Option-cases (lookup tid m.users)) [
        | inl e ↦ rw (e, Users.delete) i
        | inr (u, e) ↦
            rw (e, Users.delete)
              (record {
                users = erase-IsKeyed (λ x. x.telegram_id) tid m.users i.users;
                nicknames = i.nicknames;
                api_keys = i.api_keys;
                token_cache = i.token_cache;
              })
      ];
    };
    upsert_nickname = λ e. record {
      at = λ m i. record {
        users = i.users;
        nicknames = insert-IsKeyed (λ x. to_lower table x.nickname) e m.nicknames i.nicknames;
        api_keys = i.api_keys;
        token_cache = i.token_cache;
      };
    };
    insert_key = λ k. record {
      at = λ m i. record {
        users = i.users;
        nicknames = i.nicknames;
        api_keys = insert-IsValid k m.api_keys i.api_keys;
        token_cache = i.token_cache;
      };
    };
    revoke_by_name = λ name by time. record {
      at = λ m i. record {
        users = i.users;
        nicknames = i.nicknames;
        api_keys = revoke_by_name-IsValid name by time m.api_keys i.api_keys;
        token_cache = i.token_cache;
      };
    };
  }
