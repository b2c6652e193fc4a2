-- ===== src/Examples/Changes.antt =====
-- The theorems on requests that write, applied.
use s21_identity_service.Base.{
  ◌≡◌, refl, length, filter, ◌≤◌, ◌-◌, ◌*◌, some, true, [], ◌∷◌, text_eq,
}
use s21_identity_service.Base.Int.{pos, int_eq}
use s21_identity_service.Base.Map.{lookup, insert}
use s21_identity_service.Base.Exec.{ok, err, ◌>>=◌}
use s21_identity_service.Text.{codes, index_byte, split, trim_space}
use s21_identity_service.Text.Case.{ascii}
use s21_identity_service.Store.{ApiKey, is_active, has_scope}
use s21_identity_service.Store.Scopes
use s21_identity_service.TokenCache.Defs
use s21_identity_service.MemStore.{mem_store}
use s21_identity_service.MemStore.Tokens
use s21_identity_service.MemStore.Nicknames
use s21_identity_service.MemStore.Users
use s21_identity_service.MemStore.Keys
use s21_identity_service.MemStore.Keys.{get_by_hash, count_since}
use s21_identity_service.MemStore.Invariant.{IsSound, empty-IsSound}
use s21_identity_service.MemStore.Keys.Laws.{IsValid, insert-IsValid}
use s21_identity_service.Api.Models.{
  Request, Response, CreateKeyResponse, no_body, created_body, user_body, get_value,
}
use s21_identity_service.Api.Platform.{revoked_time}
use s21_identity_service.Api.Server
use s21_identity_service.Api.Server.{
  Server, AuthError, Stop, respond, panicked, write_json, write_auth_error, revoked_api_key,
  missing_api_key,
}
use s21_identity_service.Api.Auth.{
  authorize, authenticate, authenticate_api_key, parse_token, read_if_present,
}
use s21_identity_service.Api.Server.{invalid_token}
use s21_identity_service.Api.Users.{handle_put_by_telegram, handle_get_by_telegram}
use s21_identity_service.Api.Users.Stored.{put_then_get}
use s21_identity_service.Api.Keys.{
  handle_create_key, handle_list_keys, handle_revoke_key, created_by, key_create_rate_limit_window,
  key_create_rate_limit_max,
}
use s21_identity_service.Api.Keys.Created.{
  created_key_authenticates, created_keys_limited, created_since,
}
use s21_identity_service.Api.Keys.Revoked.{revoked_key_refused}
use s21_identity_service.Api.Keys.Zero.{zero_revokes_any}
use s21_identity_service.Examples.{platform, world, root, store, server, get_user, with_new_key}

abbrev new_key : CreateKeyResponse
new_key = record {
  key = codes "k2";
  name = codes "bot";
  scopes = codes "read,write";
  created_at = 2 * 3600 * 1000000000;
}

created :
    (handle_create_key platform world get_user server).0
    ≡ ok (write_json 201 (created_body new_key))
unfolding ◌>>=◌ authorize s21_identity_service.Api.Auth.or_respond text_eq get_value lookup
    Server.call_store get_by_hash split trim_space index_byte Defs.get Defs.new_with_max Tokens.get
    Server.require Server.decoded handle_create_key s21_identity_service.Api.Routes.valid_key_name
    Server.or_internal Keys.count_by_creator_since Keys.insert insert Scopes.allowed_scopes
    s21_identity_service.Api.Keys.or_bad_request int_eq
created = refl

created_key_authenticates_example :
    (row : ApiKey) × ((authenticate_api_key platform world with_new_key
        (codes "write")
        (handle_create_key platform world get_user server).1).0
      ≡ ok (some row))
    × (is_active row ≡ true)
    × (row.name ≡ codes "bot")
    × (row.scopes ≡ codes "read,write")
unfolding get_value has_scope lookup text_eq split trim_space
created_key_authenticates_example =
    created_key_authenticates platform world get_user server new_key world with_new_key
      (codes "write") created refl (λ q. cc) refl

created_keys_limited_example :
    length (
      filter
        (created_since (pos 7) (2 * 3600 * 1000000000 - 3600 * 1000000000))
        (handle_create_key platform world get_user server).1.store.api_keys)
    ≤ 10
created_keys_limited_example =
    created_keys_limited platform world get_user server (write_json 201 (created_body new_key))
      (record { name = codes "bot"; scopes = codes "write"; created_by_telegram_id = pos 7 })
      created refl (λ q. cc)

abbrev no_content : Response
no_content = record { status = 204; headers = []; body = no_body }

revoked : (handle_revoke_key platform world get_user (codes "root") server).0 ≡ ok no_content
unfolding ◌>>=◌ authorize s21_identity_service.Api.Auth.or_respond text_eq get_value lookup
    Server.call_store get_by_hash split trim_space index_byte Defs.get Defs.new_with_max Tokens.get
    Server.require Server.or_not_found handle_revoke_key Keys.revoke_by_name insert int_eq
revoked = refl

abbrev after_revocation : Server (mem_store ascii)
after_revocation = (handle_revoke_key platform world get_user (codes "root") server).1

store_IsSound : IsSound ascii store
unfolding Keys.insert insert
store_IsSound =
    let none_yet = empty-IsSound ascii in
    record {
      users = none_yet.users;
      nicknames = none_yet.nicknames;
      api_keys = insert-IsValid root [] none_yet.api_keys;
      token_cache = none_yet.token_cache;
    }

revoked_key_refused_example :
    (authenticate_api_key platform world get_user (codes "read") after_revocation).0
    ≡ err revoked_api_key
unfolding get_value lookup text_eq handle_revoke_key ◌>>=◌ authorize
    s21_identity_service.Api.Auth.or_respond Server.call_store get_by_hash split trim_space
    index_byte Defs.get Defs.new_with_max Tokens.get Server.require Server.or_not_found
    Keys.revoke_by_name int_eq
revoked_key_refused_example =
    revoked_key_refused platform world get_user (codes "root") server no_content root world get_user
      (codes "read") after_revocation store_IsSound revoked refl refl refl (λ q. cc) refl refl

abbrev stored_user : Response
stored_user = write_json 200 (
    user_body (record {
      telegram_id = pos 7;
      nickname = codes "evan";
      campus_id = codes "c1";
      campus_name = codes "Kazan";
      coalition_name = codes "Alpha";
      created_at = 2 * 3600 * 1000000000;
      updated_at = 2 * 3600 * 1000000000;
    }))

put : (handle_put_by_telegram platform world get_user (pos 7) server).0 ≡ ok stored_user
unfolding ◌>>=◌ authorize s21_identity_service.Api.Auth.or_respond text_eq get_value lookup
    Server.call_store get_by_hash split trim_space index_byte Defs.get Defs.new_with_max Tokens.get
    Server.require Server.decoded handle_put_by_telegram Nicknames.get Users.upsert Nicknames.upsert
    insert Server.or_internal s21_identity_service.Api.Models.user_from_store
put = refl

abbrev after_put : Server (mem_store ascii)
after_put = (handle_put_by_telegram platform world get_user (pos 7) server).1

put_then_get_example :
    (handle_get_by_telegram platform world get_user (pos 7) after_put).0 ≡ ok stored_user
unfolding ◌>>=◌ authorize s21_identity_service.Api.Auth.or_respond text_eq get_value lookup
    Server.call_store get_by_hash split trim_space index_byte Defs.get Defs.new_with_max Tokens.get
    Server.require Server.decoded handle_put_by_telegram Nicknames.get Users.upsert Nicknames.upsert
    insert Server.or_internal s21_identity_service.Api.Models.user_from_store Defs.put
put_then_get_example =
    put_then_get platform world get_user (pos 7) server stored_user world get_user
      (some root, codes "evan") put refl

-- A key without the scope admin, which revokes the key of the operator.
abbrev writer : ApiKey
writer = record root { key_hash = codes "k3"; name = codes "bot"; scopes = codes "read,write" }

abbrev two_keys : Server (mem_store ascii)
two_keys = record server {
  store = record store { api_keys = (codes "k1", root) ∷ (codes "k3", writer) ∷ [] };
}

abbrev revoke_zero : Request
revoke_zero = record get_user {
  query = (codes "created_by", codes "0" ∷ []) ∷ [];
  header = (codes "X-Api-Key", codes "k3" ∷ []) ∷ (codes "X-S21-Token", codes "evan:pw" ∷ []) ∷ [];
}

writer_let_through :
    (authorize platform world revoke_zero (codes "write") two_keys).0
    ≡ ok (some writer, codes "evan")
unfolding authorize ◌>>=◌ s21_identity_service.Api.Auth.or_respond text_eq get_value lookup
    Server.call_store get_by_hash split trim_space index_byte Defs.get Defs.new_with_max Tokens.get
writer_let_through = refl

two_keys-IsValid : IsValid two_keys.store.api_keys
unfolding Keys.insert insert lookup text_eq int_eq
two_keys-IsValid =
    insert-IsValid writer ((codes "k1", root) ∷ [])
      (insert-IsValid root [] (empty-IsSound ascii).api_keys)

zero_revokes_any_example :
    ((handle_revoke_key platform world revoke_zero (codes "root") two_keys).0 ≡ ok no_content)
    × (lookup
          (codes "k1")
          (handle_revoke_key platform world revoke_zero (codes "root") two_keys).1.store.api_keys
        ≡ some (record root { revoked_at = some (world.now revoked_time) }))
unfolding created_by get_value lookup text_eq s21_identity_service.Api.Routes.parse_int
zero_revokes_any_example =
    zero_revokes_any platform world revoke_zero (codes "root") two_keys (some writer, codes "evan")
      (codes "k1") root writer_let_through refl two_keys-IsValid refl refl refl
