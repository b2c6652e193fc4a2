-- ===== src/Examples.antt =====
-- A small server, a world and some requests, on which the theorems are applied.
pub mod Caches
pub mod Rows
pub mod Scopes
pub mod Requests
pub mod Changes
pub mod Ydb
pub mod Tables
pub mod Clients
pub mod Tools
pub mod Events
use s21_identity_service.Base.{ℕ, ◌*◌, Bool, true, false, Option, none, some, List, [], ◌∷◌}
use s21_identity_service.Base.Int.{ℤ, pos}
use s21_identity_service.Base.Map.{Map}
use s21_identity_service.Base.Exec.{ok, err}
use s21_identity_service.Text.{Text, codes}
use s21_identity_service.Text.Case.{ascii}
use s21_identity_service.Store.{Store, User, ApiKey}
use s21_identity_service.S21.{Profile, invalid_credentials}
use s21_identity_service.TokenCache.Defs
use s21_identity_service.TokenCache.Defs.{TokenCache}
use s21_identity_service.MemStore.{MemStore, mem_store}
use s21_identity_service.Api.Models.{Request, Values}
use s21_identity_service.Api.Platform.{Platform, World}
use s21_identity_service.Api.Server.{Server}

abbrev pub platform : Platform
platform = record {
  hash = λ t. t;
  base64 = λ t. t;
  case_table = ascii;
  decode_batch = λ _. none;
  decode_put = λ _. some (record { nickname = codes "Evan" });
  decode_create = λ _.
      some (record { name = codes "bot"; scopes = codes "write"; created_by_telegram_id = pos 7 });
}

abbrev pub evan : Profile
evan = record {
  login = codes "evan";
  campus_id = codes "c1";
  campus_name = codes "Kazan";
  coalition_name = codes "Alpha";
}

-- Two hours after the zero time; S21 accepts every password.
abbrev pub world : World
world = record {
  now = λ _. 2 * 3600 * 1000000000;
  s21_authenticate = λ login password. ok evan;
  s21_lookup = λ login password nick. ok evan;
  random = some (codes "k2");
}

abbrev pub root : ApiKey
root = record {
  key_hash = codes "k1";
  name = codes "root";
  scopes = codes "read,write,admin";
  created_at = 1;
  revoked_at = none;
  created_by_telegram_id = pos 0;
}

abbrev pub rows : Map Text ApiKey
rows = (codes "k1", root) ∷ []

abbrev pub store : MemStore
store = record { users = []; nicknames = []; api_keys = rows; token_cache = [] }

abbrev pub cache : TokenCache
cache = Defs.new_with_max 100 (pos 2)

abbrev pub server : Server (mem_store ascii)
server = record {
  enforce_api_key = true;
  enforce_https = false;
  store = store;
  tokens = some cache;
}

abbrev pub dry_server : Server (mem_store ascii)
dry_server = record server { enforce_api_key = false }

abbrev pub header : Values
header = (codes "X-Api-Key", codes "k1" ∷ []) ∷ (codes "X-S21-Token", codes "evan:pw" ∷ []) ∷ []

abbrev pub get_user : Request
get_user = record {
  method = codes "GET";
  path = codes "/users/by_telegram/7";
  query = [];
  header = header;
  tls = true;
  body = [];
}

-- The same without an API key, and with the key that `world` makes.
abbrev pub keyless : Request
keyless = record get_user { header = (codes "X-S21-Token", codes "evan:pw" ∷ []) ∷ [] }

abbrev pub with_new_key : Request
with_new_key = record get_user {
  header = (codes "X-Api-Key", codes "k2" ∷ []) ∷ (codes "X-S21-Token", codes "evan:pw" ∷ []) ∷ [];
}
