-- ===== src/Examples/Requests.antt =====
-- The theorems on requests, applied.
use s21_identity_service.Base.{◌≡◌, ◌≢◌, refl, ◌⊎◌, none, some, List, [], ◌∷◌, ◌++◌, Has, text_eq}
use s21_identity_service.Base.Int.{pos, int_eq}
use s21_identity_service.Base.Map.{lookup}
use s21_identity_service.Base.Exec.{ok, err, ◌>>=◌}
use s21_identity_service.Text.{Text, codes, index_byte, split, trim_space}
use s21_identity_service.Text.Case.{ascii}
use s21_identity_service.Store.{ApiKey, has_scope}
use s21_identity_service.TokenCache.Defs
use s21_identity_service.TokenCache.Refines.{IsCache}
use s21_identity_service.TokenCache.Writes.{new_with_max-IsCache}
use s21_identity_service.MemStore.{MemStore, mem_store, empty}
use s21_identity_service.MemStore.Tokens
use s21_identity_service.MemStore.Keys.{get_by_hash}
use s21_identity_service.MemStore.Invariant.{IsSound}
use s21_identity_service.MemStore.Reads.{OfMaps-KeptByReads}
use s21_identity_service.Api.Models.{Request, Response, get_value}
use s21_identity_service.Api.Server
use s21_identity_service.Api.Server.{
  Server, AuthError, Stop, respond, panicked, write_json, write_auth_error, revoked_api_key,
  missing_api_key,
}
use s21_identity_service.Api.Auth.{authorize, authenticate, authenticate_api_key, read_if_present}
use s21_identity_service.Api.Auth.Keys.{
  Granted, authenticate_api_key_sound, authenticate_api_key_complete,
}
use s21_identity_service.Api.Auth.Tokens.{authenticate_sound, DurableRow, AcceptedByS21, token_of}
use s21_identity_service.S21.{invalid_credentials}
use s21_identity_service.Api.Platform.{World}
use s21_identity_service.Api.Server.{invalid_token}
use s21_identity_service.Api.Auth.Failures.{failures_not_cached}
use s21_identity_service.Api.Auth.Gate.{authorize_sound}
use s21_identity_service.Api.Keys.{handle_list_keys, handle_revoke_key, created_by}
use s21_identity_service.Api.Serve.{serve_http}
use s21_identity_service.Api.Redact.{IsSensitive, redact_headers, lookup-redact_headers}
use s21_identity_service.Api.Invariant.{Holds}
use s21_identity_service.Api.Invariant.Served.{serve_all}
use s21_identity_service.Api.Invariant.Memory.{served_from_new, caches-IsCache}
use s21_identity_service.Api.Guarded.{write_needs_scope}
use s21_identity_service.Api.Panics.{serve_http_responds, dry_run_panics}
use s21_identity_service.Examples.{
  platform, world, root, rows, store, server, dry_server, get_user, keyless,
}

root-Granted : Granted platform (mem_store ascii) get_user (codes "write") store root
unfolding get_value lookup text_eq get_by_hash has_scope split trim_space
root-Granted = record {
  presented = λ q. cc;
  found = refl;
  hashed = refl;
  active = refl;
  scoped = λ _. refl;
}

authenticate_api_key_sound_example :
    (row : ApiKey) × (some root ≡ some row)
    × Granted platform (mem_store ascii) get_user (codes "write") store row
authenticate_api_key_sound_example =
    authenticate_api_key_sound platform world get_user (codes "write") server (some root) refl (
      authenticate_api_key_complete platform world get_user (codes "write") server root
        root-Granted)

accepted : (authenticate platform world get_user server).0 ≡ ok (codes "evan")
unfolding authenticate get_value lookup text_eq ◌>>=◌ index_byte Defs.get Defs.new_with_max
    Server.call_store Tokens.get
accepted = refl

authenticate_sound_example :
    (password : Text) × (token_of get_user ≡ codes "evan" ++ b':' ∷ password)
    × ¬ Has b':' (codes "evan")
    × (codes "evan" ≢ [])
    × (password ≢ [])
    × (((read_if_present platform world (token_of get_user) server.tokens).0 ≡ some (codes "evan"))
        ⊎ (DurableRow platform (mem_store ascii) world (token_of get_user) (codes "evan") store
            ⊎ AcceptedByS21 world (codes "evan") password))
authenticate_sound_example =
    authenticate_sound platform world get_user server (codes "evan") accepted

let_through :
    (authorize platform world get_user (codes "write") server).0 ≡ ok (some root, codes "evan")
unfolding authorize ◌>>=◌ s21_identity_service.Api.Auth.or_respond text_eq get_value lookup
    Server.call_store get_by_hash split trim_space index_byte Defs.get Defs.new_with_max Tokens.get
let_through = refl

authorize_sound_example :
    (row : ApiKey) × ((some root ≡ some row)
      × (Granted platform (mem_store ascii) get_user (codes "write") store row
          × ((authenticate platform world get_user
                (authenticate_api_key platform world get_user (codes "write") server).1).0
              ≡ ok (codes "evan"))))
authorize_sound_example =
    authorize_sound platform world get_user (codes "write") server (some root) (codes "evan") refl
      let_through

keyless_denied :
    (row : ApiKey) → ¬ Granted platform (mem_store ascii) keyless (codes "write") store row
unfolding get_value lookup text_eq
keyless_denied row g = g.presented refl

-- A property of the API keys that reads keep: they are the rows at the start.
abbrev SameKeys : MemStore → Type 0
SameKeys m = m.api_keys ≡ rows

abbrev delete_user : Request
delete_user = record keyless { method = codes "DELETE" }

write_needs_scope_example :
    Holds {S = mem_store ascii} SameKeys IsCache (serve_http platform world keyless server).1
unfolding Defs.new_with_max
write_needs_scope_example =
    write_needs_scope platform world
      (OfMaps-KeptByReads ascii (λ users nicknames api_keys. api_keys ≡ rows))
      (caches-IsCache platform) keyless server refl keyless_denied
      (record { store = refl; tokens = (new_with_max-IsCache 100 (pos 2)).0 })

serve_http_responds_example :
    (x : Response) × ((serve_http platform world delete_user server).0 ≡ some x)
serve_http_responds_example = serve_http_responds platform world delete_user server refl

dry_run_panics_example :
    ((handle_revoke_key platform world keyless (codes "root") dry_server).0 ≡ err panicked)
    × ((handle_list_keys platform world keyless dry_server).0 ≡ err panicked)
unfolding created_by get_value lookup text_eq authenticate ◌>>=◌ index_byte Defs.get
    Defs.new_with_max Server.call_store Tokens.get
dry_run_panics_example =
    dry_run_panics platform world keyless dry_server (codes "root") (codes "evan") refl refl refl
      refl

served_from_new_example :
    Holds {S = mem_store ascii}
      (IsSound ascii)
      IsCache
      (serve_all platform ((world, get_user) ∷ []) (Server.new {S = mem_store ascii} empty))
served_from_new_example = served_from_new platform ((world, get_user) ∷ [])

lookup-redact_headers_example :
    ((lookup (codes "X-Api-Key") get_user.header ≡ none)
      → lookup (codes "X-Api-Key") (redact_headers ascii get_user.header) ≡ none)
    × ((values : List Text)
        → lookup (codes "X-Api-Key") get_user.header ≡ some values
        → (IsSensitive ascii (codes "X-Api-Key")
            → lookup (codes "X-Api-Key") (redact_headers ascii get_user.header)
              ≡ some (codes "[REDACTED]" ∷ []))
          × (¬ IsSensitive ascii (codes "X-Api-Key")
              → lookup (codes "X-Api-Key") (redact_headers ascii get_user.header) ≡ some values))
unfolding lookup text_eq
lookup-redact_headers_example =
    lookup-redact_headers ascii get_user.header (codes "X-Api-Key") (refl, (refl, tt))

-- S21 rejects the credentials.
abbrev rejecting : World
rejecting = record world { s21_authenticate = λ login password. err invalid_credentials }

rejected : (authenticate platform rejecting get_user server).0 ≡ err invalid_token
unfolding authenticate get_value lookup text_eq ◌>>=◌ index_byte Defs.get Defs.new_with_max
    Server.call_store Tokens.get
rejected = refl

failures_not_cached_example :
    ((authenticate platform rejecting get_user server).1 ≡ server)
    ⊎ ((authenticate platform rejecting get_user server).1 ≡ record server {
      store = ((mem_store ascii).get_token (codes "evan:pw") store).1;
      tokens = (read_if_present platform rejecting (token_of get_user) server.tokens).1;
    })
unfolding get_value lookup text_eq
failures_not_cached_example =
    failures_not_cached platform rejecting get_user server invalid_token rejected
