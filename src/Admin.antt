-- ===== src/Admin.antt =====
-- cmd/admin: the command line tool of the operator, which works on the store directly.
pub mod Created
pub mod Revoked
pub mod Status
use s21_identity_service.Base.{
  ℕ, Bool, not, Option, none, some, List, [], ◌∷◌, map, ◌==◌, text_eq, if◌then◌else◌,
}
use s21_identity_service.Base.Int.{ℤ, pos, int_eq}
use s21_identity_service.Base.Exec.{Exec, Outcome, ok, err, pure, fail, lift, ◌>>=◌, ◌>>◌}
use s21_identity_service.Text.{Text, codes, trim_space}
use s21_identity_service.Store.{Time, Store, StoreError, ApiKey, is_active}
use s21_identity_service.Api.Platform.{Platform}
use s21_identity_service.Store.Scopes.{canonicalise_scopes}

pub record CreateFlags : Type 0 where
  pub name : Text
  pub scopes : Text
  pub created_by : ℤ

-- What one run of the tool meets: the flags of package `flag`, where the error is the exit status;
-- the variable YDB_ENDPOINT; the outputs of `yc iam create-token` with and without --format=json;
-- the field `iam_token` of a JSON text, none if it does not decode; whether `ydb.Open` accepts an
-- endpoint and a token; 32 random bytes; the clock; and whether the output is a terminal.
pub record Env : Type 0 where
  pub create_flags : List Text → Outcome ℕ CreateFlags
  pub list_flags : List Text → Outcome ℕ Bool
  pub revoke_flags : List Text → Outcome ℕ Text
  pub ydb_endpoint : Text
  pub yc_json : Outcome Text Text
  pub yc_plain : Outcome Text Text
  pub iam_token : Text → Option Text
  pub ydb_open : Text → Text → Outcome Text (Unit {0})
  pub random : Option Text
  pub now : Time
  pub is_terminal : Bool

-- The errors of a command, and an exit of the flag parser.
pub data AdminError : Type 0 where
  exited : ℕ → AdminError
  name_required endpoint_required generate_error : AdminError
  bad_scopes token_error open_error : Text → AdminError
  insert_error list_error : StoreError → AdminError
  revoke_error : Text → StoreError → AdminError

-- A line of the table: the owner is none for a dash, the status none for "active".
pub record Line : Type 0 where
  pub name : Text
  pub scopes : Text
  pub owner : Option ℤ
  pub created : Time
  pub revoked : Option Time

-- What a command prints; the key is in colour on a terminal.
pub data Output : Type 0 where
  usage unknown_command no_keys : Output
  new_key : Bool → Text → Text → Text → Output
  table : List Line → Output
  revoked : Text → Output

unfoldable pub generate_api_key : Platform → Env → Outcome AdminError Text
generate_api_key p env = elim env.random [
  | none ↦ err generate_error
  | some buf ↦ ok (p.base64 buf)
]

unfoldable pub hash_api_key : Platform → Text → Text
hash_api_key p plaintext = p.hash plaintext

-- The token inside the JSON envelope, or the whole output.
unfoldable pub token_in : Text → Option Text → Text
token_in out none = trim_space out
token_in out (some token) = if token == [] then trim_space out else token

abbrev trimmed : Outcome Text Text → Outcome Text Text
trimmed (err e) = err e
trimmed (ok out) = ok (trim_space out)

unfoldable pub fetch_iam_token : Env → Outcome Text Text
unfolding token_in
fetch_iam_token env = elim env.yc_json [
  | ok out ↦ ok (token_in out (env.iam_token out))
  | err _ ↦ trimmed env.yc_plain
]

abbrev opened : Outcome Text (Unit {0}) → Outcome AdminError (Unit {0})
opened (err e) = err (open_error e)
opened (ok _) = ok tt

-- The store that it opens is the state of the commands.
unfoldable pub open_store : Env → Outcome AdminError (Unit {0})
unfolding fetch_iam_token
open_store env =
    if env.ydb_endpoint == [] then err endpoint_required else elim (fetch_iam_token env) [
      | err e ↦ err (token_error e)
      | ok token ↦ opened (env.ydb_open env.ydb_endpoint token)
    ]

abbrev pub wrapped :
    {A : Type 0} → (StoreError → AdminError) → Outcome StoreError A → Outcome AdminError A
wrapped wrap (ok a) = ok a
wrapped wrap (err e) = err (wrap e)

abbrev pub parsed : {A : Type 0} → Outcome ℕ A → Outcome AdminError A
parsed (ok flags) = ok flags
parsed (err status) = err (exited status)

abbrev pub canonical : Text → Option Text → Outcome AdminError Text
canonical scopes none = err (bad_scopes scopes)
canonical scopes (some canon) = ok canon

abbrev pub name_given : Text → Outcome AdminError (Unit {0})
name_given name = if trim_space name == [] then err name_required else ok tt

unfoldable pub key_line : ApiKey → Line
key_line k = record {
  name = k.name;
  scopes = k.scopes;
  owner = if k.created_by_telegram_id == pos 0 then none else some k.created_by_telegram_id;
  created = k.created_at;
  revoked = k.revoked_at;
}

-- The rows that stay in the list.
unfoldable pub active_only : List ApiKey → List ApiKey
active_only [] = []
active_only (k ∷ rows) =
    let filtered = active_only rows in if is_active k then k ∷ filtered else filtered

abbrev pub shown : List ApiKey → Output
shown [] = no_keys
shown (k ∷ rows) = table (map key_line (k ∷ rows))

module _ (p : Platform) (env : Env) (S : Store) where
  abbrev pub Command : Type 0 → Type 0
  Command A = Exec S.State AdminError A

  -- A call of the store, whose error is wrapped.
  unfoldable pub store_call :
      {A : Type 0} → (StoreError → AdminError) → Exec S.State StoreError A → Command A
  store_call wrap m s = let (r, s') = m s in (wrapped wrap r, s')

  abbrev pub new_row : Text → Text → Text → ℤ → ApiKey
  new_row plaintext name scopes created_by = record {
    key_hash = hash_api_key p plaintext;
    name = name;
    scopes = scopes;
    created_at = env.now;
    revoked_at = none;
    created_by_telegram_id = created_by;
  }

  unfoldable pub run_create : List Text → Command Output
  unfolding generate_api_key hash_api_key open_store store_call
  run_create args = do
    flags ← lift (parsed (env.create_flags args))
    lift (name_given flags.name)
    canon ← lift (canonical flags.scopes (canonicalise_scopes flags.scopes))
    lift (open_store env)
    plaintext ← lift (generate_api_key p env)
    store_call insert_error (S.insert_key (new_row plaintext flags.name canon flags.created_by))
    pure (new_key env.is_terminal flags.name canon plaintext)

  unfoldable pub run_list : List Text → Command Output
  unfolding open_store store_call active_only key_line
  run_list args = do
    every ← lift (parsed (env.list_flags args))
    lift (open_store env)
    rows ← store_call list_error S.list_keys
    pure (shown (if not every then active_only rows else rows))

  unfoldable pub run_revoke : List Text → Command Output
  unfolding open_store store_call
  run_revoke args = do
    name ← lift (parsed (env.revoke_flags args))
    lift (name_given name)
    lift (open_store env)
    store_call (revoke_error name) (S.revoke_by_name name (pos 0) env.now)
    pure (revoked name)

  -- The exit status, what is printed, the error if there is one, and the store afterwards.
  pub record Result : Type 0 where
    pub status : ℕ
    pub printed : Option Output
    pub error : Option AdminError
    pub after : S.State

  unfoldable pub finished : Outcome AdminError Output × S.State → Result
  finished (ok out, s) = record { status = 0; printed = some out; error = none; after = s }
  finished (err (exited n), s) = record {
    status = n;
    printed = none;
    error = some (exited n);
    after = s;
  }
  finished (err e, s) = record { status = 1; printed = none; error = some e; after = s }

  -- `main`, on the arguments after the name of the program.
  unfoldable pub main : List Text → S.State → Result
  unfolding run_create run_list run_revoke finished
  main [] s = record { status = 2; printed = some usage; error = none; after = s }
  main (cmd ∷ args) s =
      if cmd == codes "create-key"
      then finished (run_create args s)
      else if cmd == codes "list-keys"
      then finished (run_list args s)
      else if cmd == codes "revoke-key"
      then finished (run_revoke args s)
      else if cmd == codes "-h"
      then record { status = 0; printed = some usage; error = none; after = s }
      else if cmd == codes "--help"
      then record { status = 0; printed = some usage; error = none; after = s }
      else if cmd == codes "help"
      then record { status = 0; printed = some usage; error = none; after = s }
      else record { status = 2; printed = some unknown_command; error = none; after = s }
