-- ===== src/Examples/Tools.antt =====
-- The theorems on the command line tool, applied.
use s21_identity_service.Base.{
  ℕ, ◌+◌, ◌^◌, ◌≤◌, ◌<◌, ◌≡◌, ◌≢◌, refl, ◌⊎◌, ◌↔◌, inl, inr, Bool, true, false, none, some, List,
  [], ◌∷◌, Has, arith, ◌==◌, text_eq,
}
use s21_identity_service.Base.Map.{lookup}
use s21_identity_service.Base.Int.{pos, int_eq}
use s21_identity_service.Base.Exec.{ok, err, ◌>>=◌}
use s21_identity_service.Text.{Text, codes}
use s21_identity_service.Text.Case.{ascii}
use s21_identity_service.Store.{Store, StoreError, failure, key_name_in_use, ApiKey, is_active}
use s21_identity_service.MemStore.{mem_store}
use s21_identity_service.YdbStore.{ydb_store}
use s21_identity_service.Api.Models.{get_value}
use s21_identity_service.Api.Server.{Server, internal, revoked_api_key}
use s21_identity_service.Api.Auth.{authenticate_api_key}
use s21_identity_service.Admin.{
  Env, CreateFlags, Output, Line, new_key, revoked, run_create, run_revoke, run_list, key_line,
  open_store,
}
use s21_identity_service.Admin.Created.{cli_key_authenticates}
use s21_identity_service.Admin.Revoked.{cli_revoked_key_refused}
use s21_identity_service.Admin.Status.{run_list_lines, lines_of}
use s21_identity_service.Examples.{platform, world, with_new_key, get_user, store, root}
use s21_identity_service.Examples.Ydb.{ydb, ydb-IsYdb, option_eq, first_active}
use s21_identity_service.Examples.Tables.{tables, now, stored_key, tables-IsValidTable}

abbrev flags : CreateFlags
flags = record { name = codes "bot"; scopes = codes "write"; created_by = pos 8 }

abbrev env : Env
env = record {
  create_flags = λ args. ok flags;
  list_flags = λ args. ok false;
  revoke_flags = λ args. ok (codes "bot");
  ydb_endpoint = codes "grpcs://ydb";
  yc_json = ok (codes "{}");
  yc_plain = err (codes "no yc");
  iam_token = λ out. some (codes "t1");
  ydb_open = λ endpoint token. ok tt;
  random = some (codes "k2");
  now = now;
  is_terminal = false;
}

abbrev cloud : Store
cloud = ydb_store ydb ascii now

abbrev after : cloud.State
after = (run_create platform env cloud [] tables).1

abbrev cloud_server : Server cloud
cloud_server = record { enforce_api_key = true; enforce_https = true; store = after; tokens = none }

minted :
    (run_create platform env cloud [] tables).0
    ≡ ok (new_key false (codes "bot") (codes "read,write") (codes "k2"))
unfolding run_create ◌>>=◌ text_eq s21_identity_service.Text.trim_space
    s21_identity_service.Store.Scopes.canonicalise_scopes s21_identity_service.YdbStore.Keys.insert
    s21_identity_service.YdbStore.Session.do_tx s21_identity_service.YdbStore.Session.no_row
    first_active lookup int_eq option_eq s21_identity_service.YdbStore.Columns.uint64_of
minted = refl

cli_key_authenticates_example :
    ((row : ApiKey) × ((authenticate_api_key platform world with_new_key
          (codes "read")
          cloud_server).0
        ≡ ok (some row))
      × (row.name ≡ codes "bot")
      × (row.scopes ≡ codes "read,write")
      × (row.created_by_telegram_id ≡ pos 8))
    ⊎ ((authenticate_api_key platform world with_new_key (codes "read") cloud_server).0
        ≡ err internal)
unfolding get_value lookup text_eq s21_identity_service.Store.Scopes.has_scope_in
    s21_identity_service.Text.split s21_identity_service.Text.trim_space
cli_key_authenticates_example =
    cli_key_authenticates platform env ydb-IsYdb ascii now tables [] flags (codes "bot")
      (codes "read,write") (codes "k2") minted refl (omega arith) (omega arith, omega arith) world
      with_new_key (codes "read") cloud_server refl refl (λ e. cc) refl

abbrev retiring : Env
retiring = record env { revoke_flags = λ args. ok (codes "root") }

abbrev left : cloud.State
left = (run_revoke platform retiring cloud [] tables).1

abbrev emptied : Server cloud
emptied = record cloud_server { store = left }

withdrawn : (run_revoke platform retiring cloud [] tables).0 ≡ ok (revoked (codes "root"))
unfolding run_revoke ◌>>=◌ text_eq s21_identity_service.Text.trim_space
    s21_identity_service.YdbStore.Keys.revoke_by_name s21_identity_service.YdbStore.Session.do_tx
    s21_identity_service.YdbStore.Session.first_row first_active lookup int_eq option_eq
withdrawn = refl

cli_revoked_key_refused_example :
    ((authenticate_api_key platform world get_user (codes "read") emptied).0 ≡ err revoked_api_key)
    ⊎ ((authenticate_api_key platform world get_user (codes "read") emptied).0 ≡ err internal)
unfolding get_value lookup text_eq
cli_revoked_key_refused_example =
    cli_revoked_key_refused platform retiring ydb-IsYdb ascii now tables tables-IsValidTable []
      (revoked (codes "root")) (codes "root") stored_key withdrawn refl world get_user
      (codes "read") emptied refl refl (λ e. cc) refl refl refl

run_list_lines_example :
    (out : Output) × (run_list platform env (mem_store ascii) [] store ≡ (ok out, store))
    × ((line : Line)
        → Has line (lines_of out) ↔ (
            (k : ApiKey) × Has k (root ∷ [])
            × ((◌≡◌ {A = Bool} false true) ⊎ (is_active k ≡ true))
            × (key_line k ≡ line)))
unfolding open_store text_eq s21_identity_service.MemStore.Keys.list
    s21_identity_service.Base.Sort.sort
run_list_lines_example =
    run_list_lines platform env (mem_store ascii) store [] false (root ∷ []) refl refl refl
