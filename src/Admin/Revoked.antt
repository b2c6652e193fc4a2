-- ===== src/Admin/Revoked.antt =====
-- A key that `runRevoke` of cmd/admin/main.go has revoked, at the server of pkg/api/server.go.
use s21_identity_service.Base.{
  ◌≡◌, ◌≢◌, refl, sym, ◌∙◌, ap, ◌⊎◌, inl, inr, true, none, some, List, [], text_eq,
}
use s21_identity_service.Base.Int.{pos}
use s21_identity_service.Base.Map.{lookup}
use s21_identity_service.Base.Exec.{ok, err, pure, steps_of_bind}
use s21_identity_service.Text.{Text}
use s21_identity_service.Text.Case.{CaseTable}
use s21_identity_service.Store.{Time, Store, ApiKey}
use s21_identity_service.YdbStore.{ydb_store}
use s21_identity_service.YdbStore.Columns.{KeyRow}
use s21_identity_service.YdbStore.Service.{Ydb, IsYdb}
use s21_identity_service.YdbStore.Session.Lookup.{answer}
use s21_identity_service.YdbStore.Keys.{scan_api_key}
use s21_identity_service.YdbStore.Keys.Shown.{shown, shown_found, row_of, active_scan, name_scan}
use s21_identity_service.YdbStore.Keys.Insert.{keys_in}
use s21_identity_service.YdbStore.Keys.Revoke.Refines.{revoke_by_name-refines}
use s21_identity_service.YdbStore.Keys.Stored.{get_by_hash_lem}
use s21_identity_service.YdbStore.Keys.Reach.{IsValidTable}
use s21_identity_service.Api.Models.{Request}
use s21_identity_service.Api.Platform.{Platform, World}
use s21_identity_service.Api.Server.{Server, internal, revoked_api_key}
use s21_identity_service.Api.Auth.{authenticate_api_key, check_found}
use s21_identity_service.Api.Auth.Keys.{api_key_of, header_present, authenticate_api_key_broken}
use s21_identity_service.Api.Keys.Revoked.{revoked_row, check_row_revoked}
use s21_identity_service.Admin.{
  Env, Output, revoke_error, parsed, name_given, open_store, store_call, run_revoke,
}
use s21_identity_service.Admin.Created.{lifted, parsed-ok, wrapped-ok}

module _ (p : Platform) (env : Env) (S : Store) (s : S.State) where
  -- What a revocation that returns has done.
  pub record Withdrawn (args : List Text) : Type 0 where
    pub name : Text
    pub parsed_flags : env.revoke_flags args ≡ ok name
    pub done : (S.revoke_by_name name (pos 0) env.now s).0 ≡ ok tt
    pub after : (run_revoke p env S args s).1 ≡ (S.revoke_by_name name (pos 0) env.now s).1

  pub run_revoke-ok :
      (args : List Text) (out : Output) → (run_revoke p env S args s).0 ≡ ok out → Withdrawn args
  unfolding run_revoke
  run_revoke-ok args out h =
      let (name, f, h1, r1) = lifted (parsed (env.revoke_flags args)) _ s out h in
      let (_, n, h2, r2) = lifted (name_given name) _ s out h1 in
      let (_, o, h3, r3) = lifted (open_store env) _ s out h2 in
      let call = S.revoke_by_name name (pos 0) env.now in
      let (_, c, h4, r4) = steps_of_bind (store_call p env S (revoke_error name) call) _ s out h3 in
      record {
        name = name;
        parsed_flags = parsed-ok (env.revoke_flags args) name f;
        done = wrapped-ok (revoke_error name) (call s).0 tt (unfold store_call in c);
        after = ap (λ x. x.1) (r1 ∙ r2 ∙ r3 ∙ r4) ∙ unfold pure store_call in refl;
      }

module _ (p : Platform) (env : Env) {y : Ydb} (d : IsYdb y) (table : CaseTable) (now : Time)
    (s : y.State) (v : IsValidTable d s) where
  abbrev S : Store
  S = ydb_store y table now

  abbrev at : Time
  at = y.time (y.timestamp env.now)

  marked :
      (args : List Text) (name h : Text) (row : KeyRow) (m : Withdrawn p env S s args)
      → env.revoke_flags args ≡ ok name
      → lookup h (keys_in d s) ≡ some row
      → row.revoked_at ≡ none
      → row.name ≡ name
      → lookup h (shown y (keys_in d (run_revoke p env S args s).1))
        ≡ some (record (scan_api_key y row) { revoked_at = some at })
  marked args name h row m f l live n =
      let same : m.name ≡ name = cc (m.parsed_flags) in
      let (made, rows) = (revoke_by_name-refines d m.name (pos 0) env.now s v.valid).0 m.done in
      ap (λ t. lookup h (shown y (keys_in d t))) m.after
      ∙ rows h
      ∙ revoked_row m.name (pos 0) at (shown y (keys_in d s)) h (scan_api_key y row) v.valid
          (shown_found y h row (keys_in d s) l) (active_scan y row live)
          (name_scan y row ∙ n ∙ sym same) made

  -- If YDB behaves as documented, and the table of the keys is valid (`IsValidTable`): after a
  -- revocation by the command line tool that succeeds, the active key that had the name, whoever
  -- owns it, is refused as revoked, whatever the request that presents it and the scope, by every
  -- server that enforces keys over a database with these API keys; or the driver fails and the
  -- answer is an internal error. The key that is presented is not empty.
  pub cli_revoked_key_refused :
      (args : List Text) (out : Output) (name : Text) (row : KeyRow)
      → (run_revoke p env S args s).0 ≡ ok out
      → env.revoke_flags args ≡ ok name
      → (w : World) (r : Request) (scope : Text) (server : Server S) → server.enforce_api_key ≡ true
      → keys_in d server.store ≡ keys_in d (run_revoke p env S args s).1
      → api_key_of r ≢ []
      → lookup (p.hash (api_key_of r)) (keys_in d s) ≡ some row
      → row.revoked_at ≡ none
      → row.name ≡ name
      → ((authenticate_api_key p w r scope server).0 ≡ err revoked_api_key)
        ⊎ ((authenticate_api_key p w r scope server).0 ≡ err internal)
  unfolding check_found
  cli_revoked_key_refused args out name row h f w r scope server e same presented l live n =
      let hash = p.hash (api_key_of r) in
      let gone = marked args name hash row (run_revoke-ok p env S s args out h) f l live n in
      let k : ApiKey = record (scan_api_key y row) { revoked_at = some at } in
      let (row', l', q) = row_of y hash k (keys_in d (run_revoke p env S args s).1) gone in
      let keyed =
        v.valid.keyed hash (scan_api_key y row) (shown_found y hash row (keys_in d s) l) in
      elim ((get_by_hash_lem d hash server.store).1) [
        | inl found ↦
            let read : (S.get_by_hash hash server.store).0 ≡ ok k =
              found
              ∙ ap (λ x. answer (scan_api_key y) (lookup hash x)) same
              ∙ ap (answer (scan_api_key y)) l'
              ∙ ap ok q in
            inl (
              rw (header_present p w r scope server presented, read, check_found)
                (check_row_revoked p w hash scope k _ e keyed refl))
        | inr (message, bad) ↦
            inr (authenticate_api_key_broken p w r scope server message presented bad)
      ]
