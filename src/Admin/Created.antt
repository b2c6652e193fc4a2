-- ===== src/Admin/Created.antt =====
-- A key that `runCreate` of cmd/admin/main.go has printed, at the server of pkg/api/server.go.
use s21_identity_service.Base.{
  ℕ, ◌≡◌, ◌≢◌, refl, sym, ◌∙◌, ap, ◌⊎◌, inl, inr, Bool, true, Option, none, some, List, [], arith,
  text_eq,
}
use s21_identity_service.Base.Int.{IsInt64}
use s21_identity_service.Base.Exec.{Exec, Outcome, ok, err, pure, lift, ◌>>=◌, steps_of_bind}
use s21_identity_service.Text.{Text}
use s21_identity_service.Text.Case.{CaseTable}
use s21_identity_service.Store.{Time, Store, StoreError, ApiKey, has_scope}
use s21_identity_service.Store.Scopes.{canonicalise_scopes, has_scope_in}
use s21_identity_service.YdbStore.{ydb_store}
use s21_identity_service.YdbStore.Service.{Ydb, IsYdb}
use s21_identity_service.YdbStore.Keys
use s21_identity_service.YdbStore.Keys.{created_or_now}
use s21_identity_service.YdbStore.Keys.Stored.{IsTimestamp, truncated, get_by_hash-insert}
use s21_identity_service.Api.Models.{Request}
use s21_identity_service.Api.Platform.{Platform, World}
use s21_identity_service.Api.Server.{Server, internal}
use s21_identity_service.Api.Auth.{authenticate_api_key}
use s21_identity_service.Api.Auth.Keys.{
  api_key_of, authenticate_api_key_complete, authenticate_api_key_broken,
}
use s21_identity_service.Admin.{
  Env, CreateFlags, Output, new_key, AdminError, insert_error, parsed, canonical, name_given,
  wrapped, generate_api_key, hash_api_key, open_store, store_call, new_row, run_create,
}

-- A step that only looks at a value leaves the store alone.
pub lifted :
    {S E A B : Type 0} (r : Outcome E A) (f : A → Exec S E B) (s : S) (b : B)
    → ((lift r >>= f) s).0 ≡ ok b
    → (a : A) × (r ≡ ok a) × ((f a s).0 ≡ ok b) × ((lift r >>= f) s ≡ f a s)
unfolding lift
lifted r f s b h = steps_of_bind (lift r) f s b h

pub wrapped-ok :
    {A : Type 0} (wrap : StoreError → AdminError) (r : Outcome StoreError A) (a : A)
    → wrapped wrap r ≡ ok a
    → r ≡ ok a
wrapped-ok wrap (ok x) a h = cc
wrapped-ok wrap (err e) a h = absurd (cc)

pub parsed-ok : {A : Type 0} (r : Outcome ℕ A) (a : A) → parsed r ≡ ok a → r ≡ ok a
parsed-ok (ok x) a h = cc
parsed-ok (err e) a h = absurd (cc)

canonical-ok : (scopes : Text) (o : Option Text) (c : Text) → canonical scopes o ≡ ok c → o ≡ some c
canonical-ok scopes none c h = absurd (cc)
canonical-ok scopes (some x) c h = cc

module _ (p : Platform) (env : Env) (S : Store) (s : S.State) where
  -- What a creation that returns has done.
  record Minted (args : List Text) (out : Output) : Type 0 where
    flags : CreateFlags
    canon : Text
    plaintext : Text
    parsed_flags : env.create_flags args ≡ ok flags
    scoped : canonicalise_scopes flags.scopes ≡ some canon
    printed : out ≡ new_key env.is_terminal flags.name canon plaintext
    inserted :
        (S.insert_key (new_row p env S plaintext flags.name canon flags.created_by) s).0 ≡ ok tt
    after :
        (run_create p env S args s).1
        ≡ (S.insert_key (new_row p env S plaintext flags.name canon flags.created_by) s).1

  run_create-ok :
      (args : List Text) (out : Output) → (run_create p env S args s).0 ≡ ok out → Minted args out
  unfolding run_create
  run_create-ok args out h =
      let (flags, f, h1, r1) = lifted (parsed (env.create_flags args)) _ s out h in
      let (_, n, h2, r2) = lifted (name_given flags.name) _ s out h1 in
      let (canon, c, h3, r3) =
        lifted (canonical flags.scopes (canonicalise_scopes flags.scopes)) _ s out h2 in
      let (_, o, h4, r4) = lifted (open_store env) _ s out h3 in
      let (plaintext, g, h5, r5) = lifted (generate_api_key p env) _ s out h4 in
      let row = new_row p env S plaintext flags.name canon flags.created_by in
      let (_, i, h6, r6) =
        steps_of_bind (store_call p env S insert_error (S.insert_key row)) _ s out h5 in
      record {
        flags = flags;
        canon = canon;
        plaintext = plaintext;
        parsed_flags = parsed-ok (env.create_flags args) flags f;
        scoped = canonical-ok flags.scopes (canonicalise_scopes flags.scopes) canon c;
        printed = unfold pure in cc;
        inserted = wrapped-ok insert_error (S.insert_key row s).0 tt (unfold store_call in i);
        after = ap (λ x. x.1) (r1 ∙ r2 ∙ r3 ∙ r4 ∙ r5 ∙ r6) ∙ unfold pure store_call in refl;
      }

new_key-inj :
    (b b' : Bool) (n n' c c' k k' : Text)
    → new_key b n c k ≡ new_key b' n' c' k'
    → (n ≡ n') × (c ≡ c') × (k ≡ k')
new_key-inj b b' n n' c c' k k' h = (cc, cc, cc)

module _ (p : Platform) (env : Env) {y : Ydb} (d : IsYdb y) (table : CaseTable) (now : Time)
    (s : y.State) where
  abbrev S : Store
  S = ydb_store y table now

  dated_now : (k : ApiKey) → IsTimestamp k.created_at → created_or_now y now k ≡ k
  dated_now k t = ground (arith, t.0)

  dated_IsTimestamp :
      (k : ApiKey) → IsTimestamp k.created_at → IsTimestamp (created_or_now y now k).created_at
  dated_IsTimestamp k t = ground (arith, t.0, t.1)

  -- If YDB behaves as documented, a key that the command line tool has printed opens the server
  -- over the database that it leaves: if the key is not empty, a request that presents it is let
  -- through for every scope that was printed, with a row of the printed name and scopes and the
  -- creator that was given, or the driver fails and the answer is an internal error. The creator is
  -- within int64 and the clock within the times that a column keeps.
  pub cli_key_authenticates :
      (args : List Text) (flags : CreateFlags) (name scopes key : Text)
      → (run_create p env S args s).0 ≡ ok (new_key env.is_terminal name scopes key)
      → env.create_flags args ≡ ok flags
      → IsInt64 flags.created_by
      → IsTimestamp env.now
      → (w : World) (r : Request) (scope : Text) (server : Server S)
      → server.store ≡ (run_create p env S args s).1
      → api_key_of r ≡ key
      → key ≢ []
      → has_scope_in scopes scope ≡ true
      → ((row : ApiKey) × ((authenticate_api_key p w r scope server).0 ≡ ok (some row))
          × (row.name ≡ name)
          × (row.scopes ≡ scopes)
          × (row.created_by_telegram_id ≡ flags.created_by))
        ⊎ ((authenticate_api_key p w r scope server).0 ≡ err internal)
  unfolding hash_api_key
  cli_key_authenticates args flags name scopes key h f word t w r scope server same presented
        nonempty scoped =
      let m = run_create-ok p env S s args _ h in
      let (n, c, k) =
        new_key-inj env.is_terminal env.is_terminal name m.flags.name scopes m.canon key m.plaintext
          m.printed in
      let g : m.flags ≡ flags = cc (m.parsed_flags) in
      let row = new_row p env S m.plaintext m.flags.name m.canon m.flags.created_by in
      let word' : IsInt64 row.created_by_telegram_id = rw g word in
      let kept = dated_now row t in
      let row' : ApiKey = record row { created_at = truncated row.created_at; revoked_at = none } in
      let read = get_by_hash-insert d now row s word' (dated_IsTimestamp row t) m.inserted in
      let pres : api_key_of r ≢ [] = λ q. nonempty (sym presented ∙ q) in
      let hash : p.hash (api_key_of r) ≡ row.key_hash = ap p.hash (presented ∙ k) in
      let state : server.store ≡ (Keys.insert y now row s).1 = same ∙ m.after in
      elim read [
        | inl found ↦ inl (
          row',
          authenticate_api_key_complete p w r scope server row' (record {
            presented = pres;
            found =
                rw (hash, state)
                  (found
                    ∙ ap
                        (λ x.
                          ok
                            (record row { created_at = truncated x.created_at; revoked_at = none }))
                        kept);
            hashed = sym hash;
            active = refl;
            scoped = λ _. unfold has_scope in rw (← c) scoped;
          }),
          sym n,
          sym c,
          ap (λ x. x.created_by) g,
        )
        | inr (message, bad) ↦
            inr (authenticate_api_key_broken p w r scope server message pres (rw (hash, state) bad))
      ]
