-- ===== src/Function/Boot/Laws.antt =====
-- The server that `bootstrap` of terraform/function/handler.go starts.
use s21_identity_service.Base.{
  ◌≡◌, ◌≢◌, refl, ◌⊎◌, ◌↔◌, inl, inr, true, Option, none, some, [], ◌==◌, ==_iff, text_eq,
  Bool-cases, test_of_eq, test_of_ne, if◌then◌else◌,
}
use s21_identity_service.Base.Map.{lookup}
use s21_identity_service.Base.Exec.{ok}
use s21_identity_service.Text.{Text, codes}
use s21_identity_service.Text.Case.{CaseTable}
use s21_identity_service.Store.{ApiKey, Time}
use s21_identity_service.MemStore.{mem_store, empty}
use s21_identity_service.MemStore.Keys
use s21_identity_service.YdbStore.Service.{Ydb}
use s21_identity_service.Api.Models.{Request}
use s21_identity_service.Api.Platform.{Platform, World}
use s21_identity_service.Api.Server.{new}
use s21_identity_service.Api.Auth.{authenticate_api_key}
use s21_identity_service.Api.Auth.Keys.{authenticate_api_key_sound}
use s21_identity_service.Function.Boot.{Booted, bootstrap, opened}

module _ (table : CaseTable) (y : Ydb) (now : Time) (endpoint enforce : Text)
    (connection : Option y.State) where
  abbrev booted : Booted
  booted = bootstrap table y now endpoint enforce connection

  opened_flags :
      (c : Option y.State)
      → ((opened table y now c).server.enforce_api_key ≡ true)
        × ((opened table y now c).server.enforce_https ≡ true)
  unfolding opened new
  opened_flags none = (refl, refl)
  opened_flags (some connected) = (refl, refl)

  pub bootstrap_enforces :
      ((booted.server.enforce_api_key ≡ true) ↔ (enforce ≢ codes "false"))
      × (booted.server.enforce_https ≡ true)
  unfolding bootstrap
  bootstrap_enforces =
      let (keys, https) = opened_flags (if endpoint == [] then none else connection) in
      elim (Bool-cases (enforce == codes "false")) [
        | inl e ↦ rw (e, bootstrap) ((λ h. absurd (cc), λ n. absurd (n ((==_iff _ _).0 e))), https)
        | inr e ↦ rw (e, bootstrap) ((λ _ q. cc (test_of_eq q), λ _. keys), https)
      ]

  -- No key opens the server.
  abbrev pub Refuses : Booted → Type 0
  Refuses b =
      (p : Platform) (w : World) (r : Request) (scope : Text) (o : Option ApiKey)
      → (authenticate_api_key p {S = b.store} w r scope b.server).0 ≢ ok o

  fallback-Refuses : Refuses (opened table y now none)
  unfolding opened new Keys.get_by_hash lookup
  fallback-Refuses p w r scope o h =
      let (row, _, g) =
        authenticate_api_key_sound p {S = mem_store table} w r scope
          (new {S = mem_store table} empty) o refl h in
      absurd (cc (g.found))

  -- If YDB_ENDPOINT is empty or YDB cannot be opened, and API_KEY_ENFORCE is not "false", the
  -- server that starts accepts no API key, whatever the request and the scope.
  pub bootstrap_fails_closed :
      (endpoint ≡ []) ⊎ (connection ≡ none) → enforce ≢ codes "false" → Refuses booted
  unfolding bootstrap
  bootstrap_fails_closed down on =
      let chosen : (if endpoint == [] then none else connection) ≡ none =
        elim (Bool-cases (endpoint == [])) [
          | inl e ↦ rw e refl
          | inr e ↦ elim down [ inl q ↦ absurd (cc (test_of_eq q)) | inr q ↦ rw (e, q) refl ]
        ] in
      let q : booted ≡ opened table y now none = rw (test_of_ne on, chosen, bootstrap) refl in
      rw (q, Refuses) fallback-Refuses
