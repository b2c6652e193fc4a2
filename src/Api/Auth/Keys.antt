-- ===== src/Api/Auth/Keys.antt =====
-- What `authenticateAPIKey` of pkg/api/server.go lets through.
use s21_identity_service.Base.{
  ◌≡◌, ◌≢◌, inl, inr, refl, ◌∙◌, sym, ap, Option, some, true, Bool-cases, [], ◌==◌, ==_iff,
  test_of_eq, test_of_ne, text_eq, arith,
}
use s21_identity_service.Base.Exec.{Outcome, ok, err, pure, fail, ◌>>=◌}
use s21_identity_service.Text.{Text, codes}
use s21_identity_service.Store.{failure, Store, StoreError, ApiKey, is_active, has_scope, not_found}
use s21_identity_service.Api.Models.{Request, get_value}
use s21_identity_service.Api.Platform.{Platform, World}
use s21_identity_service.Api.Server.{Server, call_store, missing_api_key, internal}
use s21_identity_service.Api.Auth.{refuse, check_row, check_found, authenticate_api_key}

abbrev pub api_key_of : Request → Text
api_key_of r = get_value (codes "X-Api-Key") r.header

-- The key that the request presents is stored, active, and has the scope that is asked for.
pub record Granted (p : Platform) (S : Store) (r : Request) (scope : Text) (store : S.State)
    (row : ApiKey) : Type 0 where
  pub presented : api_key_of r ≢ []
  pub found : (S.get_by_hash (p.hash (api_key_of r)) store).0 ≡ ok row
  pub hashed : row.key_hash ≡ p.hash (api_key_of r)
  pub active : is_active row ≡ true
  pub scoped : scope ≢ [] → has_scope row scope ≡ true

module _ (p : Platform) {S : Store} (w : World) where
  check_row_ok :
      (got scope : Text) (row : ApiKey) (s : Server S) (o : Option ApiKey)
      → s.enforce_api_key ≡ true
      → (check_row p w got scope row s).0 ≡ ok o
      → (o ≡ some row)
        × (row.key_hash ≡ got)
        × (is_active row ≡ true)
        × (scope ≢ [] → has_scope row scope ≡ true)
  unfolding check_row refuse pure
  check_row_ok got scope row s o e h = (ground arith, ground arith, ground arith, λ n. ground arith)

  check_found_ok :
      (got scope : Text) (f : Outcome StoreError ApiKey) (s : Server S) (o : Option ApiKey)
      → s.enforce_api_key ≡ true
      → (check_found p w got scope f s).0 ≡ ok o
      → (row : ApiKey) × (f ≡ ok row)
        × (o ≡ some row)
        × (row.key_hash ≡ got)
        × (is_active row ≡ true)
        × (scope ≢ [] → has_scope row scope ≡ true)
  unfolding check_found
  check_found_ok got scope (ok row) s o e h =
      let (a, b, c, d) = check_row_ok got scope row s o e h in (row, refl, a, b, c, d)
  check_found_ok got scope (err not_found) s o e h = absurd (unfold refuse in ground arith)
  check_found_ok got scope (err _) s o e h = absurd (unfold fail in cc)

  -- The two ways through the test on the header.
  pub header_missing :
      (r : Request) (scope : Text)
      → api_key_of r ≡ []
      → authenticate_api_key p {S = S} w r scope ≡ refuse missing_api_key
  unfolding authenticate_api_key
  header_missing r scope e = rw (test_of_eq e)

  pub header_present :
      (r : Request) (scope : Text) (s : Server S)
      → api_key_of r ≢ []
      → authenticate_api_key p w r scope s
        ≡ check_found p w
            (p.hash (api_key_of r))
            scope
            (S.get_by_hash (p.hash (api_key_of r)) s.store).0
            (record s { store = (S.get_by_hash (p.hash (api_key_of r)) s.store).1 })
  unfolding authenticate_api_key call_store ◌>>=◌
  header_present r scope s n = rw (test_of_ne n, authenticate_api_key)

  -- With enforcement on, `authenticate_api_key` returns only if the store has a row for the hash of
  -- the key in the header, the header is not empty, the row has that hash, is active, and has the
  -- required scope if there is one; and what it returns is that row.
  pub authenticate_api_key_sound :
      (r : Request) (scope : Text) (s : Server S) (o : Option ApiKey)
      → s.enforce_api_key ≡ true
      → (authenticate_api_key p w r scope s).0 ≡ ok o
      → (row : ApiKey) × (o ≡ some row) × Granted p S r scope s.store row
  authenticate_api_key_sound r scope s o e h = elim (Bool-cases (api_key_of r == [])) [
    | inl t ↦ absurd (
        unfold refuse in
        ground (arith, ap (λ m. (m s).0) (header_missing r scope ((==_iff (api_key_of r) []).0 t))))
    | inr t ↦
        let n : api_key_of r ≢ [] = λ q. cc (test_of_eq q) in
        let (row, f, k, a, b, c) =
          check_found_ok (p.hash (api_key_of r)) scope _ _ o e
            (sym (ap (λ m. m.0) (header_present r scope s n)) ∙ h) in
        (row, k, record { presented = n; found = f; hashed = a; active = b; scoped = c })
  ]

  check_row_granted :
      (got scope : Text) (row : ApiKey) (s : Server S)
      → row.key_hash ≡ got
      → is_active row ≡ true
      → (scope ≢ [] → has_scope row scope ≡ true)
      → (check_row p w got scope row s).0 ≡ ok (some row)
  unfolding check_row refuse pure
  check_row_granted got scope row s a b c = ground arith

  -- A failure of the store is an internal error.
  pub authenticate_api_key_broken :
      (r : Request) (scope : Text) (s : Server S) (message : Text)
      → api_key_of r ≢ []
      → (S.get_by_hash (p.hash (api_key_of r)) s.store).0 ≡ err (failure message)
      → (authenticate_api_key p w r scope s).0 ≡ err internal
  unfolding check_found fail
  authenticate_api_key_broken r scope s message presented e =
      rw (header_present r scope s presented, e, check_found) refl

  -- A request whose key is granted the scope gets through with its row, enforced or not.
  pub authenticate_api_key_complete :
      (r : Request) (scope : Text) (s : Server S) (row : ApiKey)
      → Granted p S r scope s.store row
      → (authenticate_api_key p w r scope s).0 ≡ ok (some row)
  unfolding check_found
  authenticate_api_key_complete r scope s row g =
      rw (header_present r scope s g.presented, g.found, check_found)
        (check_row_granted (p.hash (api_key_of r)) scope row _ g.hashed g.active g.scoped)
