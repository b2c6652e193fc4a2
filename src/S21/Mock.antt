-- ===== src/S21/Mock.antt =====
-- pkg/s21/mock.go: the client that the tests use. A call holds the mutex throughout, so that it is
-- one step on the four maps.
pub mod Laws
use s21_identity_service.Base.{Option, none, some, [], ◌==◌, text_eq, if◌then◌else◌}
use s21_identity_service.Base.Map
use s21_identity_service.Base.Map.{Map}
use s21_identity_service.Base.Exec.{Exec, Outcome, ok, err, ◌>>=◌, ◌>>◌}
use s21_identity_service.Text.{Text, codes}
use s21_identity_service.S21.{Profile, S21Error, invalid_credentials, not_found}

-- The error of a failure may be nil.
pub record Mock : Type 0 where
  pub profiles : Map Text Profile
  pub auth_passwords : Map Text Text
  pub admin_passwords : Map Text Text
  pub failures : Map Text (Option S21Error)

-- `NewMock`
abbrev pub new_mock : Mock
new_mock = record { profiles = []; auth_passwords = []; admin_passwords = []; failures = [] }

-- The profile that `SetUser` stores.
abbrev pub named : Text → Profile → Profile
named login profile = if profile.login == [] then record profile { login = login } else profile

unfoldable pub set_user : Text → Text → Profile → Mock → Mock
set_user login password profile m = record m {
  profiles = Map.insert login (named login profile) m.profiles;
  auth_passwords = Map.insert login password m.auth_passwords;
}

unfoldable pub set_admin_password : Text → Text → Mock → Mock
set_admin_password login password m = record m {
  admin_passwords = Map.insert login password m.admin_passwords;
}

unfoldable pub fail_next : Text → Option S21Error → Mock → Mock
fail_next method e m = record m { failures = Map.insert method e m.failures }

abbrev raised : Option S21Error → Outcome S21Error (Unit {0})
raised none = ok tt
raised (some e) = err e

-- The failure is gone once it has been raised.
unfoldable pub try_fail : Text → Exec Mock S21Error (Unit {0})
try_fail method m = elim (Map.lookup method m.failures) [
  | none ↦ (ok tt, m)
  | some e ↦ (raised e, record m { failures = Map.erase method m.failures })
]

-- `m.Profiles[login]`, the zero profile if there is none.
abbrev pub profile_of : Option Profile → Profile
profile_of (some p) = p
profile_of none = record { login = []; campus_id = []; campus_name = []; coalition_name = [] }

abbrev pub accepted : Option Text → Text → Outcome S21Error (Unit {0})
accepted none password = err invalid_credentials
accepted (some want) password = if want == password then ok tt else err invalid_credentials

unfoldable pub check_password : Option Text → Text → Exec Mock S21Error (Unit {0})
check_password want password m = (accepted want password, m)

-- The two results of the methods.
unfoldable pub own_profile : Text → Exec Mock S21Error Profile
own_profile login m = (ok (profile_of (Map.lookup login m.profiles)), m)

unfoldable pub target_profile : Text → Exec Mock S21Error Profile
target_profile target m = elim (Map.lookup target m.profiles) [
  | none ↦ (err not_found, m)
  | some p ↦ (ok p, m)
]

unfoldable pub authenticate : Text → Text → Exec Mock S21Error Profile
unfolding try_fail check_password own_profile ◌>>=◌
authenticate login password = do
  try_fail (codes "Authenticate")
  λ m. check_password (Map.lookup login m.auth_passwords) password m
  own_profile login

unfoldable pub lookup_by_login : Text → Text → Text → Exec Mock S21Error Profile
unfolding try_fail check_password target_profile ◌>>=◌
lookup_by_login admin password target = do
  try_fail (codes "LookupByLogin")
  λ m. check_password (Map.lookup admin m.admin_passwords) password m
  target_profile target
