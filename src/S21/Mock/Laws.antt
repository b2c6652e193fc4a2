-- ===== src/S21/Mock/Laws.antt =====
-- What the calls of the mock in pkg/s21/mock.go return after it was configured.
use s21_identity_service.Base.{◌≡◌, none, some, arith, ◌==◌, text_eq, if◌then◌else◌}
use s21_identity_service.Base.Map.{lookup, lookup-insert, erase-insert_new}
use s21_identity_service.Base.Exec.{ok, err, ◌>>=◌}
use s21_identity_service.Text.{Text, codes}
use s21_identity_service.S21.{Profile, S21Error, invalid_credentials}
use s21_identity_service.S21.Mock.{
  Mock, named, set_user, set_admin_password, fail_next, try_fail, check_password, own_profile,
  target_profile, authenticate, lookup_by_login,
}

-- No failure waits for the method.
abbrev pub IsReady : Text → Mock → Type 0
IsReady method m = lookup method m.failures ≡ none

pub authenticate-set_user :
    (m : Mock) (login password login' password' : Text) (p : Profile)
    → IsReady (codes "Authenticate") m
    → (authenticate login' password' (set_user login password p m)).0 ≡ (
        if login == login'
        then (if password == password' then ok (named login p) else err invalid_credentials)
        else (authenticate login' password' m).0)
unfolding authenticate set_user try_fail check_password own_profile ◌>>=◌
authenticate-set_user m login password login' password' p ready = ground (
  arith,
  lookup-insert login login' password m.auth_passwords,
  lookup-insert login login' (named login p) m.profiles,
)

-- The next call fails, and leaves the mock as it was before the failure was injected.
pub fail_next_once :
    (m : Mock) (e : S21Error) (login password : Text)
    → IsReady (codes "Authenticate") m
    → authenticate login password (fail_next (codes "Authenticate") (some e) m) ≡ (err e, m)
unfolding authenticate fail_next try_fail ◌>>=◌
fail_next_once m e login password ready = ground (
  arith,
  lookup-insert (codes "Authenticate") (codes "Authenticate") (some e) m.failures,
  erase-insert_new (codes "Authenticate") (some e) m.failures,
)

pub lookup_by_login-configured :
    (m : Mock) (admin password password' login password'' : Text) (p : Profile)
    → IsReady (codes "LookupByLogin") m
    → (lookup_by_login admin password' login
        (set_user login password'' p (set_admin_password admin password m))).0
      ≡ (if password == password' then ok (named login p) else err invalid_credentials)
unfolding lookup_by_login set_user set_admin_password try_fail check_password target_profile ◌>>=◌
lookup_by_login-configured m admin password password' login password'' p ready = ground (
  arith,
  lookup-insert admin admin password m.admin_passwords,
  lookup-insert login login (named login p) m.profiles,
)
