-- ===== src/S21/Client.antt =====
-- `realClient` of pkg/s21/s21.go, over the two queries of the client library that it sends.
pub mod Laws
use s21_identity_service.Base.{Bool, ◌||◌, List, [], ◌∷◌, ◌==◌, text_eq, if◌then◌else◌}
use s21_identity_service.Base.Exec.{Outcome, ok, err}
use s21_identity_service.Text.{Text, codes}
use s21_identity_service.Text.Case.{CaseTable, to_lower}
use s21_identity_service.Text.Contains.{contains}
use s21_identity_service.S21.{
  Profile, S21Error, invalid_credentials, not_found, unavailable, other_error,
}

pub record School : Type 0 where
  pub id : Text
  pub short_name : Text

-- What the code reads of `DashboardHeaderGetInfo_Data`.
pub record DashboardData : Type 0 where
  pub login : Text
  pub student_roles : List School
  pub coalition_name : Text

-- The client library: each query is sent with a login and a password, and fails with a message.
-- The second returns the student id.
pub record Api : Type 0 where
  pub dashboard_header_get_info : Text → Text → Outcome Text DashboardData
  pub public_profile_get_credentials_by_login : Text → Text → Text → Outcome Text Text

-- The error that is joined to the sentinel is only logged, so the sentinel stands for both.
unfoldable pub map_auth_error : CaseTable → Text → S21Error
map_auth_error table message =
    let msg = to_lower table message in
    if contains msg (codes "unauthorized")
      || contains msg (codes "authentication failed")
      || contains msg (codes "401")
      || contains msg (codes "invalid")
    then invalid_credentials
    else unavailable

abbrev pub first_school : List School → School
first_school [] = record { id = []; short_name = [] }
first_school (school ∷ _) = school

unfoldable pub profile_from_dashboard_data : DashboardData → Outcome S21Error Profile
profile_from_dashboard_data info =
    if info.login == []
    then err invalid_credentials
    else ok (record {
      login = info.login;
      campus_id = (first_school info.student_roles).id;
      campus_name = (first_school info.student_roles).short_name;
      coalition_name = info.coalition_name;
    })

module _ (table : CaseTable) (api : Api) where
  -- The dashboard of a login, with the errors mapped.
  unfoldable pub dashboard : Text → Text → Outcome S21Error DashboardData
  dashboard login password = elim (api.dashboard_header_get_info login password) [
    | err message ↦ err (map_auth_error table message)
    | ok info ↦ ok info
  ]

  unfoldable pub authenticate : Text → Text → Outcome S21Error Profile
  unfolding dashboard profile_from_dashboard_data
  authenticate login password = elim (dashboard login password) [
    | err e ↦ err e
    | ok info ↦ profile_from_dashboard_data info
  ]

  -- The profile of the target, from that of the administrator.
  unfoldable pub attributed : Text → Outcome S21Error Profile → Outcome S21Error Profile
  attributed target (err e) = err e
  attributed target (ok admin) = ok (record {
    login = target;
    campus_id = admin.campus_id;
    campus_name = admin.campus_name;
    coalition_name = [];
  })

  -- The second query, once the first has answered.
  unfoldable pub resolve : Text → DashboardData → Outcome Text Text → Outcome S21Error Profile
  unfolding profile_from_dashboard_data attributed
  resolve target info (err message) = err (other_error message)
  resolve target info (ok student_id) =
      if student_id == []
      then err not_found
      else attributed target (profile_from_dashboard_data info)

  unfoldable pub lookup_by_login : Text → Text → Text → Outcome S21Error Profile
  unfolding dashboard resolve
  lookup_by_login admin password target = elim (dashboard admin password) [
    | err e ↦ err e
    | ok info ↦
        resolve target info (api.public_profile_get_credentials_by_login admin password target)
  ]
