-- ===== src/S21/Client/Laws.antt =====
-- What the calls of `realClient` in pkg/s21/s21.go return.
use s21_identity_service.Base.{◌≡◌, ◌≢◌, ap, ◌⊎◌, inl, inr, [], arith, ◌==◌, text_eq, Bool-cases}
use s21_identity_service.Base.Exec.{ok, err, Outcome-cases}
use s21_identity_service.Text.{Text, codes}
use s21_identity_service.Text.Case.{CaseTable, to_lower}
use s21_identity_service.Text.Contains.{Occurs, contains_iff}
use s21_identity_service.S21.{Profile, invalid_credentials, unavailable}
use s21_identity_service.S21.Client.{
  Api, DashboardData, first_school, map_auth_error, profile_from_dashboard_data, dashboard,
  authenticate, resolve, attributed, lookup_by_login,
}

-- The words of a message by which an error counts as one of the credentials.
abbrev pub Blames : CaseTable → Text → Type 0
Blames table message =
    Occurs (codes "unauthorized") (to_lower table message)
    ⊎ Occurs (codes "authentication failed") (to_lower table message)
    ⊎ Occurs (codes "401") (to_lower table message)
    ⊎ Occurs (codes "invalid") (to_lower table message)

map_auth_error_cases :
    (table : CaseTable) (message : Text)
    → ((map_auth_error table message ≡ invalid_credentials) × Blames table message)
      ⊎ ((map_auth_error table message ≡ unavailable) × (¬ Blames table message))
unfolding map_auth_error
map_auth_error_cases table message =
    let msg = to_lower table message in
    ground (
      arith,
      contains_iff msg (codes "unauthorized"),
      contains_iff msg (codes "authentication failed"),
      contains_iff msg (codes "401"),
      contains_iff msg (codes "invalid"),
    )

-- The profile that the dashboard of a login shows.
abbrev pub own_profile : DashboardData → Profile
own_profile info = record {
  login = info.login;
  campus_id = (first_school info.student_roles).id;
  campus_name = (first_school info.student_roles).short_name;
  coalition_name = info.coalition_name;
}

profile_cases :
    (info : DashboardData)
    → ((info.login ≢ []) × (profile_from_dashboard_data info ≡ ok (own_profile info)))
      ⊎ ((info.login ≡ []) × (profile_from_dashboard_data info ≡ err invalid_credentials))
unfolding profile_from_dashboard_data
profile_cases info = ground arith

module _ (table : CaseTable) (api : Api) where
  -- An authentication has the profile of the dashboard if S21 shows one with a login; it is a
  -- failure of the credentials if S21 shows one without, or answers with an error whose message
  -- has, in lower case, one of the words "unauthorized", "authentication failed", "401" and
  -- "invalid" in it; and any other error of S21 makes it unavailable.
  pub authenticate_outcomes :
      (login password : Text)
      → ((info : DashboardData) × (api.dashboard_header_get_info login password ≡ ok info)
          × (((info.login ≢ []) × (authenticate table api login password ≡ ok (own_profile info)))
              ⊎ ((info.login ≡ [])
                  × (authenticate table api login password ≡ err invalid_credentials))))
        ⊎ ((message : Text) × (api.dashboard_header_get_info login password ≡ err message)
            × (((authenticate table api login password ≡ err invalid_credentials)
                  × Blames table message)
                ⊎ ((authenticate table api login password ≡ err unavailable)
                    × (¬ Blames table message))))
  unfolding authenticate dashboard
  authenticate_outcomes login password =
      elim (Outcome-cases (api.dashboard_header_get_info login password)) [
        | inl (info, e) ↦ inl (
          info,
          e,
          elim (profile_cases info) [
            | inl (n, p) ↦ inl (n, rw (e, authenticate, dashboard) p)
            | inr (n, p) ↦ inr (n, rw (e, authenticate, dashboard) p)
          ],
        )
        | inr (message, e) ↦ inr (
          message,
          e,
          elim (map_auth_error_cases table message) [
            | inl (p, b) ↦ inl (rw (e, authenticate, dashboard) (ap err p), b)
            | inr (p, b) ↦ inr (rw (e, authenticate, dashboard) (ap err p), b)
          ],
        )
      ]

  -- A lookup returns a profile only if S21 shows the administrator a dashboard with a login and
  -- answers for the target with a student id that is not empty; the profile has the login of the
  -- target, the campus of the administrator and no coalition.
  pub lookup_by_login_ok :
      (admin password target : Text) (p : Profile)
      → lookup_by_login table api admin password target ≡ ok p
      → (info : DashboardData) × (student_id : Text) × (api.dashboard_header_get_info admin password
          ≡ ok info)
        × (info.login ≢ [])
        × (api.public_profile_get_credentials_by_login admin password target ≡ ok student_id)
        × (student_id ≢ [])
        × (p ≡ record (own_profile info) { login = target; coalition_name = [] })
  unfolding lookup_by_login dashboard resolve attributed
  lookup_by_login_ok admin password target p h =
      elim (Outcome-cases (api.dashboard_header_get_info admin password)) [
        | inr (message, e) ↦ absurd (cc (rw (e, lookup_by_login, dashboard) at h))
        | inl (info, e) ↦
            let h1 = rw (e, lookup_by_login, dashboard) at h in
            elim (Outcome-cases
              (api.public_profile_get_credentials_by_login admin password target)) [
                | inr (message, e') ↦ absurd (cc (rw (e', resolve) at h1))
                | inl (student_id, e') ↦
                    let h2 = rw (e', resolve) at h1 in
                    elim (Bool-cases (student_id == [])) [
                      | inl missing ↦ absurd (cc (rw missing at h2))
                      | inr there ↦ elim (profile_cases info) [
                        | inr (n, q) ↦ absurd (cc (rw (there, q) at h2))
                        | inl (n, q) ↦ (
                          info,
                          student_id,
                          e,
                          n,
                          e',
                          ground arith,
                          cc (rw (there, q, attributed) at h2),
                        )
                      ]
                    ]
              ]
      ]
