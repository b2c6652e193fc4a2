-- ===== src/Examples/Clients.antt =====
-- The theorems on the S21 clients, applied.
use s21_identity_service.Base.{◌≡◌, ◌≢◌, refl, ◌⊎◌, [], ◌∷◌, ◌==◌, text_eq, if◌then◌else◌}
use s21_identity_service.Base.Exec.{ok, err}
use s21_identity_service.Text.{Text, codes}
use s21_identity_service.Text.Case.{ascii}
use s21_identity_service.S21.{Profile, invalid_credentials, unavailable}
use s21_identity_service.S21.Client
use s21_identity_service.S21.Client.{Api, DashboardData}
use s21_identity_service.S21.Client.Laws.{
  Blames, own_profile, authenticate_outcomes, lookup_by_login_ok,
}

abbrev info : DashboardData
info = record {
  login = codes "adm";
  student_roles = record { id = codes "c1"; short_name = codes "Kazan" } ∷ [];
  coalition_name = codes "Alpha";
}

abbrev api : Api
api = record {
  dashboard_header_get_info =
      λ login password. if password == codes "pw" then ok info else err (codes "401 Unauthorized");
  public_profile_get_credentials_by_login = λ login password target. ok (codes "s1");
}

authenticate_outcomes_example :
    ((i : DashboardData) × (api.dashboard_header_get_info (codes "adm") (codes "pw") ≡ ok i)
      × (((i.login ≢ [])
            × (Client.authenticate ascii api (codes "adm") (codes "pw") ≡ ok (own_profile i)))
          ⊎ ((i.login ≡ [])
              × (Client.authenticate ascii api (codes "adm") (codes "pw")
                  ≡ err invalid_credentials))))
    ⊎ ((message : Text) × (api.dashboard_header_get_info (codes "adm") (codes "pw") ≡ err message)
        × (((Client.authenticate ascii api (codes "adm") (codes "pw") ≡ err invalid_credentials)
              × Blames ascii message)
            ⊎ ((Client.authenticate ascii api (codes "adm") (codes "pw") ≡ err unavailable)
                × (¬ Blames ascii message))))
authenticate_outcomes_example = authenticate_outcomes ascii api (codes "adm") (codes "pw")

abbrev target : Profile
target = record (own_profile info) { login = codes "evan"; coalition_name = [] }

lookup_by_login_ok_example :
    (i : DashboardData) × (student_id : Text) × (api.dashboard_header_get_info
        (codes "adm")
        (codes "pw")
      ≡ ok i)
    × (i.login ≢ [])
    × (api.public_profile_get_credentials_by_login (codes "adm") (codes "pw") (codes "evan")
        ≡ ok student_id)
    × (student_id ≢ [])
    × (target ≡ record (own_profile i) { login = codes "evan"; coalition_name = [] })
unfolding Client.lookup_by_login text_eq
lookup_by_login_ok_example =
    lookup_by_login_ok ascii api (codes "adm") (codes "pw") (codes "evan") target refl
