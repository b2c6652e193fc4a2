-- ===== src/Api/Serve/Cases.antt =====
-- The routing of `ServeHTTP` of pkg/api/server.go, by cases on the handler.
use s21_identity_service.Base.{Bool, true, false, Option-cases, inl, inr, if◌then◌else◌}
use s21_identity_service.Base.Int.{ℤ}
use s21_identity_service.Base.Exec.{pure}
use s21_identity_service.Text.{Text}
use s21_identity_service.Store.{Store}
use s21_identity_service.Api.Models.{Request, Response}
use s21_identity_service.Api.Platform.{Platform, World}
use s21_identity_service.Api.Routes.{match_by_telegram, match_by_nickname, match_admin_key}
use s21_identity_service.Api.Server.{Handler}
use s21_identity_service.Api.Users.{
  handle_get_by_telegram, handle_lookup_telegram_batch, handle_list_by_nickname,
  handle_put_by_telegram, handle_delete_by_telegram,
}
use s21_identity_service.Api.Keys.{handle_create_key, handle_list_keys, handle_revoke_key}
use s21_identity_service.Api.Serve.{route_patterns, route}

-- A property of handlers, with a proof for each of the eight and for plain responses.
pub record OfHandlers (p : Platform) (S : Store) (w : World) (r : Request)
    (Z : Handler S Response → Type 0) : Type 0 where
  pub plain : (response : Response) → Z (pure response)
  pub get_by_telegram : (tid : ℤ) → Z (handle_get_by_telegram p w r tid)
  pub lookup_telegram_batch : Z (handle_lookup_telegram_batch p w r)
  pub list_by_nickname : (nick : Text) → Z (handle_list_by_nickname p w r nick)
  pub put_by_telegram : (tid : ℤ) → Z (handle_put_by_telegram p w r tid)
  pub delete_by_telegram : (tid : ℤ) → Z (handle_delete_by_telegram p w r tid)
  pub create_key : Z (handle_create_key p w r)
  pub list_keys : Z (handle_list_keys p w r)
  pub revoke_key : (name : Text) → Z (handle_revoke_key p w r name)

module _ {p : Platform} {S : Store} {w : World} {r : Request} {Z : Handler S Response → Type 0}
    (z : OfHandlers p S w r Z) where
  if_case : (b : Bool) (m n : Handler S Response) → Z m → Z n → Z (if b then m else n)
  if_case true m n zm zn = zm
  if_case false m n zm zn = zn

  route_patterns-case : Z (route_patterns p w r)
  unfolding route_patterns
  route_patterns-case = elim (Option-cases (match_by_telegram r.path)) [
    | inr (tid, e) ↦
        rw (e, route_patterns)
          (if_case _ _ _ (z.get_by_telegram tid) (
            if_case _ _ _ (z.put_by_telegram tid)
              (if_case _ _ _ (z.delete_by_telegram tid) (z.plain _))))
    | inl e ↦ elim (Option-cases (match_by_nickname r.path)) [
      | inr (nick, f) ↦
          rw (e, f, route_patterns) (if_case _ _ _ (z.plain _) (z.list_by_nickname nick))
      | inl f ↦ elim (Option-cases (match_admin_key r.path)) [
        | inr (name, g) ↦
            rw (e, f, g, route_patterns) (if_case _ _ _ (z.plain _) (z.revoke_key name))
        | inl g ↦ rw (e, f, g, route_patterns) (z.plain _)
      ]
    ]
  ]

  pub route-case : Z (route p w r)
  unfolding route
  route-case =
      search
        (if_case, z.plain, z.lookup_telegram_batch, z.create_key, z.list_keys, route_patterns-case)
        depth 7
