-- ===== src/Api/Users/Stored.antt =====
-- What `handlePutByTelegram` of pkg/api/server.go stores, over the store in memory.
use s21_identity_service.Base.{◌≡◌, refl, ◌∙◌, sym, ap, Option, none, some, text_eq, arith}
use s21_identity_service.Base.Int.{ℤ, int_eq}
use s21_identity_service.Base.Map.{lookup, lookup-insert}
use s21_identity_service.Base.Exec.{Outcome, ok, pure, ◌>>=◌, steps_of_bind, bind_ok}
use s21_identity_service.Text.{Text, codes}
use s21_identity_service.Store.{User, ApiKey}
use s21_identity_service.S21.{Profile}
use s21_identity_service.TokenCache.Defs.{TokenCache}
use s21_identity_service.MemStore.{mem_store}
use s21_identity_service.MemStore.Users
use s21_identity_service.MemStore.Reads.{OfMaps-KeptByReads}
use s21_identity_service.MemStore.Users.Laws.{stored}
use s21_identity_service.Api.Models.{Request, Response, user_body, user_from_store}
use s21_identity_service.Api.Platform.{Platform, World}
use s21_identity_service.Api.Server.{
  Server, Stop, call_store, or_internal, or_not_found, write_json,
}
use s21_identity_service.Api.Auth.{authorize}
use s21_identity_service.Api.Users.{user_row, handle_get_by_telegram, handle_put_by_telegram}
use s21_identity_service.Api.Invariant.{KeptByTokens, IfPresent}
use s21_identity_service.Api.Invariant.Gate.{authorize-Keeps}

-- The token caches play no part.
pub no_tokens : (p : Platform) → KeptByTokens p (λ c. Unit)
no_tokens p = record { get = λ now token h. tt; put = λ now token login h. tt }

pub any_tokens : (o : Option TokenCache) → IfPresent (λ c. Unit) o
any_tokens none = tt
any_tokens (some c) = tt

module _ (p : Platform) (w : World) (r : Request) (tid : ℤ)
    (s : Server (mem_store p.case_table)) where
  abbrev after : Server (mem_store p.case_table)
  after = (handle_put_by_telegram p w r tid s).1

  -- The end of the handler, behind the profile.
  abbrev stores :
      Profile
      → Server (mem_store p.case_table)
      → Outcome Stop Response × Server (mem_store p.case_table)
  stores prof = do
    stored ← call_store ((mem_store p.case_table).upsert_user (user_row w tid prof))
    row ← or_internal stored
    pure (write_json 200 (user_body (user_from_store row)))

  abbrev Answered : Response → Server (mem_store p.case_table) → Type 0
  Answered response t =
      (u : User) × (response ≡ write_json 200 (user_body (user_from_store u)))
      × (lookup tid t.store.users ≡ some u)

  stores_answer :
      (prof : Profile) (t : Server (mem_store p.case_table)) (response : Response)
      → (stores prof t).0 ≡ ok response
      → Answered response (stores prof t).1
  unfolding call_store or_internal ◌>>=◌ pure Users.upsert
  stores_answer prof t response h = (
    stored (user_row w tid prof) t.store.users,
    sym (ground arith),
    ground
        (arith, lookup-insert tid tid (stored (user_row w tid prof) t.store.users) t.store.users),
  )

  -- The row that a put has stored is the one that it answers with.
  put_row :
      (response : Response)
      → (handle_put_by_telegram p w r tid s).0 ≡ ok response
      → Answered response after
  unfolding handle_put_by_telegram
  put_row response h =
      let (_, _, h1, q1) = steps_of_bind _ _ s response h in
      let (_, _, h2, q2) = steps_of_bind _ _ _ response h1 in
      let (_, _, h3, q3) = steps_of_bind _ _ _ response h2 in
      let (prof, _, h4, q4) = steps_of_bind _ _ _ response h3 in
      rw (ap (λ x. x.1) (q1 ∙ q2 ∙ q3 ∙ q4)) (stores_answer prof _ response h4)

  -- Over the store in memory, after a put that returns a response, a get of the same id, by any
  -- caller who is let through and at any time, returns the very same response.
  pub put_then_get :
      (response : Response) (w' : World) (r' : Request) (caller : Option ApiKey × Text)
      → (handle_put_by_telegram p w r tid s).0 ≡ ok response
      → (authorize p w' r' (codes "read") after).0 ≡ ok caller
      → (handle_get_by_telegram p w' r' tid after).0 ≡ ok response
  unfolding handle_get_by_telegram
  put_then_get response w' r' caller h let_through =
      let (u, answer, found) = put_row response h in
      let kept =
        (authorize-Keeps p w'
            (OfMaps-KeptByReads p.case_table
              (λ users nicknames api_keys. lookup tid users ≡ some u))
            (no_tokens p) r' (codes "read")).at
          after (record { store = found; tokens = any_tokens after.tokens }) in
      ap (λ x. x.0) (bind_ok (authorize p w' r' (codes "read")) _ after caller let_through)
      ∙ (unfold call_store ◌>>=◌ or_not_found Users.get_by_telegram_id pure in
          rw (kept.store, answer, Users.get_by_telegram_id) refl)
