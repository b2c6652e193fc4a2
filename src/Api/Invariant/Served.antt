-- ===== src/Api/Invariant/Served.antt =====
-- Invariants of `ServeHTTP` of pkg/api/server.go, and of sequences of requests.
use s21_identity_service.Base.{inl, inr, Bool-cases, List, [], ◌∷◌, text_eq}
use s21_identity_service.Base.Exec.Keeps.{Keeps, Keeps-pure}
use s21_identity_service.Store.{Store}
use s21_identity_service.TokenCache.Defs.{TokenCache}
use s21_identity_service.Api.Models.{Request}
use s21_identity_service.Api.Platform.{Platform, World}
use s21_identity_service.Api.Server.{Server, request_is_tls}
use s21_identity_service.Api.Serve.{route, serve_http}
use s21_identity_service.Api.Serve.Cases.{route-case}
use s21_identity_service.Api.Invariant.{KeptByReads, KeptByWrites, KeptByTokens, Holds}
use s21_identity_service.Api.Invariant.Reads.{
  get_by_telegram-Keeps, lookup_telegram_batch-Keeps, list_by_nickname-Keeps, list_keys-Keeps,
}
use s21_identity_service.Api.Invariant.Writes.{
  put_by_telegram-Keeps, delete_by_telegram-Keeps, create_key-Keeps, revoke_key-Keeps,
}

-- A sequence of requests, each with what the world answers to it, the first one served first.
unfoldable pub serve_all : Platform → {S : Store} → List (World × Request) → Server S → Server S
serve_all p [] s = s
serve_all p ((w, r) ∷ rest) s = serve_all p rest (serve_http p w r s).1

module _ (p : Platform) {S : Store} {Q : S.State → Type 0} {R : TokenCache → Type 0}
    (reads : KeptByReads S Q) (writes : KeptByWrites S Q) (caches : KeptByTokens p R) where
  abbrev P : Server S → Type 0
  P = Holds {S = S} Q R

  route-Keeps : (w : World) (r : Request) → Keeps P (route p w r)
  route-Keeps w r = route-case {Z = λ m. Keeps P m} (record {
    plain = λ response. Keeps-pure response;
    get_by_telegram = get_by_telegram-Keeps p w reads caches r;
    lookup_telegram_batch = lookup_telegram_batch-Keeps p w reads caches r;
    list_by_nickname = list_by_nickname-Keeps p w reads caches r;
    put_by_telegram = put_by_telegram-Keeps p w reads writes caches r;
    delete_by_telegram = delete_by_telegram-Keeps p w reads writes caches r;
    create_key = create_key-Keeps p w reads writes caches r;
    list_keys = list_keys-Keeps p w reads caches r;
    revoke_key = revoke_key-Keeps p w reads writes caches r;
  })

  pub serve_http-Holds : (w : World) (r : Request) (s : Server S) → P s → P (serve_http p w r s).1
  unfolding serve_http
  serve_http-Holds w r s h = elim (Bool-cases (request_is_tls p r s)) [
    | inl e ↦ simp e ((route-Keeps w r).at s h)
    | inr e ↦ simp e h
  ]

  pub serve_all-Holds :
      (requests : List (World × Request)) (s : Server S) → P s → P (serve_all p requests s)
  unfolding serve_all
  serve_all-Holds [] s h = h
  serve_all-Holds ((w, r) ∷ rest) s h = serve_all-Holds rest _ (serve_http-Holds w r s h)
