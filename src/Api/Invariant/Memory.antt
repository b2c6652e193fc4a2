-- ===== src/Api/Invariant/Memory.antt =====
-- The server over the store in memory, from its start.
use s21_identity_service.Base.{List}
use s21_identity_service.Base.Int.{pos}
use s21_identity_service.TokenCache.Defs.{TokenCache}
use s21_identity_service.TokenCache.Refines.{IsCache}
use s21_identity_service.TokenCache.Writes.{new_with_max-IsCache}
use s21_identity_service.TokenCache.Kept.{get-IsCache, put-IsCache}
use s21_identity_service.TokenCache.Defs
use s21_identity_service.MemStore.{mem_store, empty}
use s21_identity_service.MemStore.Invariant.{IsSound, empty-IsSound, reads-IsSound, writes-IsSound}
use s21_identity_service.Api.Models.{Request}
use s21_identity_service.Api.Platform.{Platform, World}
use s21_identity_service.Api.Server
use s21_identity_service.Api.Invariant.{KeptByTokens, Holds}
use s21_identity_service.Api.Invariant.Served.{serve_all, serve_all-Holds}

pub caches-IsCache : (p : Platform) → KeptByTokens p IsCache
caches-IsCache p = record {
  get = λ now token {c} v. get-IsCache p.hash now token v;
  put = λ now token login {c} v. put-IsCache p.hash now token v login;
}

-- A new server over the empty store, after any sequence of requests and with any answers of the
-- clock, of S21 and of the random source: each map of the store has its rows under their own keys,
-- no two active API keys share a name or a creator that is set, and the token cache is well formed
-- and holds no more entries than its cap.
pub served_from_new :
    (p : Platform) (requests : List (World × Request))
    → Holds {S = mem_store p.case_table}
        (IsSound p.case_table)
        IsCache
        (serve_all p requests (Server.new {S = mem_store p.case_table} empty))
unfolding Server.new Defs.new
served_from_new p requests =
    serve_all-Holds p (reads-IsSound p.case_table) (writes-IsSound p.case_table) (caches-IsCache p)
      requests _
      (record {
        store = empty-IsSound p.case_table;
        tokens = (new_with_max-IsCache Server.s21_token_cache_ttl (pos Defs.default_max)).0;
      })
