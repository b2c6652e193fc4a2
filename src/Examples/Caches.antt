-- ===== src/Examples/Caches.antt =====
-- The theorems on the token cache, applied.
use s21_identity_service.Base.{
  ℕ, ◌≡◌, ◌≢◌, refl, ◌⊎◌, inl, inr, ◌<◌, ◌≤◌, ◌+◌, Option, none, some, List, [], ◌∷◌, text_eq,
  arith,
}
use s21_identity_service.Base.Int.{pos}
use s21_identity_service.Base.Map.{lookup}
use s21_identity_service.Text.{Text, codes}
use s21_identity_service.TokenCache.Defs
use s21_identity_service.TokenCache.Defs.{TokenCache, new_with_max, evict_locked}
use s21_identity_service.TokenCache.Recency.{read, record_login}
use s21_identity_service.TokenCache.Evict.{view, Evicted, evict_locked-Evicted}
use s21_identity_service.TokenCache.Refines.{Shows, IsCache, get-read}
use s21_identity_service.TokenCache.Writes.{entry_at, put-record_login}
use s21_identity_service.TokenCache.Trust.{Call, put, run, Vouched, run-IsCache, get-Vouched}
use s21_identity_service.Examples.{cache}

abbrev same_text : Text → Text
same_text t = t

-- Three logins are put into a cache for two, the latest call first.
abbrev calls : List Call
calls =
    put 3 (codes "c") (codes "carol")
    ∷ put 2 (codes "b") (codes "bob")
    ∷ put 1 (codes "a") (codes "alice")
    ∷ []

abbrev full : TokenCache
full = run same_text calls cache

hit : (Defs.get same_text 50 (codes "b") full).0 ≡ some (codes "bob")
unfolding run Defs.get text_eq lookup Defs.put new_with_max s21_identity_service.Base.Map.insert
    s21_identity_service.Base.Map.erase
hit = refl

get-Vouched_example : Vouched same_text 100 50 (codes "b") (codes "bob") calls
get-Vouched_example = get-Vouched same_text 100 (pos 2) calls 50 (codes "b") (codes "bob") hit

fresh : 60 ≤ 50 + full.ttl
unfolding run Defs.get text_eq lookup Defs.put new_with_max s21_identity_service.Base.Map.insert
    s21_identity_service.Base.Map.erase
fresh = omega arith

full-IsCache : IsCache full
full-IsCache = run-IsCache same_text 100 (pos 2) calls

put-record_login_example :
    Shows full
      (Defs.put same_text 50 (codes "d") (codes "dave") full)
      (record_login full.max_entries (entry_at 50 full.ttl (codes "d") (codes "dave")) (view full))
put-record_login_example =
    put-record_login same_text full-IsCache 50 (codes "dave") (codes "d") (λ q. cc)

get-read_example :
    ((Defs.get same_text 50 (codes "b") full).0 ≡ (read 50 (codes "b") (view full)).0)
    × Shows full (Defs.get same_text 50 (codes "b") full).1 (read 50 (codes "b") (view full)).1
get-read_example = get-read same_text full-IsCache 50 (codes "b") (λ q. cc)

evict_locked-Evicted_example : Evicted full (evict_locked full)
evict_locked-Evicted_example = evict_locked-Evicted (full-IsCache.0)
