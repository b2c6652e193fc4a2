-- ===== src/TokenCache/Recency.antt =====
-- The specification of pkg/api/s21_token_cache.go: a list of entries, the most recently used first.
use s21_identity_service.Base.{
  ℕ, zero, suc, Option, none, some, List, [], ◌∷◌, ltb, ◌==◌, text_eq, if◌then◌else◌,
}
use s21_identity_service.Text.{Text}
use s21_identity_service.Store.{Time}
use s21_identity_service.TokenCache.Defs.{Entry}

abbrev pub Recent : Type 0
Recent = List Entry

unfoldable pub find : Text → Recent → Option Entry
find h [] = none
find h (e ∷ es) = if e.hash == h then some e else find h es

unfoldable pub forget : Text → Recent → Recent
forget h [] = []
forget h (e ∷ es) = let rest = forget h es in if e.hash == h then rest else e ∷ rest

unfoldable pub first : ℕ → Recent → Recent
first zero es = []
first (suc n) [] = []
first (suc n) (e ∷ es) = e ∷ first n es

-- A read yields the login of an entry that has not expired, which comes to the front; an expired
-- entry goes.
unfoldable pub read : Time → Text → Recent → Option Text × Recent
unfolding find forget
read now h es = elim (find h es) [
  | none ↦ (none, es)
  | some e ↦ if ltb e.expires_at now then (none, forget h es) else (some e.login, e ∷ forget h es)
]

-- A write comes to the front; the `n` most recent entries stay.
unfoldable pub record_login : ℕ → Entry → Recent → Recent
unfolding forget first
record_login n e es = first n (e ∷ forget e.hash es)
