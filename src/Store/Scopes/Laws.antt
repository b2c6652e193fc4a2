-- ===== src/Store/Scopes/Laws.antt =====
-- The scopes of pkg/store/store.go, pkg/api/server.go and cmd/admin/main.go.
use s21_identity_service.Base.{
  ◌≡◌, refl, ◌≢◌, ◌⊎◌, inl, inr, Bool, true, false, some, List, [], ◌∷◌, arith, text_eq, All,
  Bool-cases, ==_iff, ◌==◌,
}
use s21_identity_service.Text.{Text, codes, split, trim_space, IsTrimmed, trim_space-IsTrimmed}
use s21_identity_service.Store.Scopes.{
  kept_parts, split_scopes, has_scope_in, allowed_scopes, canonicalise_scopes,
}

abbrev pub IsCanonical : Text → Type 0
IsCanonical c = (c ≡ codes "read") ⊎ (c ≡ codes "read,write") ⊎ (c ≡ codes "read,write,admin")

-- The command line tool and the HTTP handler store the same text for the same request, and refuse
-- the same requests.
pub canonicalise_scopes-allowed_scopes :
    (s : Text) → canonicalise_scopes s ≡ allowed_scopes (trim_space s)
unfolding canonicalise_scopes allowed_scopes
canonicalise_scopes-allowed_scopes s = ground arith

allowed_scopes_lem : (s c : Text) → allowed_scopes s ≡ some c → IsCanonical c
unfolding allowed_scopes
allowed_scopes_lem s c h = ground arith

read_grants :
    (has_scope_in (codes "read") (codes "read") ≡ true)
    × (has_scope_in (codes "read") (codes "write") ≡ false)
    × (has_scope_in (codes "read") (codes "admin") ≡ false)
unfolding has_scope_in split trim_space text_eq
read_grants = (refl, refl, refl)

write_grants :
    (has_scope_in (codes "read,write") (codes "read") ≡ true)
    × (has_scope_in (codes "read,write") (codes "write") ≡ true)
    × (has_scope_in (codes "read,write") (codes "admin") ≡ false)
unfolding has_scope_in split trim_space text_eq
write_grants = (refl, refl, refl)

admin_grants :
    (has_scope_in (codes "read,write,admin") (codes "read") ≡ true)
    × (has_scope_in (codes "read,write,admin") (codes "write") ≡ true)
    × (has_scope_in (codes "read,write,admin") (codes "admin") ≡ true)
unfolding has_scope_in split trim_space text_eq
admin_grants = (refl, refl, refl)

-- What a row of each canonical form grants.
abbrev pub Grants : Text → Bool → Bool → Type 0
Grants c write admin =
    (has_scope_in c (codes "read") ≡ true)
    × (has_scope_in c (codes "write") ≡ write)
    × (has_scope_in c (codes "admin") ≡ admin)

-- If the handler accepts a request for scopes, the stored row grants read; it grants write unless
-- the request is a plain `read`, and admin exactly when the request names `admin`.
pub allowed_scopes-Grants :
    (s c : Text)
    → allowed_scopes s ≡ some c
    → ((s ≡ codes "read") × Grants c false false)
      ⊎ ((s ≡ codes "write" ⊎ s ≡ codes "read,write" ⊎ s ≡ codes "write,read")
          × Grants c true false)
      ⊎ ((s ≡ codes "admin" ⊎ s ≡ codes "read,write,admin" ⊎ s ≡ codes "admin,read,write")
          × Grants c true true)
unfolding allowed_scopes
allowed_scopes-Grants s c h = ground (arith, read_grants, write_grants, admin_grants)

IsCanonical-fixed : (c : Text) → IsCanonical c → allowed_scopes c ≡ some c
unfolding allowed_scopes text_eq
IsCanonical-fixed c (inl e) = rw e refl
IsCanonical-fixed c (inr (inl e)) = rw e refl
IsCanonical-fixed c (inr (inr e)) = rw e refl

-- The stored form of an accepted request is one of the three canonical texts, and is accepted as
-- itself.
pub allowed_scopes-IsCanonical :
    (s c : Text) → allowed_scopes s ≡ some c → IsCanonical c × (allowed_scopes c ≡ some c)
allowed_scopes-IsCanonical s c h = let i = allowed_scopes_lem s c h in (i, IsCanonical-fixed c i)

-- A scope of a row, as `HasScope` compares it: without spaces around, without a comma, not empty.
abbrev pub IsScopeName : Text → Type 0
IsScopeName s = IsTrimmed s × (s ≢ [])

kept_parts-IsScopeName : (ps : List Text) → All IsScopeName (kept_parts ps)
unfolding kept_parts
kept_parts-IsScopeName [] = tt
kept_parts-IsScopeName (p ∷ ps) = elim (Bool-cases (trim_space p == [])) [
  | inl e ↦ rw e (kept_parts-IsScopeName ps)
  | inr e ↦ rw e (
    (trim_space-IsTrimmed p, λ q. cc ((==_iff (trim_space p) []).1 q)),
    kept_parts-IsScopeName ps,
  )
]

-- Every scope that `split_scopes` yields is trimmed and not empty.
pub split_scopes-IsScopeName : (s : Text) → All IsScopeName (split_scopes s)
unfolding split_scopes
split_scopes-IsScopeName s = kept_parts-IsScopeName (split s b',')
