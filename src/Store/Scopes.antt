-- ===== src/Store/Scopes.antt =====
-- The scopes of an API key: `splitScopes` and `HasScope` of pkg/store/store.go, `allowedScopes` of
-- pkg/api/server.go and `canonicaliseScopes` of cmd/admin/main.go.
pub mod Laws
use s21_identity_service.Base.{
  Bool, ◌||◌, Option, none, some, List, [], ◌∷◌, ◌==◌, text_eq, any, if◌then◌else◌,
}
use s21_identity_service.Text.{Text, codes, split, trim_space}

-- The loop of `splitScopes` over the pieces.
kept_parts : List Text → List Text
kept_parts [] = []
kept_parts (p ∷ ps) =
    let trimmed = trim_space p in
    let rest = kept_parts ps in if trimmed == [] then rest else trimmed ∷ rest

unfoldable pub split_scopes : Text → List Text
unfolding kept_parts
split_scopes s = kept_parts (split s b',')

-- The loop of `HasScope`.
unfoldable pub has_scope_in : Text → Text → Bool
unfolding split_scopes
has_scope_in scopes scope = any (λ s. s == scope) (split_scopes scopes)

-- The map `allowedScopes`: the canonical form of each accepted spelling.
unfoldable pub allowed_scopes : Text → Option Text
allowed_scopes s =
    if s == codes "read"
    then some (codes "read")
    else if s == codes "write"
    then some (codes "read,write")
    else if s == codes "read,write"
    then some (codes "read,write")
    else if s == codes "write,read"
    then some (codes "read,write")
    else if s == codes "admin"
    then some (codes "read,write,admin")
    else if s == codes "read,write,admin"
    then some (codes "read,write,admin")
    else if s == codes "admin,read,write"
    then some (codes "read,write,admin")
    else none

-- The command line tool's own table; its second result is the test for `none`.
unfoldable pub canonicalise_scopes : Text → Option Text
canonicalise_scopes s =
    let t = trim_space s in
    if t == codes "read"
    then some (codes "read")
    else if t == codes "write" || t == codes "read,write" || t == codes "write,read"
    then some (codes "read,write")
    else if t == codes "admin" || t == codes "read,write,admin" || t == codes "admin,read,write"
    then some (codes "read,write,admin")
    else none
