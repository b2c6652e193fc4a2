-- ===== src/TokenCache/Refines.antt =====
-- `Get` of pkg/api/s21_token_cache.go against the recency list of `Recency`.
use s21_identity_service.Base.{
  ℕ, ◌<◌, ◌≤◌, ◌≡◌, ◌≢◌, refl, ap, true, false, none, some, [], ◌∷◌, arith, length, ltb, text_eq,
  if◌then◌else◌, Option-cases, Bool-cases, inl, inr,
}
use s21_identity_service.Base.Map
use s21_identity_service.Base.Map.{lookup}
use s21_identity_service.Text.{Text}
use s21_identity_service.Store.{Time}
use s21_identity_service.TokenCache.Defs.{
  Entry, TokenCache, remove, move_to_front, push, refresh, evict_locked, get, put, invalidate,
}
use s21_identity_service.TokenCache.Recency.{Recent, find, forget, read}
use s21_identity_service.TokenCache.Pointers.{values, values-remove, find-values, find_missing}
use s21_identity_service.TokenCache.Links.{
  IsLinked, OnlyAt-mapped, unmapped, unlink-IsLinked, promote-IsLinked,
}
use s21_identity_service.TokenCache.Evict.{view}

-- `d` is a well-formed cache with the settings of `c` and the entries `r`, most recent first.
pub record Shows (c d : TokenCache) (r : Recent) : Type 0 where
  pub linked : IsLinked d
  pub fits : length d.entries ≤ d.max_entries
  pub shown : view d ≡ r
  pub ttl : d.ttl ≡ c.ttl
  pub max_entries : d.max_entries ≡ c.max_entries

abbrev pub IsCache : TokenCache → Type 0
IsCache c = IsLinked c × (length c.entries ≤ c.max_entries) × (0 < c.max_entries)

pub Shows-self : {c : TokenCache} → IsCache c → Shows c c (view c)
Shows-self v = record { linked = v.0; fits = v.1; shown = refl; ttl = refl; max_entries = refl }

pub Shows-IsCache : {c d : TokenCache} {r : Recent} → IsCache c → Shows c d r → IsCache d
Shows-IsCache v s = (s.linked, s.fits, omega (arith, v.2, s.max_entries))

module _ {c : TokenCache} (v : IsCache c) (h : Text) where
  pub find_absent :
      lookup h c.entries ≡ none → (find h (view c) ≡ none) × (forget h (view c) ≡ view c)
  find_absent l = find_missing c.heap h c.lru (unmapped v.0 h l)

  module _ (a : ℕ) (l : lookup h c.entries ≡ some a) where
    pub find_present : find h (view c) ≡ some (c.heap a)
    find_present =
        find-values c.heap h a c.lru (v.0.hash_of h a l) (OnlyAt-mapped v.0 h a l)
          (v.0.listed h a l)

    pub values_unlinked : values c.heap (remove a c.lru) ≡ forget h (view c)
    values_unlinked = values-remove c.heap h a c.lru (v.0.hash_of h a l) (OnlyAt-mapped v.0 h a l)

    pub unlink-Shows :
        Shows c
          (record c { entries = Map.erase h c.entries; lru = remove a c.lru })
          (forget h (view c))
    unlink-Shows = record {
      linked = unlink-IsLinked v.0 h a l;
      fits = omega (arith, v.1, Map.length-erase_found h a c.entries v.0.nodup l);
      shown = values_unlinked;
      ttl = refl;
      max_entries = refl;
    }

    values_promoted : values c.heap (move_to_front a c.lru) ≡ c.heap a ∷ forget h (view c)
    unfolding move_to_front
    values_promoted = rw (v.0.listed h a l) (ap (◌∷◌ (c.heap a)) values_unlinked)

    promote-Shows :
        Shows c (record c { lru = move_to_front a c.lru }) (c.heap a ∷ forget h (view c))
    promote-Shows = record {
      linked = promote-IsLinked v.0 a;
      fits = v.1;
      shown = values_promoted;
      ttl = refl;
      max_entries = refl;
    }

module _ (hash_token : Text → Text) {c : TokenCache} (v : IsCache c) (now : Time)
    (token : Text) where
  abbrev pub key : Text
  key = hash_token token

  module _ (ne : token ≢ []) where
    get_absent : lookup key c.entries ≡ none → get hash_token now token c ≡ (none, c)
    unfolding get
    get_absent l = ground arith

    get_expired :
        (a : ℕ)
        → lookup key c.entries ≡ some a
        → ltb (c.heap a).expires_at now ≡ true
        → get hash_token now token c
          ≡ (none, record c { entries = Map.erase key c.entries; lru = remove a c.lru })
    unfolding get
    get_expired a l x = ground arith

    get_hit :
        (a : ℕ)
        → lookup key c.entries ≡ some a
        → ltb (c.heap a).expires_at now ≡ false
        → get hash_token now token c
          ≡ (some (c.heap a).login, record c { lru = move_to_front a c.lru })
    unfolding get
    get_hit a l x = ground arith

    read_absent : find key (view c) ≡ none → read now key (view c) ≡ (none, view c)
    unfolding read
    read_absent l = ground arith

    read_present :
        (e : Entry)
        → find key (view c) ≡ some e
        → read now key (view c) ≡ (
            if ltb e.expires_at now
            then (none, forget key (view c))
            else (some e.login, e ∷ forget key (view c)))
    unfolding read
    read_present e l = ground arith

    -- A read of a token that is not empty in a well-formed cache returns what `read` finds in the
    -- list of recent entries, and leaves a well-formed cache with the list that `read` leaves.
    pub get-read :
        ((get hash_token now token c).0 ≡ (read now key (view c)).0)
        × Shows c (get hash_token now token c).1 (read now key (view c)).1
    get-read = elim (Option-cases (lookup key c.entries)) [
      | inl l ↦ rw (get_absent l, read_absent (find_absent v key l).0) (refl, Shows-self v)
      | inr (a, l) ↦
          let p = read_present (c.heap a) (find_present v key a l) in
          elim (Bool-cases (ltb (c.heap a).expires_at now)) [
            | inl x ↦ rw (get_expired a l x, p, x) (refl, unlink-Shows v key a l)
            | inr x ↦ rw (get_hit a l x, p, x) (refl, promote-Shows v key a l)
          ]
    ]

    pub put_present :
        (login : Text) (a : ℕ)
        → lookup key c.entries ≡ some a
        → put hash_token now token login c ≡ refresh hash_token now login a c
    unfolding put
    put_present login a l = ground arith

    pub put_absent :
        (login : Text)
        → lookup key c.entries ≡ none
        → put hash_token now token login c ≡ evict_locked (push hash_token now key login c)
    unfolding put
    put_absent login l = ground arith

module _ (hash_token : Text → Text) (c : TokenCache) where
  pub get_empty : (now : Time) → get hash_token now [] c ≡ (none, c)
  unfolding get
  get_empty now = ground arith

  pub get-some_ne_empty :
      (now : Time) (token login : Text) → (get hash_token now token c).0 ≡ some login → token ≢ []
  unfolding get
  get-some_ne_empty now token login r e = ground arith

  pub put_empty : (now : Time) (login : Text) → put hash_token now [] login c ≡ c
  unfolding put
  put_empty now login = ground arith

  pub invalidate_empty : invalidate hash_token [] c ≡ c
  unfolding invalidate
  invalidate_empty = ground arith
