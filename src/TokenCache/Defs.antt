-- ===== src/TokenCache/Defs.antt =====
-- The type `S21TokenCache` of pkg/api/s21_token_cache.go and its methods.
use s21_identity_service.Base.{
  ℕ, zero, suc, ◌+◌, Bool, Option, none, some, List, [], ◌∷◌, any, length, ltb, ◌==ℕ◌, ◌==◌,
  text_eq, if◌then◌else◌,
}
use s21_identity_service.Base.Int.{ℤ, pos, pos_part, ltb_ℤ}
use s21_identity_service.Base.Map
use s21_identity_service.Base.Map.{Map}
use s21_identity_service.Text.{Text}
use s21_identity_service.Store.{Time}

-- `s21TokenEntry`
pub record Entry : Type 0 where
  pub hash : Text
  pub login : Text
  pub expires_at : Time

pub record TokenCache : Type 0 where
  pub ttl : ℕ
  pub max_entries : ℕ
  pub entries : Map Text ℕ
  pub lru : List ℕ
  pub heap : ℕ → Entry
  pub next : ℕ

-- `container/list`: membership, `Remove`, `MoveToFront` and `Back`.
abbrev pub contains : List ℕ → ℕ → Bool
contains l a = any (λ x. x ==ℕ a) l

unfoldable pub remove : ℕ → List ℕ → List ℕ
remove a [] = []
remove a (x ∷ l) = let rest = remove a l in if x ==ℕ a then rest else x ∷ rest

unfoldable pub move_to_front : ℕ → List ℕ → List ℕ
move_to_front a l = if contains l a then a ∷ remove a l else l

unfoldable pub back : List ℕ → Option ℕ
back [] = none
back (a ∷ []) = some a
back (a ∷ b ∷ l) = back (b ∷ l)

-- A write through the pointer `a`.
unfoldable pub write : (ℕ → Entry) → ℕ → Entry → ℕ → Entry
write heap a e x = if x ==ℕ a then e else heap x

-- `defaultS21TokenCacheMax`
abbrev pub default_max : ℕ
default_max = 10000

abbrev no_entry : Entry
no_entry = record { hash = []; login = []; expires_at = 0 }

-- `NewS21TokenCacheWithMax`
unfoldable pub new_with_max : ℕ → ℤ → TokenCache
new_with_max ttl max_entries = record {
  ttl = ttl;
  max_entries = if ltb_ℤ max_entries (pos 1) then default_max else pos_part max_entries;
  entries = [];
  lru = [];
  heap = λ _. no_entry;
  next = 0;
}

-- `NewS21TokenCache`
unfoldable pub new : ℕ → TokenCache
unfolding new_with_max
new ttl = new_with_max ttl (pos default_max)

-- One round of the loop of `evictLocked`.
unfoldable pub drop_back : ℕ → TokenCache → TokenCache
unfolding remove
drop_back b c = record c { entries = Map.erase (c.heap b).hash c.entries; lru = remove b c.lru }

-- The loop. A round shortens the list, so as many rounds as it is long are all it can make.
unfoldable pub evict_loop : ℕ → TokenCache → TokenCache
unfolding drop_back back
evict_loop zero c = c
evict_loop (suc fuel) c =
    let next_rounds : TokenCache = elim (back c.lru) [
      | none ↦ c
      | some b ↦ evict_loop fuel (drop_back b c)
    ] in
    if ltb c.max_entries (length c.entries) then next_rounds else c

unfoldable pub evict_locked : TokenCache → TokenCache
unfolding evict_loop
evict_locked c = evict_loop (length c.lru) c

module _ (hash_token : Text → Text) where
  -- `Get`; `none` stands for the result false.
  unfoldable pub get : Time → Text → TokenCache → Option Text × TokenCache
  unfolding remove move_to_front
  get now token c =
      let key = hash_token token in
      if token == [] then (none, c) else elim (Map.lookup key c.entries) [
        | none ↦ (none, c)
        | some el ↦
            if ltb (c.heap el).expires_at now
            then (none, record c { entries = Map.erase key c.entries; lru = remove el c.lru })
            else (some (c.heap el).login, record c { lru = move_to_front el c.lru })
      ]

  -- The two cases of `Put`.
  unfoldable pub refresh : Time → Text → ℕ → TokenCache → TokenCache
  unfolding move_to_front write
  refresh now login el c = record c {
    lru = move_to_front el c.lru;
    heap = write c.heap el (record (c.heap el) { login = login; expires_at = now + c.ttl });
  }

  unfoldable pub push : Time → Text → Text → TokenCache → TokenCache
  unfolding write
  push now key login c =
      let el = c.next in
      record c {
        entries = Map.insert key el c.entries;
        lru = el ∷ c.lru;
        heap = write c.heap el (record { hash = key; login = login; expires_at = now + c.ttl });
        next = el + 1;
      }

  unfoldable pub put : Time → Text → Text → TokenCache → TokenCache
  unfolding refresh push evict_locked
  put now token login c =
      let key = hash_token token in
      if token == [] then c else elim (Map.lookup key c.entries) [
        | some el ↦ refresh now login el c
        | none ↦ evict_locked (push now key login c)
      ]

  unfoldable pub invalidate : Text → TokenCache → TokenCache
  unfolding remove
  invalidate token c =
      let key = hash_token token in
      if token == [] then c else elim (Map.lookup key c.entries) [
        | none ↦ c
        | some el ↦ record c { entries = Map.erase key c.entries; lru = remove el c.lru }
      ]

-- `Size`
abbrev pub size : TokenCache → ℕ
size c = length c.entries
