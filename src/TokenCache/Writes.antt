-- ===== src/TokenCache/Writes.antt =====
-- `Put` and `Invalidate` of pkg/api/s21_token_cache.go against the recency list.
use s21_identity_service.Base.{
  ℕ, ◌+◌, ◌≤◌, ◌≡◌, ◌≢◌, refl, sym, ◌∙◌, ap, false, none, some, List, [], ◌∷◌, arith, length,
  text_eq, Option-cases, inl, inr,
}
use s21_identity_service.Base.Map
use s21_identity_service.Base.Map.{lookup}
use s21_identity_service.Base.Int.{ℤ}
use s21_identity_service.Text.{Text}
use s21_identity_service.Store.{Time}
use s21_identity_service.TokenCache.Defs.{
  Entry, TokenCache, contains, remove, move_to_front, write, push, refresh, evict_locked, put,
  invalidate, new_with_max,
}
use s21_identity_service.TokenCache.Recency.{forget, first, record_login}
use s21_identity_service.TokenCache.Pointers.{values, values-write, first_all, contains-remove}
use s21_identity_service.TokenCache.Links.{promote-IsLinked, write-IsLinked, push-IsLinked}
use s21_identity_service.TokenCache.Evict.{view, evict_locked-Evicted}
use s21_identity_service.TokenCache.Refines.{
  Shows, IsCache, find_absent, values_unlinked, put_present, put_absent, unlink-Shows, Shows-self,
}

write_self : (heap : ℕ → Entry) (a : ℕ) (e : Entry) → write heap a e a ≡ e
unfolding write
write_self heap a e = ground arith

removed : (a : ℕ) (l : List ℕ) → contains (remove a l) a ≡ false
removed a l = ground (arith, contains-remove a a l)

-- The entry that a `Put` at `now` records.
abbrev pub entry_at : Time → ℕ → Text → Text → Entry
entry_at now ttl key login = record { hash = key; login = login; expires_at = now + ttl }

module _ (hash_token : Text → Text) {c : TokenCache} (v : IsCache c) (now : Time)
    (login : Text) where
  module _ (key : Text) where
    abbrev written : Entry
    written = entry_at now c.ttl key login

    module _ (a : ℕ) (l : lookup key c.entries ≡ some a) where
      same_entry : record (c.heap a) { login = login; expires_at = now + c.ttl } ≡ written
      same_entry = ground (arith, v.0.hash_of key a l)

      front : move_to_front a c.lru ≡ a ∷ remove a c.lru
      unfolding move_to_front
      front = rw (v.0.listed key a l)

      rewritten :
          (e : Entry) → values (write c.heap a e) (move_to_front a c.lru) ≡ e ∷ forget key (view c)
      rewritten e =
          rw
            (
              front,
              write_self c.heap a e,
              values-write c.heap a e (remove a c.lru) (removed a c.lru),
            )
            (ap (◌∷◌ e) (values_unlinked v key a l))

      view-refresh : view (refresh hash_token now login a c) ≡ written ∷ forget key (view c)
      unfolding refresh
      view-refresh = rewritten _ ∙ ap (λ e. e ∷ forget key (view c)) same_entry

      length-refresh : length (refresh hash_token now login a c).lru ≤ c.max_entries
      unfolding refresh
      length-refresh = omega (arith, v.1, (promote-IsLinked v.0 a).sizes)

      pub refresh-Shows :
          Shows c (refresh hash_token now login a c) (record_login c.max_entries written (view c))
      refresh-Shows = record {
        linked =
            unfold refresh in
            write-IsLinked (promote-IsLinked v.0 a) a
              (record (c.heap a) { login = login; expires_at = now + c.ttl }) refl;
        fits = unfold refresh in v.1;
        shown =
            unfold record_login in
            (sym (
                first_all (refresh hash_token now login a c).heap c.max_entries
                  (refresh hash_token now login a c).lru length-refresh)
              ∙ ap (first c.max_entries) view-refresh);
        ttl = unfold refresh in refl;
        max_entries = unfold refresh in refl;
      }

    module _ (l : lookup key c.entries ≡ none) where
      view-push : view (push hash_token now key login c) ≡ written ∷ forget key (view c)
      unfolding push
      view-push =
          rw (write_self c.heap c.next written, values-write c.heap c.next written c.lru next_fresh)
            (ap (◌∷◌ written) (sym (find_absent v key l).1))
        where
          next_fresh : contains c.lru c.next ≡ false
          next_fresh = ground (arith, v.0.fresh c.next)

      pub push-Shows :
          Shows c
            (evict_locked (push hash_token now key login c))
            (record_login c.max_entries written (view c))
      push-Shows =
          let r = evict_locked-Evicted (push-IsLinked v.0 hash_token now key login l) in
          record {
            linked = r.linked;
            fits = omega (arith, r.fits, r.max_entries);
            shown =
                unfold record_login push in
                (r.kept ∙ ap (first c.max_entries) (unfold push in view-push));
            ttl = unfold push in r.ttl;
            max_entries = unfold push in r.max_entries;
          }

  -- A write of a token that is not empty into a well-formed cache leaves a well-formed cache whose
  -- list of recent entries is as `record_login` says: the new entry in front, any older entry of
  -- the token gone, and no more entries than the cap, the least recent ones dropped.
  pub put-record_login :
      (token : Text)
      → token ≢ []
      → Shows c
          (put hash_token now token login c)
          (record_login c.max_entries (entry_at now c.ttl (hash_token token) login) (view c))
  put-record_login token ne = elim (Option-cases (lookup (hash_token token) c.entries)) [
    | inl l ↦ rw (put_absent hash_token v now token ne login l) (push-Shows (hash_token token) l)
    | inr (a, l) ↦
        rw (put_present hash_token v now token ne login a l) (refresh-Shows (hash_token token) a l)
  ]

-- Invalidating a token that is not empty in a well-formed cache leaves a well-formed cache that has
-- lost the entry of the token and no other.
pub invalidate-forget :
    (hash_token : Text → Text) {c : TokenCache}
    → IsCache c
    → (token : Text) → token ≢ []
    → Shows c (invalidate hash_token token c) (forget (hash_token token) (view c))
invalidate-forget hash_token {c} v token ne =
    elim (Option-cases (lookup (hash_token token) c.entries)) [
      | inl l ↦ rw (absent l, (find_absent v (hash_token token) l).1) (Shows-self v)
      | inr (a, l) ↦ rw (present a l) (unlink-Shows v (hash_token token) a l)
    ]
  where
    absent : lookup (hash_token token) c.entries ≡ none → invalidate hash_token token c ≡ c
    absent l = unfold invalidate in ground arith

    present :
        (a : ℕ)
        → lookup (hash_token token) c.entries ≡ some a
        → invalidate hash_token token c
          ≡ record c { entries = Map.erase (hash_token token) c.entries; lru = remove a c.lru }
    present a l = unfold invalidate in ground arith

-- A new cache is well formed and empty, whatever the cap asked for.
pub new_with_max-IsCache :
    (ttl : ℕ) (max_entries : ℤ)
    → IsCache (new_with_max ttl max_entries) × (view (new_with_max ttl max_entries) ≡ [])
unfolding new_with_max
new_with_max-IsCache ttl max_entries = (
  (
    record {
      nodup = tt;
      distinct = tt;
      hash_of = λ k a q. unfold lookup in ground arith;
      listed = λ k a q. unfold lookup in ground arith;
      mapped = λ a q. ground arith;
      fresh = λ a q. ground arith;
      sizes = refl;
    },
    ground arith,
    ground arith,
  ),
  refl,
)
