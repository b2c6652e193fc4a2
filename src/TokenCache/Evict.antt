-- ===== src/TokenCache/Evict.antt =====
-- `evictLocked` of pkg/api/s21_token_cache.go.
use s21_identity_service.Base.{
  ℕ, zero, suc, ◌<◌, ◌≤◌, ◌≡◌, refl, sym, ◌∙◌, none, List, [], ◌∷◌, arith, length, ltb,
  Option-cases, Bool-cases, inl, inr,
}
use s21_identity_service.TokenCache.Defs.{TokenCache, back, drop_back, evict_loop, evict_locked}
use s21_identity_service.TokenCache.Recency.{Recent, first}
use s21_identity_service.TokenCache.Pointers.{
  values, length-remove, contains-back, back-some, first-remove-back, first_all,
}
use s21_identity_service.TokenCache.Links.{IsLinked, drop_back-IsLinked}

-- The cache as its client sees it: the entries, the most recently used first.
abbrev pub view : TokenCache → Recent
view c = values c.heap c.lru

pub record Evicted (c d : TokenCache) : Type 0 where
  pub linked : IsLinked d
  pub fits : length d.entries ≤ c.max_entries
  pub kept : view d ≡ first c.max_entries (view c)
  pub ttl : d.ttl ≡ c.ttl
  pub max_entries : d.max_entries ≡ c.max_entries

back-ne-none : (l : List ℕ) → 0 < length l → back l ≡ none → ⊥
back-ne-none [] p e = absurd (omega arith)
back-ne-none (x ∷ l) p e = let (b, q) = back-some x l in cc

evict_loop-Evicted :
    (fuel : ℕ) {c : TokenCache} → IsLinked c → length c.lru ≤ fuel → Evicted c (evict_loop fuel c)
unfolding evict_loop
evict_loop-Evicted zero {c} w h = record {
  linked = w;
  fits = omega (arith, w.sizes);
  kept = sym (first_all c.heap c.max_entries c.lru (omega arith));
  ttl = refl;
  max_entries = refl;
}
evict_loop-Evicted (suc fuel) {c} w h = elim (Bool-cases (ltb c.max_entries (length c.entries))) [
  | inr done ↦ rw done (record {
    linked = w;
    fits = ground arith;
    kept = sym (first_all c.heap c.max_entries c.lru (ground (arith, w.sizes)));
    ttl = refl;
    max_entries = refl;
  })
  | inl more ↦ elim (Option-cases (back c.lru)) [
    | inl e ↦ absurd (back-ne-none c.lru (ground (arith, w.sizes)) e)
    | inr (b, e) ↦
        let shorter = length-remove b c.lru w.distinct (contains-back b c.lru e) in
        let r =
          evict_loop-Evicted fuel (drop_back-IsLinked w b e)
            (unfold drop_back in omega (arith, shorter)) in
        rw (more, e)
          (record {
            linked = r.linked;
            fits = unfold drop_back in r.fits;
            kept =
                r.kept
                ∙ (unfold drop_back in
                    first-remove-back c.heap c.max_entries b c.lru w.distinct e
                      (ground (arith, w.sizes)));
            ttl = unfold drop_back in r.ttl;
            max_entries = unfold drop_back in r.max_entries;
          })
  ]
]

-- From linked elements the loop of `evict_locked`, on the fuel that it gets, ends with linked
-- elements within the cap, and they are the most recent ones.
pub evict_locked-Evicted : {c : TokenCache} → IsLinked c → Evicted c (evict_locked c)
evict_locked-Evicted {c} w =
    unfold evict_locked in evict_loop-Evicted (length c.lru) w (omega arith)
