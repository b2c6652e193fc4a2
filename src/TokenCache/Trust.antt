-- ===== src/TokenCache/Trust.antt =====
-- Sequences of calls of pkg/api/s21_token_cache.go.
use s21_identity_service.Base.{
  ℕ, zero, suc, ◌+◌, ◌-◌, ◌≤◌, ◌≡◌, ◌≢◌, ◌⊎◌, refl, sym, ◌∙◌, ap, some, List, [], ◌∷◌, All, arith,
  ltb, ◌==◌, text_eq, Option-cases, Bool-cases, inl, inr, ==_iff,
}
use mathlib.Core.Path.{subst, subst₂}
use s21_identity_service.Base.Int.{ℤ}
use s21_identity_service.Text.{Text}
use s21_identity_service.Store.{Time}
use s21_identity_service.TokenCache.Defs
use s21_identity_service.TokenCache.Defs.{Entry, TokenCache, new_with_max, size}
use s21_identity_service.TokenCache.Recency.{Recent, find, forget, first, read, record_login}
use s21_identity_service.TokenCache.Evict.{view}
use s21_identity_service.TokenCache.Refines.{
  Shows, IsCache, Shows-IsCache, get-read, get_empty, get-some_ne_empty, put_empty,
  invalidate_empty,
}
use s21_identity_service.TokenCache.Writes.{
  entry_at, put-record_login, invalidate-forget, new_with_max-IsCache,
}

pub data Call : Type 0 where
  get : Time → Text → Call
  put : Time → Text → Text → Call
  invalidate : Text → Call

module _ (P : Entry → Type 0) where
  All-forget : (h : Text) (es : Recent) → All P es → All P (forget h es)
  unfolding forget
  All-forget h [] a = tt
  All-forget h (e ∷ es) (p, a) = elim (Bool-cases (e.hash == h)) [
    | inl q ↦ rw q (All-forget h es a)
    | inr q ↦ rw q (p, All-forget h es a)
  ]

  All-first : (n : ℕ) (es : Recent) → All P es → All P (first n es)
  unfolding first
  All-first zero es a = tt
  All-first (suc n) [] a = tt
  All-first (suc n) (e ∷ es) (p, a) = (p, All-first n es a)

  All-find :
      (h : Text) (es : Recent) (e : Entry) → All P es → find h es ≡ some e → P e × (e.hash ≡ h)
  unfolding find
  All-find h [] e a f = absurd (ground arith)
  All-find h (x ∷ es) e (p, a) f = elim (Bool-cases (x.hash == h)) [
    | inl q ↦ let same : x ≡ e = ground arith in (subst P same p, ground arith)
    | inr q ↦ All-find h es e a (ground arith)
  ]

  All-read : (now : Time) (h : Text) (es : Recent) → All P es → All P (read now h es).1
  unfolding read
  All-read now h es a = elim (Option-cases (find h es)) [
    | inl q ↦ rw (q, read) a
    | inr (e, q) ↦ elim (Bool-cases (ltb e.expires_at now)) [
      | inl x ↦ rw (q, x, read) (All-forget h es a)
      | inr x ↦ rw (q, x, read) ((All-find h es e a q).0, All-forget h es a)
    ]
  ]

  All-record_login :
      (n : ℕ) (e : Entry) (es : Recent) → P e → All P es → All P (record_login n e es)
  All-record_login n e es p a =
      unfold record_login in All-first n (e ∷ forget e.hash es) (p, All-forget e.hash es a)

-- A read that hits has found an entry of its hash that has not expired.
read-some :
    (now : Time) (h : Text) (es : Recent) (login : Text)
    → (read now h es).0 ≡ some login
    → (e : Entry) × (find h es ≡ some e) × (e.login ≡ login) × (now ≤ e.expires_at)
unfolding read
read-some now h es login r = elim (Option-cases (find h es)) [
  | inl q ↦ absurd (ground arith)
  | inr (e, q) ↦ (e, q, ground arith, ground arith)
]

module _ (hash_token : Text → Text) where
  unfoldable pub step : Call → TokenCache → TokenCache
  step (get now token) c = (Defs.get hash_token now token c).1
  step (put now token login) c = Defs.put hash_token now token login c
  step (invalidate token) c = Defs.invalidate hash_token token c

  -- The calls in the order of time, the latest first.
  unfoldable pub run : List Call → TokenCache → TokenCache
  unfolding step
  run [] c = c
  run (call ∷ earlier) c = step call (run earlier c)

  -- Some call has recorded the entry.
  abbrev Recorded : ℕ → List Call → Entry → Type 0
  Recorded ttl [] e = ⊥
  Recorded ttl (put now token login ∷ calls) e =
      (entry_at now ttl (hash_token token) login ≡ e) ⊎ Recorded ttl calls e
  Recorded ttl (_ ∷ calls) e = Recorded ttl calls e

  -- Some call has put the login for a token of this hash, at most `ttl` before `now`.
  abbrev pub Vouched : ℕ → Time → Text → Text → List Call → Type 0
  Vouched ttl now key login [] = ⊥
  Vouched ttl now key login (put time token l ∷ calls) =
      ((hash_token token ≡ key) × (l ≡ login) × (now ≤ time + ttl))
      ⊎ Vouched ttl now key login calls
  Vouched ttl now key login (_ ∷ calls) = Vouched ttl now key login calls

  Recorded-Vouched :
      (ttl : ℕ) (now : Time) (calls : List Call) (e : Entry)
      → Recorded ttl calls e
      → now ≤ e.expires_at
      → Vouched ttl now e.hash e.login calls
  Recorded-Vouched ttl now [] e r h = r
  Recorded-Vouched ttl now (put time token l ∷ calls) e (inl p) h = inl (ground arith)
  Recorded-Vouched ttl now (put time token l ∷ calls) e (inr r) h =
      inr (Recorded-Vouched ttl now calls e r h)
  Recorded-Vouched ttl now (get time token ∷ calls) e r h = Recorded-Vouched ttl now calls e r h
  Recorded-Vouched ttl now (invalidate token ∷ calls) e r h = Recorded-Vouched ttl now calls e r h

  -- A well-formed cache with the settings of a new one, whose entries have all been recorded.
  record Holds (ttl : ℕ) (calls : List Call) (c : TokenCache) : Type 0 where
    cache : IsCache c
    same_ttl : c.ttl ≡ ttl
    recorded : All (Recorded ttl calls) (view c)

  module _ (ttl : ℕ) (calls : List Call) where
    Shows-Holds :
        {c d : TokenCache} {r : Recent}
        → Holds ttl calls c
        → (more : List Call) → Shows c d r
        → All (Recorded ttl more) r
        → Holds ttl more d
    Shows-Holds h more s a = record {
      cache = Shows-IsCache h.cache s;
      same_ttl = s.ttl ∙ h.same_ttl;
      recorded = rw s.shown a;
    }

    earlier :
        (now : Time) (token login : Text) (es : Recent)
        → All (Recorded ttl calls) es
        → All (Recorded ttl (put now token login ∷ calls)) es
    earlier now token login [] a = tt
    earlier now token login (e ∷ es) (p, a) = (inr p, earlier now token login es a)

    step-Holds :
        (call : Call) {c : TokenCache} → Holds ttl calls c → Holds ttl (call ∷ calls) (step call c)
    unfolding step
    step-Holds (get now token) {c} h = elim (Bool-cases (token == [])) [
      | inl e ↦
          rw ((==_iff token []).0 e, step, get_empty)
            (record { cache = h.cache; same_ttl = h.same_ttl; recorded = h.recorded })
      | inr e ↦
          Shows-Holds h (get now token ∷ calls)
            (get-read hash_token h.cache now token (ground arith)).1
            (All-read (Recorded ttl calls) now (hash_token token) (view c) h.recorded)
    ]
    step-Holds (invalidate token) {c} h = elim (Bool-cases (token == [])) [
      | inl e ↦
          rw ((==_iff token []).0 e, step, invalidate_empty)
            (record { cache = h.cache; same_ttl = h.same_ttl; recorded = h.recorded })
      | inr e ↦
          Shows-Holds h (invalidate token ∷ calls)
            (invalidate-forget hash_token h.cache token (ground arith))
            (All-forget (Recorded ttl calls) (hash_token token) (view c) h.recorded)
    ]
    step-Holds (put now token login) {c} h = elim (Bool-cases (token == [])) [
      | inl e ↦
          rw ((==_iff token []).0 e, step, put_empty)
            (record {
              cache = h.cache;
              same_ttl = h.same_ttl;
              recorded = earlier now [] login (view c) h.recorded;
            })
      | inr e ↦
          Shows-Holds h (put now token login ∷ calls)
            (put-record_login hash_token h.cache now login token (ground arith))
            (All-record_login (Recorded ttl (put now token login ∷ calls)) c.max_entries
              (entry_at now c.ttl (hash_token token) login) (view c) (inl (rw h.same_ttl))
              (earlier now token login (view c) h.recorded))
    ]

  module _ (ttl : ℕ) (max_entries : ℤ) where
    run-Holds : (calls : List Call) → Holds ttl calls (run calls (new_with_max ttl max_entries))
    unfolding run
    run-Holds [] =
        let (v, e) = new_with_max-IsCache ttl max_entries in
        record { cache = v; same_ttl = unfold new_with_max in refl; recorded = rw e tt }
    run-Holds (call ∷ calls) = step-Holds ttl calls call (run-Holds calls)

    -- Whatever the calls, a new cache stays well formed and never holds more than its cap.
    pub run-IsCache : (calls : List Call) → IsCache (run calls (new_with_max ttl max_entries))
    run-IsCache calls = (run-Holds calls).cache

    -- Whatever the calls on a new cache, a read that hits returns a login that an earlier call has
    -- put for a token of the same hash, and no more than the time to live ago.
    pub get-Vouched :
        (calls : List Call) (now : Time) (token login : Text)
        → (Defs.get hash_token now token (run calls (new_with_max ttl max_entries))).0 ≡ some login
        → Vouched ttl now (hash_token token) login calls
    get-Vouched calls now token login r =
        let h = run-Holds calls in
        let c = run calls (new_with_max ttl max_entries) in
        let same =
          (get-read hash_token h.cache now token
            (get-some_ne_empty hash_token c now token login r)).0 in
        let (x, f, l, fresh) = read-some now (hash_token token) (view c) login (sym same ∙ r) in
        let (p, q) = All-find (Recorded ttl calls) (hash_token token) (view c) x h.recorded f in
        subst₂ (λ k n. Vouched ttl now k n calls) q l (Recorded-Vouched ttl now calls x p fresh)

-- In a well-formed cache a read that follows a write of the same token, which is not empty, returns
-- the login that was written, as long as the time to live has not passed, and whatever the cap.
pub get-put_self :
    (hash_token : Text → Text) {c : TokenCache}
    → IsCache c
    → (now later : Time) (token login : Text) → token ≢ []
    → later ≤ now + c.ttl
    → (Defs.get hash_token later token (Defs.put hash_token now token login c)).0 ≡ some login
get-put_self hash_token {c} v now later token login ne fresh =
    let s = put-record_login hash_token v now login token ne in
    (get-read hash_token (Shows-IsCache v s) later token ne).0
    ∙ ap (λ r. (read later (hash_token token) r).0) s.shown
    ∙ read_recorded
  where
    read_recorded :
        (read later
          (hash_token token)
          (record_login c.max_entries (entry_at now c.ttl (hash_token token) login) (view c))).0
        ≡ some login
    read_recorded =
        let e : c.max_entries ≡ suc (c.max_entries - 1) = omega (arith, v.2) in
        rw e (unfold read record_login find in ground arith)
