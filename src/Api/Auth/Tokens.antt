-- ===== src/Api/Auth/Tokens.antt =====
-- What `authenticate` of pkg/api/server.go accepts, and from whom it has it.
use s21_identity_service.Base.{
  ℕ, zero, suc, ◌-◌, ◌<◌, ◌≡◌, ◌≢◌, ◌⊎◌, inl, inr, refl, ◌∙◌, ap, Option, none, some, ◌&&◌,
  Bool-cases, Option-cases, [], ◌∷◌, ◌++◌, ◌==◌, ltb, length, length-append, ==_iff, text_eq, arith,
  Has,
}
use native.Mathlib.Numerals.{add-one}
use s21_identity_service.Base.Exec.{Outcome, ok, pure, lift, ◌>>=◌, ok_of_bind, Outcome-cases}
use s21_identity_service.Text.{Text, codes, index_byte, take, drop}
use s21_identity_service.Store.{Store, S21TokenCacheEntry}
use s21_identity_service.S21.{Profile, S21Error}
use s21_identity_service.Api.Models.{Request, get_value}
use s21_identity_service.Api.Platform.{Platform, World, durable_check}
use s21_identity_service.Api.Server.{Server, call_store, remember}
use s21_identity_service.Api.Auth.{
  split_at, parse_token, s21_verdict, read_if_present, memory_login, accept_entry, durable_login,
  live_login, or_live, or_durable, authenticate,
}

index_byte-split :
    (s : Text) (c i : ℕ)
    → index_byte s c ≡ some i
    → (s ≡ take i s ++ c ∷ drop (suc i) s)
      × (index_byte (take i s) c ≡ none)
      × (i < length s)
      × (length (take i s) ≡ i)
unfolding index_byte
index_byte-split [] c i h = absurd (ground arith)
index_byte-split (x ∷ s) c zero h = ground arith
index_byte-split (x ∷ s) c (suc i) h = ground (arith, index_byte-split s c i)

index_byte-none : (s : Text) (c : ℕ) → index_byte s c ≡ none → ¬ Has c s
unfolding index_byte
index_byte-none [] c h k = k
index_byte-none (x ∷ s) c h (inl e) = absurd (ground arith)
index_byte-none (x ∷ s) c h (inr k) = index_byte-none s c (ground arith) k

abbrev pub token_of : Request → Text
token_of r = get_value (codes "X-S21-Token") r.header

abbrev IsSplit : Text → Text → Text → Type 0
IsSplit tok login password =
    (tok ≡ login ++ b':' ∷ password)
    × (index_byte login b':' ≡ none)
    × (login ≢ [])
    × (password ≢ [])

split_at_ok :
    (tok login password : Text) (o : Option ℕ)
    → index_byte tok b':' ≡ o
    → split_at tok o ≡ ok (login, password)
    → IsSplit tok login password
unfolding split_at
split_at_ok tok login password none e h = absurd (cc)
split_at_ok tok login password (some zero) e h = absurd (cc)
split_at_ok tok login password (some (suc i)) e h =
    let (whole, clean, inside, size) = index_byte-split tok b':' (suc i) e in
    let total =
      ap length whole ∙ length-append (take (suc i) tok) (b':' ∷ drop (suc (suc i)) tok) in
    let l : take (suc i) tok ≡ login = ground arith in
    let q : drop (suc (suc i)) tok ≡ password = ground (arith, add-one (suc i)) in
    let inner : suc i ≢ length tok - 1 = ground arith in
    (
      rw (← l, ← q) whole,
      rw (← l) clean,
      λ x. absurd (omega (arith, size, ap length (l ∙ x))),
      λ x. absurd (inner (omega (arith, size, total, ap length (q ∙ x)))),
    )

-- If the header is accepted as a login and a password, it is the login, a colon and the password;
-- neither is empty, and the login has no colon.
pub parse_token_ok :
    (tok login password : Text)
    → parse_token tok ≡ ok (login, password)
    → (tok ≡ login ++ b':' ∷ password)
      × (index_byte login b':' ≡ none)
      × (login ≢ [])
      × (password ≢ [])
unfolding parse_token
parse_token_ok tok login password h =
    split_at_ok tok login password (index_byte tok b':') refl (ground arith)

s21_verdict-ok :
    (o : Outcome S21Error Profile) (prof : Profile) → s21_verdict o ≡ ok prof → o ≡ ok prof
unfolding s21_verdict
s21_verdict-ok o prof h = ground arith

-- A row of the durable cache for the token, which has not expired and has the login.
pub record DurableRow (p : Platform) (S : Store) (w : World) (tok login : Text) (store : S.State)
    : Type 0 where
  pub entry : S21TokenCacheEntry
  pub found : (S.get_token (p.hash tok) store).0 ≡ ok entry
  pub fresh : w.now durable_check < entry.expires_at
  pub same : entry.login ≡ login

abbrev pub AcceptedByS21 : World → Text → Text → Type 0
AcceptedByS21 w login password =
    (profile : Profile) × (w.s21_authenticate login password ≡ ok profile)

module _ (p : Platform) {S : Store} (w : World) where
  live_login_ok :
      (tok login password l : Text) (s : Server S)
      → (live_login p w tok login password s).0 ≡ ok l
      → (l ≡ login) × AcceptedByS21 w login password
  unfolding live_login call_store remember ◌>>=◌
  live_login_ok tok login password l s h =
      elim (Outcome-cases (s21_verdict (w.s21_authenticate login password))) [
        | inl (prof, e) ↦ (ground arith, (prof, s21_verdict-ok _ prof e))
        | inr (x, e) ↦ absurd (ground arith)
      ]

  durable_login_ok :
      (tok login : Text) (s : Server S)
      → ((durable_login p w tok login s).0 ≡ ok none)
        ⊎ (((durable_login p w tok login s).0 ≡ ok (some login))
            × DurableRow p S w tok login s.store)
  unfolding durable_login accept_entry call_store remember ◌>>=◌
  durable_login_ok tok login s = elim (Outcome-cases (S.get_token (p.hash tok) s.store).0) [
    | inr (x, e) ↦ inl (rw e)
    | inl (entry, e) ↦
        elim (Bool-cases (ltb (w.now durable_check) entry.expires_at && entry.login == login)) [
          | inr f ↦ inl (ground arith)
          | inl t ↦ inr (
            ground arith,
            record { entry = entry; found = e; fresh = ground arith; same = ground arith },
          )
        ]
  ]

  or_live_ok :
      (tok login password l : Text) (o : Option Text) (s : Server S)
      → (or_live p w tok login password o s).0 ≡ ok l
      → (o ≡ some l) ⊎ ((o ≡ none) × ((l ≡ login) × AcceptedByS21 w login password))
  unfolding or_live pure
  or_live_ok tok login password l (some x) s h = inl (cc)
  or_live_ok tok login password l none s h = inr (refl, live_login_ok tok login password l s h)

  or_durable-none :
      (tok login password l : Text) (s : Server S)
      → (or_durable p w tok login password none s).0 ≡ ok l
      → (l ≡ login) × (DurableRow p S w tok login s.store ⊎ AcceptedByS21 w login password)
  unfolding or_durable
  or_durable-none tok login password l s h =
      let (o, e, rest) =
        ok_of_bind (durable_login p w tok login) (or_live p w tok login password) s l h in
      elim (durable_login_ok tok login s) [
        | inl miss ↦ elim (or_live_ok tok login password l o _ rest) [
          | inl x ↦ absurd (ground arith)
          | inr (x, (y, z)) ↦ (y, inr z)
        ]
        | inr (hit, row) ↦ elim (or_live_ok tok login password l o _ rest) [
          | inl x ↦ (ground arith, inl row)
          | inr (x, (y, z)) ↦ (y, inr z)
        ]
      ]

  or_durable_ok :
      (tok login password l : Text) (o : Option Text) (s : Server S)
      → (or_durable p w tok login password o s).0 ≡ ok l
      → (o ≡ some l)
        ⊎ ((o ≡ none)
            × ((l ≡ login) × (DurableRow p S w tok login s.store ⊎ AcceptedByS21 w login password)))
  or_durable_ok tok login password l (some x) s h = inl (unfold or_durable pure in cc)
  or_durable_ok tok login password l none s h = inr (refl, or_durable-none tok login password l s h)

  memory_login_ok :
      (tok login : Text) (s : Server S) (o : Option Text)
      → (memory_login p w tok login s).0 ≡ ok o
      → (o ≡ none) ⊎ ((o ≡ some login) × ((read_if_present p w tok s.tokens).0 ≡ some login))
  unfolding memory_login
  memory_login_ok tok login s o h = elim (Option-cases (read_if_present p w tok s.tokens).0) [
    | inl e ↦ inl (ground arith)
    | inr (l, e) ↦ elim (Bool-cases (l == login)) [
      | inl t ↦ inr (ground (arith, (==_iff l login).0 t), ground (arith, (==_iff l login).0 t))
      | inr f ↦ inl (ground arith)
    ]
  ]

  memory_login-store :
      (tok login : Text) (s : Server S) → (memory_login p w tok login s).1.store ≡ s.store
  unfolding memory_login
  memory_login-store tok login s = refl

  after_parse :
      (tok login password l : Text) (s : Server S)
      → ((memory_login p w tok login >>= or_durable p w tok login password) s).0 ≡ ok l
      → (l ≡ login)
        × (((read_if_present p w tok s.tokens).0 ≡ some login)
            ⊎ (DurableRow p S w tok login s.store ⊎ AcceptedByS21 w login password))
  after_parse tok login password l s h =
      let (o, f, rest) =
        ok_of_bind (memory_login p w tok login) (or_durable p w tok login password) s l h in
      elim (memory_login_ok tok login s o f) [
        | inl miss ↦ elim (or_durable_ok tok login password l o _ rest) [
          | inl hit ↦ absurd (ground arith)
          | inr (_, (same, vouched)) ↦ (same, inr (rw (← memory_login-store tok login s) vouched))
        ]
        | inr (hit, cached) ↦ elim (or_durable_ok tok login password l o _ rest) [
          | inl found ↦ (ground arith, inl cached)
          | inr (miss, _) ↦ absurd (ground arith)
        ]
      ]

  pub authenticate_ok :
      (r : Request) (s : Server S) (l : Text)
      → (authenticate p w r s).0 ≡ ok l
      → (password : Text) × ((parse_token (token_of r) ≡ ok (l, password))
          × (((read_if_present p w (token_of r) s.tokens).0 ≡ some l)
              ⊎ (DurableRow p S w (token_of r) l s.store ⊎ AcceptedByS21 w l password)))
  unfolding authenticate lift
  authenticate_ok r s l h =
      let ((login, password), e, rest) = ok_of_bind (lift (parse_token (token_of r))) _ s l h in
      let (same, source) = after_parse (token_of r) login password l s rest in
      (password, (rw same e, rw same source))

  -- `authenticate` returns only a login that is not empty and has no colon, where the header is
  -- this login, a colon and a password that is not empty; and only if the in-memory cache has that
  -- login for the header, or the durable cache has a row for it that has not expired and has that
  -- login, or S21 accepts the login with this password.
  pub authenticate_sound :
      (r : Request) (s : Server S) (l : Text)
      → (authenticate p w r s).0 ≡ ok l
      → (password : Text) × (token_of r ≡ l ++ b':' ∷ password)
        × ¬ Has b':' l
        × (l ≢ [])
        × (password ≢ [])
        × (((read_if_present p w (token_of r) s.tokens).0 ≡ some l)
            ⊎ (DurableRow p S w (token_of r) l s.store ⊎ AcceptedByS21 w l password))
  authenticate_sound r s l h =
      let (password, (parsed, source)) = authenticate_ok r s l h in
      let (whole, clean, named, closed) = parse_token_ok (token_of r) l password parsed in
      (password, whole, index_byte-none l b':' clean, named, closed, source)
