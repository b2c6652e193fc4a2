-- ===== src/Api/Redact.antt =====
-- pkg/api/redact.go: what of a request's headers may be logged. A nil header is an empty one.
use s21_identity_service.Base.{
  ◌≡◌, refl, sym, ap, ◌∙◌, Bool, ◌||◌, true, false, ◌⊎◌, Bool-cases, inl, inr, Option, none, some,
  List, [], ◌∷◌, ◌==◌, ==_iff, test_of_eq, ◌≢◌, text_eq, if◌then◌else◌,
}
use s21_identity_service.Base.Map.{lookup, insert, NodupKeys, lookup-insert}
use s21_identity_service.Text.{Text, codes}
use s21_identity_service.Text.Case.{CaseTable, to_lower}
use s21_identity_service.Api.Models.{Values}

one_of :
    (a b c d : Bool)
    → (((a || b || c || d) ≡ true) × ((a ≡ true) ⊎ (b ≡ true) ⊎ (c ≡ true) ⊎ (d ≡ true)))
      ⊎ (((a || b || c || d) ≡ false) × (a ≡ false) × (b ≡ false) × (c ≡ false) × (d ≡ false))
one_of true b c d = inl (refl, inl refl)
one_of false true c d = inl (refl, inr (inl refl))
one_of false false true d = inl (refl, inr (inr (inl refl)))
one_of false false false true = inl (refl, inr (inr (inr refl)))
one_of false false false false = inr (refl, refl, refl, refl, refl)

differs : {a b : Text} → (a == b) ≡ false → a ≢ b
differs f e = absurd (cc (sym f ∙ test_of_eq e))

module _ (table : CaseTable) where
  -- `isSensitiveHeader`, by the keys of `sensitiveHeaderNames`.
  unfoldable pub is_sensitive_header : Text → Bool
  is_sensitive_header name =
      let lower = to_lower table name in
      lower == codes "x-s21-token"
      || lower == codes "x-api-key"
      || lower == codes "authorization"
      || lower == codes "cookie"

  abbrev pub redacted : Text → List Text → List Text
  redacted name values = if is_sensitive_header name then codes "[REDACTED]" ∷ [] else values

  -- The loop of `RedactHeaders`, over the headers in the order of the range.
  unfoldable pub redact_loop : Values → Values → Values
  unfolding is_sensitive_header
  redact_loop [] out = out
  redact_loop ((name, values) ∷ h) out = redact_loop h (insert name (redacted name values) out)

  unfoldable pub redact_headers : Values → Values
  unfolding redact_loop
  redact_headers h = redact_loop h []

  abbrev over : Text → Option (List Text) → Option (List Text) → Option (List Text)
  over name below none = below
  over name below (some values) = some (redacted name values)

  lookup-redact_loop :
      (h out : Values) (name : Text)
      → NodupKeys h
      → lookup name (redact_loop h out) ≡ over name (lookup name out) (lookup name h)
  unfolding redact_loop lookup
  lookup-redact_loop [] out name u = refl
  lookup-redact_loop ((k, values) ∷ h) out name (fresh, u) =
      let step = lookup-redact_loop h (insert k (redacted k values) out) name u in
      let front = lookup-insert k name (redacted k values) out in
      elim (Bool-cases (k == name)) [
        | inr e ↦ step ∙ rw (front, e) refl
        | inl e ↦
            let same = (==_iff k name).0 e in
            let gone : lookup name h ≡ none = ap (λ x. lookup x h) (sym same) ∙ fresh in
            step ∙ rw (front, e, gone) (ap (λ x. some (redacted x values)) same)
      ]

  -- The names that must not be logged, up to case.
  abbrev pub IsSensitive : Text → Type 0
  IsSensitive name =
      (to_lower table name ≡ codes "x-s21-token")
      ⊎ (to_lower table name ≡ codes "x-api-key")
      ⊎ (to_lower table name ≡ codes "authorization")
      ⊎ (to_lower table name ≡ codes "cookie")

  is_sensitive_header_lem :
      (name : Text)
      → ((is_sensitive_header name ≡ true) × IsSensitive name)
        ⊎ ((is_sensitive_header name ≡ false) × ¬ IsSensitive name)
  unfolding is_sensitive_header
  is_sensitive_header_lem name =
      let lower = to_lower table name in
      elim (one_of (lower == codes "x-s21-token") (lower == codes "x-api-key")
        (lower == codes "authorization") (lower == codes "cookie")) [
          | inl (t, inl e) ↦ inl (t, inl ((==_iff lower _).0 e))
          | inl (t, inr (inl e)) ↦ inl (t, inr (inl ((==_iff lower _).0 e)))
          | inl (t, inr (inr (inl e))) ↦ inl (t, inr (inr (inl ((==_iff lower _).0 e))))
          | inl (t, inr (inr (inr e))) ↦ inl (t, inr (inr (inr ((==_iff lower _).0 e))))
          | inr (t, a, b, c, d) ↦ inr (
            t,
            λ k. elim k [
              | inl e ↦ differs a e
              | inr (inl e) ↦ differs b e
              | inr (inr (inl e)) ↦ differs c e
              | inr (inr (inr e)) ↦ differs d e
            ],
          )
        ]

  -- If no name occurs twice, the redacted headers have the same names, whatever the order of the
  -- range. One whose name in lower case is x-s21-token, x-api-key, authorization or cookie has the
  -- value "[REDACTED]" alone; any other has the values it had.
  pub lookup-redact_headers :
      (h : Values) (name : Text)
      → NodupKeys h
      → ((lookup name h ≡ none) → lookup name (redact_headers h) ≡ none)
        × ((values : List Text)
            → lookup name h ≡ some values
            → (IsSensitive name → lookup name (redact_headers h) ≡ some (codes "[REDACTED]" ∷ []))
              × (¬ IsSensitive name → lookup name (redact_headers h) ≡ some values))
  unfolding redact_headers lookup
  lookup-redact_headers h name u =
      let looked = lookup-redact_loop h [] name u in
      (
        λ e. looked ∙ rw e refl,
        λ values e. elim (is_sensitive_header_lem name) [
          | inl (t, k) ↦ (λ _. looked ∙ rw (e, t) refl, λ n. absurd (n k))
          | inr (t, n) ↦ (λ k. absurd (n k), λ _. looked ∙ rw (e, t) refl)
        ],
      )
