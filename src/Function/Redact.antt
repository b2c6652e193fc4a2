-- ===== src/Function/Redact.antt =====
-- `redactedHeaders` of terraform/function/handler.go.
use s21_identity_service.Base.{
  ◌≡◌, refl, sym, ◌∙◌, ap, ◌⊎◌, inl, inr, some, [], ◌∷◌, ◌==◌, ==_iff, text_eq, Bool-cases,
  some_inj,
}
use s21_identity_service.Base.Map.{Map, lookup, insert, lookup-insert}
use s21_identity_service.Text.{Text, codes}
use s21_identity_service.Text.Header.{canonical_header_key}
use s21_identity_service.Function.{shown, redact_onto, redacted_headers}

-- The names whose values are never logged.
abbrev pub IsSecret : Text → Type 0
IsSecret name =
    (name ≡ codes "X-S21-Token") ⊎ (name ≡ codes "Authorization") ⊎ (name ≡ codes "X-Api-Key")

abbrev Hidden : Map Text Text → Type 0
Hidden out = (name v : Text) → IsSecret name → lookup name out ≡ some v → v ≡ codes "<redacted>"

shown_secret : (name v : Text) → IsSecret name → shown name v ≡ codes "<redacted>"
unfolding text_eq
shown_secret name v (inl e) = ap (λ n. shown n v) e
shown_secret name v (inr (inl e)) = ap (λ n. shown n v) e
shown_secret name v (inr (inr e)) = ap (λ n. shown n v) e

inserted :
    (canon name v x : Text) (out : Map Text Text)
    → lookup name (insert canon (shown canon v) out) ≡ some x
    → ((canon ≡ name) × (x ≡ shown name v)) ⊎ (lookup name out ≡ some x)
inserted canon name v x out l =
    let front = lookup-insert canon name (shown canon v) out in
    elim (Bool-cases (canon == name)) [
      | inr e ↦ inr (rw e at (sym front) ∙ l)
      | inl e ↦
          let q = (==_iff canon name).0 e in
          inl (q, some_inj (sym l ∙ front ∙ rw e refl) ∙ ap (λ n. shown n v) q)
    ]

redact_onto-Hidden : (h out : Map Text Text) → Hidden out → Hidden (redact_onto h out)
unfolding redact_onto
redact_onto-Hidden [] out hidden = hidden
redact_onto-Hidden ((k, v) ∷ h) out hidden =
    let canon = canonical_header_key k in
    redact_onto-Hidden h (insert canon (shown canon v) out) (λ name x secret l.
      elim (inserted canon name v x out l) [
        | inl (_, e) ↦ e ∙ shown_secret name v secret
        | inr old ↦ hidden name x secret old
      ])

pub redacted_headers-hidden :
    (h : Map Text Text) (name v : Text)
    → IsSecret name
    → lookup name (redacted_headers h) ≡ some v
    → v ≡ codes "<redacted>"
unfolding redacted_headers lookup
redacted_headers-hidden h name v secret l =
    redact_onto-Hidden h [] (λ n x s m. absurd (cc)) name v secret l
