-- ===== src/Admin/Status.antt =====
-- What a run of the tool in cmd/admin/main.go leaves and prints.
use s21_identity_service.Base.{
  ◌≡◌, refl, sym, ◌∙◌, ap, ◌⊎◌, ◌↔◌, inl, inr, Bool, true, false, not, List, [], ◌∷◌, map,
  Bool-cases, Has, Has-map, if◌then◌else◌,
}
use s21_identity_service.Base.Exec.{ok, pure, lift, ◌>>=◌}
use s21_identity_service.Text.{Text}
use s21_identity_service.Store.{Store, ApiKey, is_active}
use s21_identity_service.Api.Platform.{Platform}
use s21_identity_service.Admin.{
  Env, Output, Line, table, open_store, store_call, run_list, active_only, key_line, shown,
}

active_only-Has :
    (rows : List ApiKey) (k : ApiKey)
    → Has k (active_only rows) ↔ (Has k rows × (is_active k ≡ true))
unfolding active_only
active_only-Has [] k = (λ h. absurd h, λ h. absurd h.0)
active_only-Has (x ∷ rows) k =
    let (there, back) = active_only-Has rows k in
    elim (Bool-cases (is_active x)) [
      | inl e ↦ rw e (
        λ h. elim h [
          | inl q ↦ (inl q, ap is_active (sym q) ∙ e)
          | inr m ↦ let (m', a) = there m in (inr m', a)
        ],
        λ (h, a). elim h [ inl q ↦ inl q | inr m ↦ inr (back (m, a)) ],
      )
      | inr e ↦ rw e (
        λ h. let (m', a) = there h in (inr m', a),
        λ (h, a). elim h [ inl q ↦ absurd (cc (ap is_active q)) | inr m ↦ back (m, a) ],
      )
    ]

-- The lines that are printed.
abbrev pub lines_of : Output → List Line
lines_of (table lines) = lines
lines_of _ = []

lines-shown : (rows : List ApiKey) → lines_of (shown rows) ≡ map key_line rows
lines-shown [] = refl
lines-shown (k ∷ rows) = refl

-- The rows that a listing keeps.
kept : Bool → List ApiKey → List ApiKey
kept every rows = if not every then active_only rows else rows

kept-Has :
    (every : Bool) (rows : List ApiKey) (k : ApiKey)
    → Has k (kept every rows) ↔ (Has k rows × ((every ≡ true) ⊎ (is_active k ≡ true)))
unfolding kept
kept-Has true rows k = (λ h. (h, inl refl), λ h. h.0)
kept-Has false rows k =
    let (there, back) = active_only-Has rows k in
    (
      λ h. let (m, a) = there h in (m, inr a),
      λ (m, a). elim a [ inl q ↦ absurd (cc) | inr live ↦ back (m, live) ],
    )

module _ (p : Platform) (env : Env) (S : Store) (s : S.State) where
  -- If the flags parse, the store opens and the listing returns, the tool succeeds and leaves the
  -- store as the listing leaves it; it prints a line for each row that is active, or for each row
  -- if all are asked for, and no other line.
  pub run_list_lines :
      (args : List Text) (every : Bool) (rows : List ApiKey)
      → env.list_flags args ≡ ok every
      → open_store env ≡ ok tt
      → (S.list_keys s).0 ≡ ok rows
      → (out : Output) × (run_list p env S args s ≡ (ok out, (S.list_keys s).1))
        × ((line : Line)
            → Has line (lines_of out) ↔ (
                (k : ApiKey) × Has k rows
                × ((every ≡ true) ⊎ (is_active k ≡ true))
                × (key_line k ≡ line)))
  unfolding run_list kept ◌>>=◌
  run_list_lines args every rows f o l =
      let there = λ (line : Line). Has-map key_line line (kept every rows) in
      (
        shown (kept every rows),
        rw (f, o, l, ◌>>=◌, lift, store_call, pure) refl,
        λ line. rw (lines-shown (kept every rows)) (
          λ h.
              let (k, m, q) = (there line).0 h in
              let (m', a) = (kept-Has every rows k).0 m in (k, m', a, q),
          λ (k, m, a, q). (there line).1 (k, (kept-Has every rows k).1 (m, a), q),
        ),
      )
