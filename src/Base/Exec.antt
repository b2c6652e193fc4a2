-- ===== src/Base/Exec.antt =====
-- Methods that change an object and may end with an error. What was written before the error stays
-- written, so the state comes back beside the error too.
pub mod Keeps
use s21_identity_service.Base.{◌≡◌, refl, ◌⊎◌, inl, inr}

pub data Outcome {ℓ} (E A : Type ℓ) : Type ℓ where
  ok : A → Outcome E A
  err : E → Outcome E A

pub Outcome-cases {ℓ} :
    {E A : Type ℓ} (o : Outcome E A) → ((a : A) × (o ≡ ok a)) ⊎ ((e : E) × (o ≡ err e))
Outcome-cases (ok a) = inl (a, refl)
Outcome-cases (err e) = inr (e, refl)

abbrev pub Exec {ℓ} : Type ℓ → Type ℓ → Type ℓ → Type ℓ
Exec S E A = S → Outcome E A × S

module _ {ℓ} {S E A : Type ℓ} where
  unfoldable pub pure : A → Exec S E A
  pure a s = (ok a, s)

  unfoldable pub fail : E → Exec S E A
  fail e s = (err e, s)

  unfoldable pub lift : Outcome E A → Exec S E A
  lift r s = (r, s)

module _ {ℓ} {S E A B : Type ℓ} where
  abbrev pub continue : Outcome E A → (A → Exec S E B) → Exec S E B
  continue (ok a) f s = f a s
  continue (err e) f s = (err e, s)

  infixl 10 ◌>>=◌ ◌>>◌
  -- Opening this opens `pure`, `fail` and `lift` too.
  unfoldable pub ◌>>=◌ : Exec S E A → (A → Exec S E B) → Exec S E B
  unfolding pure fail lift
  ◌>>=◌ m f s = let (r, s') = m s in continue r f s'

  abbrev pub ◌>>◌ : Exec S E A → Exec S E B → Exec S E B
  m >> n = m >>= λ _. n

  ok_of_continue :
      (r : Outcome E A) (f : A → Exec S E B) (s : S) (b : B)
      → (continue r f s).0 ≡ ok b
      → (a : A) × (r ≡ ok a) × ((f a s).0 ≡ ok b)
  ok_of_continue (ok a) f s b h = (a, refl, h)
  ok_of_continue (err e) f s b h = absurd (cc)

  -- A sequence that returns has two steps that return.
  pub ok_of_bind :
      (m : Exec S E A) (f : A → Exec S E B) (s : S) (b : B)
      → ((m >>= f) s).0 ≡ ok b
      → (a : A) × ((m s).0 ≡ ok a) × ((f a (m s).1).0 ≡ ok b)
  unfolding ◌>>=◌
  ok_of_bind m f s b h = ok_of_continue (m s).0 f (m s).1 b h

  err_of_continue :
      (r : Outcome E A) (f : A → Exec S E B) (s : S) (e : E)
      → (continue r f s).0 ≡ err e
      → (r ≡ err e) ⊎ ((a : A) × (r ≡ ok a) × ((f a s).0 ≡ err e))
  err_of_continue (ok a) f s e h = inr (a, refl, h)
  err_of_continue (err x) f s e h = inl (cc)

  -- A sequence that fails has a step that fails.
  pub err_of_bind :
      (m : Exec S E A) (f : A → Exec S E B) (s : S) (e : E)
      → ((m >>= f) s).0 ≡ err e
      → ((m s).0 ≡ err e) ⊎ ((a : A) × ((m s).0 ≡ ok a) × ((f a (m s).1).0 ≡ err e))
  unfolding ◌>>=◌
  err_of_bind m f s e h = err_of_continue (m s).0 f (m s).1 e h

  -- What follows a step that returns.
  pub bind_ok :
      (m : Exec S E A) (f : A → Exec S E B) (s : S) (a : A)
      → (m s).0 ≡ ok a
      → (m >>= f) s ≡ f a (m s).1
  unfolding ◌>>=◌
  bind_ok m f s a h = rw h refl

  pub bind_err :
      (m : Exec S E A) (f : A → Exec S E B) (s : S) (e : E)
      → (m s).0 ≡ err e
      → (m >>= f) s ≡ (err e, (m s).1)
  unfolding ◌>>=◌
  bind_err m f s e h = rw h refl

  -- The two steps, and what the whole comes to.
  pub steps_of_bind :
      (m : Exec S E A) (f : A → Exec S E B) (s : S) (b : B)
      → ((m >>= f) s).0 ≡ ok b
      → (a : A) × ((m s).0 ≡ ok a) × ((f a (m s).1).0 ≡ ok b) × ((m >>= f) s ≡ f a (m s).1)
  steps_of_bind m f s b h =
      let (a, e, rest) = ok_of_bind m f s b h in (a, e, rest, bind_ok m f s a e)
