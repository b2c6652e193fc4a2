-- ===== src/Base/Exec/Keeps.antt =====
-- Invariants of actions: one rule for each way to build an action.
use s21_identity_service.Base.{Bool, true, false, if◌then◌else◌}
use s21_identity_service.Base.Exec.{Outcome, ok, err, Exec, pure, fail, lift, continue, ◌>>=◌}

-- The action keeps `P`, whether it returns or ends with an error.
pub record Keeps {ℓ} {S E A : Type ℓ} (P : S → Type ℓ) (action : Exec S E A) : Type ℓ where
  pub at : (before : S) → P before → P (action before).1

module _ {ℓ} {S E A : Type ℓ} {P : S → Type ℓ} where
  -- Actions that leave the state alone.
  pub Keeps-lift : (outcome : Outcome E A) → Keeps P (lift outcome)
  unfolding lift
  Keeps-lift outcome = record { at = λ before held. held }

  pub Keeps-pure : (result : A) → Keeps {E = E} P (pure result)
  unfolding pure
  Keeps-pure result = record { at = λ before held. held }

  pub Keeps-fail : (error : E) → Keeps {A = A} P (fail error)
  unfolding fail
  Keeps-fail error = record { at = λ before held. held }

  pub Keeps-if :
      (test : Bool) (taken other : Exec S E A)
      → Keeps P taken
      → Keeps P other
      → Keeps P (if test then taken else other)
  Keeps-if false taken other kept_by_taken kept_by_other = kept_by_other
  Keeps-if true taken other kept_by_taken kept_by_other = kept_by_taken

module _ {ℓ} {S E A B : Type ℓ} {P : S → Type ℓ} where
  Keeps-continue :
      (outcome : Outcome E A) (next : A → Exec S E B)
      → ((result : A) → Keeps P (next result))
      → Keeps P (continue outcome next)
  Keeps-continue (err error) next kept = record { at = λ before held. held }
  Keeps-continue (ok result) next kept = record { at = (kept result).at }

  pub Keeps-bind :
      (first : Exec S E A) (next : A → Exec S E B)
      → Keeps P first
      → ((result : A) → Keeps P (next result))
      → Keeps P (first >>= next)
  unfolding ◌>>=◌
  Keeps-bind first next kept_first kept_next = record {
    at = λ before held.
        (Keeps-continue (first before).0 next kept_next).at (first before).1
          (kept_first.at before held);
  }
