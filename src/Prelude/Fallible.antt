-- ===== src/Prelude/Fallible.antt =====
-- A computation that raises: its result, or the error's value.

pub data Fallible {ℓ κ} (E : Type κ) (A : Type ℓ) : Type (ℓ ⊔ κ) where
  ok : A → Fallible E A
  raised : E → Fallible E A

infixl 5 ◌>>=◌
abbrev pub ◌>>=◌ {ℓ κ μ} :
    {E : Type κ} {A : Type ℓ} {B : Type μ} → Fallible E A → (A → Fallible E B) → Fallible E B
ok a >>= f = f a
raised e >>= f = raised e

-- A computation that changes a state, and keeps the changes it made before an error.
abbrev pub Action {ℓ κ μ} : Type κ → Type μ → Type ℓ → Type (ℓ ⊔ κ ⊔ μ)
Action E S A = S → Fallible E A × S

-- what follows a computation that ended
abbrev pub after {ℓ κ μ ν} :
    {E : Type κ} {S : Type μ} {A : Type ℓ} {B : Type ν}
    → Fallible E A × S
    → (A → Action E S B)
    → Fallible E B × S
after (ok a, s) k = k a s
after (raised e, s) k = (raised e, s)
