-- ===== src/Results.antt =====
-- `Result` with any type of errors, and the `?` operator.
use fry_chain.Prelude.{Option, none, some, ◌≡◌, refl}

pub data Result {ℓ κ} (E : Type ℓ) (A : Type κ) : Type (ℓ ⊔ κ) where
  good : A → Result E A
  bad : E → Result E A

infixl 5 ◌>>=◌ ◌>>◌
abbrev pub ◌>>=◌ {ℓ κ μ} :
    {E : Type ℓ} {A : Type κ} {B : Type μ} → Result E A → (A → Result E B) → Result E B
good a >>= f = f a
bad e >>= f = bad e

abbrev pub ◌>>◌ {ℓ κ} : {E : Type ℓ} {B : Type κ} → Result E (Unit {0}) → Result E B → Result E B
m >> k = m >>= λ _. k

-- `ok_or(e)`
abbrev pub good_or {ℓ κ} : {E : Type ℓ} {A : Type κ} → Option A → E → Result E A
good_or none e = bad e
good_or (some a) e = good a

-- Inversion of a successful bind.
pub bind_good {ℓ κ μ} :
    {E : Type ℓ} {A : Type κ} {B : Type μ} (m : Result E A) (f : A → Result E B) (b : B)
    → (m >>= f) ≡ good b
    → (a : A) × (m ≡ good a) × (f a ≡ good b)
bind_good (good a) f b e = (a, refl, e)
bind_good (bad x) f b e = cc
