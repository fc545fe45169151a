-- ===== src/Words/Bytes.antt =====
-- `to_le_bytes` and `from_le_bytes` of an unsigned integer of `k` bytes.
use native.Mathlib.Nat.{pow-suc}
use fry_chain.Prelude.{
  ℕ, zero, suc, ◌+◌, ◌*◌, ◌/◌, ◌%◌, ◌^◌, ◌<◌, ◌≡◌, refl, ap, arith, List, [], ◌∷◌, length,
}
use fry_chain.Prelude.{All, ◌++◌, length-append, ◌∙◌}

-- The low `k` bytes of `n`, the lowest first.
abbrev pub le_bytes : ℕ → ℕ → List ℕ
le_bytes zero n = []
le_bytes (suc k) n = (n % 256) ∷ le_bytes k (n / 256)

abbrev pub from_le : List ℕ → ℕ
from_le [] = 0
from_le (b ∷ bs) = b + 256 * from_le bs

pub length-le_bytes : (k n : ℕ) → length (le_bytes k n) ≡ k
length-le_bytes zero n = refl
length-le_bytes (suc k) n = ap suc (length-le_bytes k (n / 256))

high_fits : (k a : ℕ) → a < 256 ^ suc k → a / 256 < 256 ^ k
high_fits k a h = let e : a < 256 * 256 ^ k = omega (arith, h, pow-suc 256 k) in omega arith

pub le_bytes_injective :
    (k a b : ℕ) → a < 256 ^ k → b < 256 ^ k → le_bytes k a ≡ le_bytes k b → a ≡ b
le_bytes_injective zero a b h l e = omega arith
le_bytes_injective (suc k) a b h l e =
    let low : a % 256 ≡ b % 256 = cc in
    let high : a / 256 ≡ b / 256 =
      le_bytes_injective k (a / 256) (b / 256) (high_fits k a h) (high_fits k b l) (cc) in
    omega (arith, low, high)

pub from_le-le_bytes : (k n : ℕ) → n < 256 ^ k → from_le (le_bytes k n) ≡ n
from_le-le_bytes zero n h = omega arith
from_le-le_bytes (suc k) n h = omega (arith, from_le-le_bytes k (n / 256) (high_fits k n h))

pub le_bytes-All : (k n : ℕ) → All (λ b. b < 256) (le_bytes k n)
le_bytes-All zero n = tt
le_bytes-All (suc k) n = (omega arith, le_bytes-All k (n / 256))

pub from_le_bound : (bs : List ℕ) → All (λ b. b < 256) bs → from_le bs < 256 ^ length bs
from_le_bound [] h = omega arith
from_le_bound (b ∷ bs) h = omega (arith, h.0, from_le_bound bs h.1, pow-suc 256 (length bs))

pub le_bytes-from_le :
    (bs : List ℕ) → All (λ b. b < 256) bs → le_bytes (length bs) (from_le bs) ≡ bs
le_bytes-from_le [] h = refl
le_bytes-from_le (b ∷ bs) h =
    let rest = le_bytes-from_le bs h.1 in
    let low : (b + 256 * from_le bs) % 256 ≡ b = omega (arith, h.0) in
    let high : (b + 256 * from_le bs) / 256 ≡ from_le bs = omega (arith, h.0) in
    λ i. low i ∷ (ap (le_bytes (length bs)) high ∙ rest) i

-- `to_be_bytes` and `from_be_bytes`
abbrev pub be_bytes : ℕ → ℕ → List ℕ
be_bytes zero n = []
be_bytes (suc k) n = be_bytes k (n / 256) ++ n % 256 ∷ []

abbrev from_be_after : ℕ → List ℕ → ℕ
from_be_after high [] = high
from_be_after high (b ∷ bs) = from_be_after (high * 256 + b) bs

abbrev pub from_be : List ℕ → ℕ
from_be bs = from_be_after 0 bs

pub length-be_bytes : (k n : ℕ) → length (be_bytes k n) ≡ k
length-be_bytes zero n = refl
length-be_bytes (suc k) n =
    omega (arith, length-append (be_bytes k (n / 256)) (n % 256 ∷ []), length-be_bytes k (n / 256))

from_be_after-append :
    (high : ℕ) (bs : List ℕ) (b : ℕ)
    → from_be_after high (bs ++ b ∷ []) ≡ from_be_after high bs * 256 + b
from_be_after-append high [] b = refl
from_be_after-append high (c ∷ bs) b = from_be_after-append (high * 256 + c) bs b

pub from_be-be_bytes : (k n : ℕ) → n < 256 ^ k → from_be (be_bytes k n) ≡ n
from_be-be_bytes zero n h = omega arith
from_be-be_bytes (suc k) n h = omega (
  arith,
  from_be_after-append 0 (be_bytes k (n / 256)) (n % 256),
  from_be-be_bytes k (n / 256) (high_fits k n h),
)
