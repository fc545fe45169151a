-- ===== src/Core/Hash/Order.antt =====
-- `meets_difficulty` compares two hashes as big-endian numbers.
-- The code is crates/frychain-core/src/types.rs.
use fry_chain.Prelude.{ℕ, ◌+◌, ◌*◌, ◌^◌, ◌<◌, List, [], ◌∷◌, arith, length, ◌≡◌, true, ◌↔◌, ◌≤◌}
use fry_chain.Core.Hash.{meets_difficulty}

-- The number that a byte string stands for.
abbrev pub be_value : List ℕ → ℕ
be_value [] = 0
be_value (b ∷ bs) = b * 256 ^ length bs + be_value bs

abbrev pub IsBytes : List ℕ → Type 0
IsBytes [] = Unit
IsBytes (b ∷ bs) = (b < 256) × IsBytes bs

pub be_value-lt : (bs : List ℕ) → IsBytes bs → be_value bs < 256 ^ length bs
be_value-lt [] h = omega arith
be_value-lt (b ∷ bs) h = grind (arith, be_value-lt bs h.1)

-- A smaller first digit decides.
head_decides : (h t p r s : ℕ) → h < t → r < p → h * p + r < t * p + s
head_decides h t p r s l m = grind arith

-- For two byte strings of one length the loop accepts exactly a number that is at most the
-- target's.
pub meets_difficulty-iff-le :
    (h t : List ℕ)
    → IsBytes h
    → IsBytes t
    → length h ≡ length t
    → (meets_difficulty h t ≡ true) ↔ (be_value h ≤ be_value t)
unfolding meets_difficulty
meets_difficulty-iff-le [] [] bh bt e = ground arith
meets_difficulty-iff-le [] (t ∷ ts) bh bt e = absurd (omega arith)
meets_difficulty-iff-le (h ∷ hs) [] bh bt e = absurd (omega arith)
meets_difficulty-iff-le (h ∷ hs) (t ∷ ts) bh bt e =
    let same_length : length hs ≡ length ts = omega arith in
    rw same_length (
      ground (
        arith,
        be_value-lt hs bh.1,
        be_value-lt ts bt.1,
        meets_difficulty-iff-le hs ts bh.1 bt.1 same_length,
        head_decides h t (256 ^ length ts) (be_value hs) (be_value ts),
        head_decides t h (256 ^ length ts) (be_value ts) (be_value hs),
      ))
