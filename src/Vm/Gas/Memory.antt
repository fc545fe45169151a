-- ===== src/Vm/Gas/Memory.antt =====
-- The cost of growing a memory.
-- The code is crates/frychain-vm/src/gas.rs.
use fry_chain.Vm.Gas.{words_of, words_cost, memory_cost}
use fry_chain.Prelude.{ℕ, ◌+◌, ◌*◌, ◌/◌, ◌^◌, ◌≤◌, ◌<◌, ◌≡◌, arith, ◌-◌}

squares_mono : (a b : ℕ) → a ≤ b → a * a ≤ b * b
squares_mono a b h = grind arith

words_cost_plain : (w : ℕ) → w < 2 ^ 32 → words_cost w ≡ w * w / 512 + w * 3
unfolding words_cost
words_cost_plain w h = omega (arith, squares_mono w (2 ^ 32 - 1) (omega arith))

words_of_mono : (a b : ℕ) → a ≤ b → b ≤ 2 ^ 36 → (words_of a ≤ words_of b) × (words_of b < 2 ^ 32)
unfolding words_of
words_of_mono a b h l = omega arith

words_cost_mono : (v w : ℕ) → v ≤ w → w < 2 ^ 32 → words_cost v ≤ words_cost w
words_cost_mono v w h l =
    omega (arith, words_cost_plain v (omega arith), words_cost_plain w l, squares_mono v w h)

size_cost_mono : (a b : ℕ) → a ≤ b → b ≤ 2 ^ 36 → words_cost (words_of a) ≤ words_cost (words_of b)
size_cost_mono a b h l =
    let m = words_of_mono a b h l in words_cost_mono (words_of a) (words_of b) m.0 m.1

-- Up to 2 ^ 36 bytes, growing a memory in two steps costs what growing it in one does.
pub memory_cost_additive :
    (a b c : ℕ) → a ≤ b → b ≤ c → c ≤ 2 ^ 36 → memory_cost a b + memory_cost b c ≡ memory_cost a c
unfolding memory_cost
memory_cost_additive a b c h k l =
    ground (arith, size_cost_mono a b h (omega arith), size_cost_mono b c k l)
