-- ===== src/Cd2/Parity.antt =====
-- Parity of oad_parser/parsers/cd2.py against the number of ones among the low bits of a number.
use native.Mathlib.Nat.{pow-suc}
use oad_parser.Common.{
  ℕ, zero, suc, ◌+◌, ◌-◌, ◌*◌, ◌/◌, ◌%◌, ◌^◌, ◌≤◌, ◌<◌, bit_and, ◌≡◌, refl, ◌∙◌, arith, inl, inr,
  ◌==◌, Bool-cases, ok, ap, if◌then◌else◌,
}
use oad_parser.Common.Bits.{bit_and_step, bit_and_self}
use oad_parser.Common.Int.{pos}
use oad_parser.Cd2.Spec.{odd, even}
use oad_parser.Cd2.Word.{count_loop, count_set_bits, calculate_parity_bit}

-- The ones among the low `k` binary digits of `v`.
unfoldable pub ones : ℕ → ℕ → ℕ
ones zero v = 0
ones (suc k) v = ones k (v / 2) + v % 2

-- `v & (v - 1)` by the last digit of `v`.
clear_odd : (v : ℕ) → v % 2 ≡ 1 → bit_and v (v - 1) ≡ v / 2 * 2
clear_odd v h =
    let e : (v - 1) / 2 ≡ v / 2 = omega arith in
    let d : (v - 1) % 2 ≡ 0 = omega arith in
    bit_and_step v (v - 1) ∙ rw (e, d, bit_and_self) (omega arith)

clear_even : (v : ℕ) → v % 2 ≡ 0 → 0 < v → bit_and v (v - 1) ≡ bit_and (v / 2) (v / 2 - 1) * 2
clear_even v h p =
    let e : (v - 1) / 2 ≡ v / 2 - 1 = omega arith in bit_and_step v (v - 1) ∙ rw e (omega arith)

-- One round of the counting loop removes exactly one one, and lowers the number.
clear_lowest :
    (k v : ℕ)
    → 0 < v
    → v < 2 ^ k
    → (ones k (bit_and v (v - 1)) + 1 ≡ ones k v) × (bit_and v (v - 1) < v)
unfolding ones
clear_lowest zero v p h = absurd (omega arith)
clear_lowest (suc k) v p h = elim (Bool-cases (v % 2 == 0)) [
  | inl e ↦ ground (
    arith,
    clear_even v (ground arith) p,
    pow-suc 2 k,
    clear_lowest k (v / 2) (ground arith) (ground (arith, pow-suc 2 k)),
  )
  | inr e ↦ ground (arith, clear_odd v (ground arith))
]

ones_zero : (k : ℕ) → ones k 0 ≡ 0
unfolding ones
ones_zero zero = refl
ones_zero (suc k) = omega (arith, ones_zero k)

count_loop-ones :
    (fuel k v count : ℕ) → v ≤ fuel → v < 2 ^ k → count_loop fuel v count ≡ count + ones k v
unfolding count_loop
count_loop-ones zero k zero count hf hk = omega (arith, ones_zero k)
count_loop-ones zero k (suc v) count hf hk = absurd (omega arith)
count_loop-ones (suc fuel) k v count hf hk =
    ground
      (arith, ones_zero k, clear_lowest k v, count_loop-ones fuel k (bit_and v (v - 1)) (count + 1))

-- Kernighan's loop counts the ones of every number that fits `k` bits.
pub count_set_bits-ones : (k v : ℕ) → v < 2 ^ k → count_set_bits (pos v) ≡ ok (ones k v)
unfolding count_set_bits
count_set_bits-ones k v h =
    let e : count_loop v v 0 ≡ ones k v = count_loop-ones v k v 0 (omega arith) h ∙ omega arith in
    ap ok e

-- The parity bit that `calculate_parity_bit` gives to 12 data bits makes the number of ones of
-- the 13 bits odd in the odd mode.
pub calculate_parity_bit-odd :
    (d : ℕ)
    → d < 2 ^ 12
    → (p : ℕ) × (calculate_parity_bit (pos d) odd ≡ ok p) × (p < 2) × ((ones 12 d + p) % 2 ≡ 1)
unfolding calculate_parity_bit
calculate_parity_bit-odd d h = (
  if ones 12 d % 2 == 0 then 1 else 0,
  ground (arith, count_set_bits-ones 12 d),
  ground arith,
  ground arith,
)

-- In the even mode it makes it even.
pub calculate_parity_bit-even :
    (d : ℕ)
    → d < 2 ^ 12
    → (p : ℕ) × (calculate_parity_bit (pos d) even ≡ ok p) × (p < 2) × ((ones 12 d + p) % 2 ≡ 0)
unfolding calculate_parity_bit
calculate_parity_bit-even d h = (
  if ones 12 d % 2 == 0 then 0 else 1,
  ground (arith, count_set_bits-ones 12 d),
  ground arith,
  ground arith,
)
