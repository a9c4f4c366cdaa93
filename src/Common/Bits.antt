-- ===== src/Common/Bits.antt =====
-- `&`, `|` and `^` on numbers: the equation of the lowest digit, and masks as arithmetic.
use Prim.Native.Nat.{
  ℕ, zero, suc, ◌+◌, ◌-◌, ◌*◌, ◌/◌, ◌%◌, ◌^◌, ◌≤◌, ◌<◌, min, max, bit_and, bit_or, bit_xor, differ,
  digits, bitwise, bit_and-bitwise, bit_or-bitwise, bit_xor-bitwise,
}
use mathlib.Core.Path.{◌≡◌, refl, ap, ◌∙◌}
use native.Mathlib.Omega.{arith}
use native.Mathlib.Nat.{pow-suc, one-le-pow}

-- `digits` counts down a bound on the digits left; two bounds that suffice give one result.
module _ (rest : ℕ → ℕ) (digit : ℕ → ℕ → ℕ) where
  bounds_agree : (k a b l : ℕ) → a ≤ k → a ≤ l → digits rest digit k a b ≡ digits rest digit l a b
  bounds_agree zero zero b zero hk hl = refl
  bounds_agree zero zero b (suc l) hk hl = refl
  bounds_agree (suc k) zero b zero hk hl = refl
  bounds_agree (suc k) zero b (suc l) hk hl = refl
  bounds_agree zero (suc a) b l hk hl = absurd (omega arith)
  bounds_agree (suc k) (suc a) b zero hk hl = absurd (omega arith)
  bounds_agree (suc k) (suc a) b (suc l) hk hl =
      ap (λ (t : ℕ). t * 2 + digit (suc a % 2) (b % 2))
        (bounds_agree k (suc a / 2) (b / 2) l (omega arith) (omega arith))

  lowest_digit :
      (a b : ℕ)
      → bitwise rest digit (suc a) b
        ≡ bitwise rest digit (suc a / 2) (b / 2) * 2 + digit (suc a % 2) (b % 2)
  lowest_digit a b =
      ap (λ (t : ℕ). t * 2 + digit (suc a % 2) (b % 2))
        (bounds_agree a (suc a / 2) (b / 2) (suc a / 2) (omega arith) (omega arith))

pub bit_xor_step : (x y : ℕ) → bit_xor x y ≡ bit_xor (x / 2) (y / 2) * 2 + differ (x % 2) (y % 2)
bit_xor_step zero y = simp bit_xor-bitwise (omega arith)
bit_xor_step (suc x) y = simp bit_xor-bitwise (lowest_digit (λ z. z) differ x y)

pub bit_and_step : (x y : ℕ) → bit_and x y ≡ bit_and (x / 2) (y / 2) * 2 + min (x % 2) (y % 2)
bit_and_step zero y = simp bit_and-bitwise (omega arith)
bit_and_step (suc x) y = simp bit_and-bitwise (lowest_digit (λ _. 0) min x y)

pub bit_or_step : (x y : ℕ) → bit_or x y ≡ bit_or (x / 2) (y / 2) * 2 + max (x % 2) (y % 2)
bit_or_step zero y = simp bit_or-bitwise (omega arith)
bit_or_step (suc x) y = simp bit_or-bitwise (lowest_digit (λ z. z) max x y)

and_zero_below : (k a : ℕ) → a ≤ k → bit_and a 0 ≡ 0
and_zero_below k zero h = refl
and_zero_below zero (suc a) h = absurd (omega arith)
and_zero_below (suc k) (suc a) h =
    omega (arith, bit_and_step (suc a) 0, and_zero_below k (suc a / 2) (omega arith))

pub bit_and-zero : (a : ℕ) → bit_and a 0 ≡ 0
bit_and-zero a = and_zero_below a a (omega arith)

or_zero_below : (k a : ℕ) → a ≤ k → bit_or a 0 ≡ a
or_zero_below k zero h = refl
or_zero_below zero (suc a) h = absurd (omega arith)
or_zero_below (suc k) (suc a) h =
    omega (arith, bit_or_step (suc a) 0, or_zero_below k (suc a / 2) (omega arith))

pub bit_or-zero : (a : ℕ) → bit_or a 0 ≡ a
bit_or-zero a = or_zero_below a a (omega arith)

half_mod : (p a : ℕ) → 0 < p → a % (2 * p) ≡ a / 2 % p * 2 + a % 2
half_mod p a h = grind arith

-- A mask of `k` ones keeps the remainder by 2 ^ k.
pub bit_and_mask : (k a : ℕ) → bit_and a (2 ^ k - 1) ≡ a % 2 ^ k
bit_and_mask zero a = omega (arith, bit_and-zero a)
bit_and_mask (suc k) a = ground (
  arith,
  bit_and_step a (2 ^ suc k - 1),
  pow-suc 2 k,
  one-le-pow k 2,
  half_mod (2 ^ k) a,
  bit_and_mask k (a / 2),
)

-- (a << 1) | b for a bit b
pub bit_or_double : (a b : ℕ) → b < 2 → bit_or (a * 2) b ≡ a * 2 + b
bit_or_double a zero h = omega (arith, bit_or-zero (a * 2))
bit_or_double a (suc zero) h =
    let e : a * 2 / 2 ≡ a = omega arith in bit_or_step (a * 2) 1 ∙ rw (e, bit_or-zero) (omega arith)
bit_or_double a (suc (suc b)) h = absurd (omega arith)

and_self_below : (k a : ℕ) → a ≤ k → bit_and a a ≡ a
and_self_below k zero h = refl
and_self_below zero (suc a) h = absurd (omega arith)
and_self_below (suc k) (suc a) h =
    omega (arith, bit_and_step (suc a) (suc a), and_self_below k (suc a / 2) (omega arith))

pub bit_and_self : (a : ℕ) → bit_and a a ≡ a
bit_and_self a = and_self_below a a (omega arith)

differ_one : (a : ℕ) → a < 2 → differ a 1 ≡ 1 - a
differ_one zero h = refl
differ_one (suc zero) h = refl
differ_one (suc (suc a)) h = absurd (omega arith)

-- `^` with `k` ones is the distance to the largest number of `k` digits.
pub bit_xor_mask : (k a : ℕ) → a < 2 ^ k → bit_xor a (2 ^ k - 1) ≡ 2 ^ k - 1 - a
bit_xor_mask zero zero h = refl
bit_xor_mask zero (suc a) h = absurd (omega arith)
bit_xor_mask (suc k) a h =
    let e : (2 ^ suc k - 1) / 2 ≡ 2 ^ k - 1 = omega (arith, pow-suc 2 k) in
    let o : (2 ^ suc k - 1) % 2 ≡ 1 = omega (arith, pow-suc 2 k, one-le-pow k 2) in
    bit_xor_step a (2 ^ suc k - 1)
    ∙ rw (e, o)
        (omega (
          arith,
          pow-suc 2 k,
          bit_xor_mask k (a / 2) (omega (arith, pow-suc 2 k)),
          differ_one (a % 2) (omega arith),
        ))

and_le_below : (k a b : ℕ) → b ≤ k → bit_and a b ≤ b
and_le_below k a zero h = omega (arith, bit_and-zero a)
and_le_below zero a (suc b) h = absurd (omega arith)
and_le_below (suc k) a (suc b) h =
    let ih = and_le_below k (a / 2) (suc b / 2) (omega arith) in
    omega (arith, bit_and_step a (suc b), ih)

pub bit_and_le : (a b : ℕ) → bit_and a b ≤ b
bit_and_le a b = and_le_below b a b (omega arith)
