-- ===== src/Common/Bytes.antt =====
-- Python's `bytes`: slices, indexing that may raise, and `int.from_bytes`.
use Prim.Native.Nat.{ℕ, zero, suc, ◌+◌, ◌-◌, ◌*◌, ◌≤◌, ◌<◌}
use mathlib.Core.Path.{◌≡◌, refl, sym, ap, ◌∙◌}
use mathlib.Core.List.{List, [], ◌∷◌, ◌++◌}
use native.Mathlib.Omega.{arith}
use oad_parser.Common.Lists.{
  take, drop, length, length-take, length-drop, drop-drop, drop-append_length, take-append_length,
  All, All-take, All-drop, length-take_le,
}
use mathlib.Core.Bool.{Bool, true, ◌&&◌}
use oad_parser.Common.Tests.{ltb}
use oad_parser.Common.Outcome.{Result, ok, err, index_error}

abbrev pub IsByte : ℕ → Type 0
IsByte b = b < 256

-- data[lo:hi]
abbrev pub slice {ℓ} : {A : Type ℓ} → List A → ℕ → ℕ → List A
slice xs lo hi = take (hi - lo) (drop lo xs)

-- data[i]
abbrev pub byte_at : List ℕ → ℕ → Result ℕ
byte_at [] i = err index_error
byte_at (b ∷ bs) zero = ok b
byte_at (b ∷ bs) (suc i) = byte_at bs i

-- int.from_bytes(data, "big"), continued from the bytes already read
abbrev pub from_bytes_on : ℕ → List ℕ → ℕ
from_bytes_on acc [] = acc
from_bytes_on acc (b ∷ bs) = from_bytes_on (acc * 256 + b) bs

abbrev pub from_bytes : List ℕ → ℕ
from_bytes bs = from_bytes_on 0 bs

pub from_bytes_two : (a b : ℕ) → from_bytes (a ∷ b ∷ []) ≡ a * 256 + b
from_bytes_two a b = omega arith

pub byte_at_total : (bs : List ℕ) (i : ℕ) → i < length bs → (b : ℕ) × (byte_at bs i ≡ ok b)
byte_at_total [] i h = absurd (omega arith)
byte_at_total (b ∷ bs) zero h = (b, refl)
byte_at_total (b ∷ bs) (suc i) h = byte_at_total bs i (omega arith)

pub length-slice {ℓ} :
    {A : Type ℓ} (xs : List A) (lo hi : ℕ) → hi ≤ length xs → length (slice xs lo hi) ≡ hi - lo
length-slice xs lo hi h = length-take (hi - lo) (drop lo xs) ∙ omega (arith, length-drop lo xs)

pub length-slice_le {ℓ} : {A : Type ℓ} (xs : List A) (lo hi : ℕ) → length (slice xs lo hi) ≤ hi - lo
length-slice_le xs lo hi = omega (arith, length-take_le (hi - lo) (drop lo xs))

slice-IsByte : (bs : List ℕ) (lo hi : ℕ) → All IsByte bs → All IsByte (slice bs lo hi)
slice-IsByte bs lo hi h = All-take IsByte (hi - lo) (drop lo bs) (All-drop IsByte lo bs h)

two_bytes_bound : (bs : List ℕ) → length bs ≤ 2 → All IsByte bs → from_bytes bs < 65536
two_bytes_bound [] n h = omega arith
two_bytes_bound (a ∷ []) n h = omega arith
two_bytes_bound (a ∷ b ∷ []) n h = omega arith
two_bytes_bound (a ∷ b ∷ c ∷ bs) n h = absurd (omega arith)

-- A field of two bytes is a number of 16 bits.
pub from_bytes-slice_bound :
    (bs : List ℕ) (lo hi : ℕ) → hi ≤ lo + 2 → All IsByte bs → from_bytes (slice bs lo hi) < 65536
from_bytes-slice_bound bs lo hi w h =
    two_bytes_bound (slice bs lo hi) (omega (arith, length-slice_le bs lo hi))
      (slice-IsByte bs lo hi h)

abbrev pub are_bytes : List ℕ → Bool
are_bytes [] = true
are_bytes (b ∷ bs) = ltb b 256 && are_bytes bs

pub are_bytes-IsByte : (bs : List ℕ) → are_bytes bs ≡ true → All IsByte bs
are_bytes-IsByte [] h = tt
are_bytes-IsByte (b ∷ bs) h = (ground arith, are_bytes-IsByte bs (ground arith))

-- Reading behind a front of known length reads the rest.
pub drop_past {ℓ} :
    {A : Type ℓ} (xs ys : List A) (n k : ℕ) → length xs ≡ n → drop (n + k) (xs ++ ys) ≡ drop k ys
drop_past xs ys n k h =
    ap (λ i. drop i (xs ++ ys)) (omega (arith, h))
    ∙ sym (drop-drop k (length xs) (xs ++ ys))
    ∙ ap (λ zs. drop k zs) (drop-append_length xs ys)

pub byte_at_past :
    (xs ys : List ℕ) (n k : ℕ) → length xs ≡ n → byte_at (xs ++ ys) (n + k) ≡ byte_at ys k
byte_at_past [] ys zero k h = ap (λ i. byte_at ys i) (omega arith)
byte_at_past [] ys (suc n) k h = absurd (omega arith)
byte_at_past (x ∷ xs) ys zero k h = absurd (omega arith)
byte_at_past (x ∷ xs) ys (suc n) k h =
    ap (λ i. byte_at (x ∷ (xs ++ ys)) i) (let e : suc n + k ≡ suc (n + k) = omega arith in e)
    ∙ byte_at_past xs ys n k (omega arith)

pub take_front {ℓ} : {A : Type ℓ} (xs ys : List A) (n : ℕ) → length xs ≡ n → take n (xs ++ ys) ≡ xs
take_front xs ys n h = ap (λ i. take i (xs ++ ys)) (sym h) ∙ take-append_length xs ys
