-- ===== src/Udp/ChecksumLaws.antt =====
-- The checksum of oad_parser/ingest/ethernet.py against the sum of 16-bit words modulo 65535.
use oad_parser.Common.{
  ℕ, zero, suc, ◌+◌, ◌-◌, ◌*◌, ◌/◌, ◌%◌, ◌^◌, ◌≤◌, ◌<◌, ◌≡◌, ◌↔◌, refl, ap, ◌∙◌, arith, List, [],
  ◌∷◌, ◌++◌, ◌==◌, if◌then◌else◌, All, length, if_intro, All-append, length-append, IsByte,
}
use oad_parser.Common.Bits.{bit_and_mask, bit_xor_mask}
use oad_parser.Udp.Checksum.{fold_carry, sum_loop, fold_loop, even_bytes, internet_checksum}

-- The sum of the big-endian 16-bit words of the data; a last odd byte is a word's high byte.
unfoldable pub word_sum : List ℕ → ℕ
word_sum [] = 0
word_sum (high ∷ []) = high * 256
word_sum (high ∷ low ∷ rest) = high * 256 + low + word_sum rest

-- A sum in sixteen bits of one's complement arithmetic: 0 only for 0, else 1 to 65535.
abbrev pub ones_complement : ℕ → ℕ
ones_complement s = if s == 0 then 0 else (s - 1) % 65535 + 1

fold_carry_lem : (t : ℕ) → fold_carry t ≡ t % 2 ^ 16 + t / 2 ^ 16
unfolding fold_carry
fold_carry_lem t = rw (bit_and_mask 16 t)

fold_carry-add :
    (s w : ℕ) → w ≤ 65535 → fold_carry (ones_complement s + w) ≡ ones_complement (s + w)
fold_carry-add s w h = ground (arith, fold_carry_lem (ones_complement s + w))

-- The loop carries the one's complement sum of what it has read.
sum_loop-word_sum :
    (s : ℕ) (bytes : List ℕ)
    → All IsByte bytes
    → length bytes % 2 ≡ 0
    → sum_loop (ones_complement s) bytes ≡ ones_complement (s + word_sum bytes)
unfolding sum_loop word_sum
sum_loop-word_sum s [] h e = ap (λ t. ones_complement t) (omega arith)
sum_loop-word_sum s (high ∷ []) h e = absurd (omega arith)
sum_loop-word_sum s (high ∷ low ∷ rest) (hh, (hl, hr)) e =
    ap (λ t. sum_loop t rest) (fold_carry-add s ((0 + high) * 256 + low) (omega arith))
    ∙ sum_loop-word_sum (s + ((0 + high) * 256 + low)) rest hr (omega arith)
    ∙ ap (λ t. ones_complement t) (omega arith)

word_sum-append_zero :
    (bytes : List ℕ) → length bytes % 2 ≡ 1 → word_sum (bytes ++ (0 ∷ [])) ≡ word_sum bytes
unfolding word_sum
word_sum-append_zero [] e = absurd (omega arith)
word_sum-append_zero (high ∷ []) e = omega arith
word_sum-append_zero (high ∷ low ∷ rest) e =
    ap (λ (t : ℕ). high * 256 + low + t) (word_sum-append_zero rest (omega arith))

even_bytes-word_sum : (bytes : List ℕ) → word_sum (even_bytes bytes) ≡ word_sum bytes
unfolding even_bytes
even_bytes-word_sum bytes =
    if_intro (λ (bs : List ℕ). word_sum bs ≡ word_sum bytes) (length bytes % 2 == 0) _ _ (λ _. refl)
      (λ e. word_sum-append_zero bytes (ground arith))

even_bytes-even : (bytes : List ℕ) → length (even_bytes bytes) % 2 ≡ 0
unfolding even_bytes
even_bytes-even bytes =
    if_intro (λ (bs : List ℕ). length bs % 2 ≡ 0) (length bytes % 2 == 0) _ _ (λ e. ground arith)
      (λ e. ground (arith, length-append bytes (0 ∷ [])))

even_bytes-IsByte : (bytes : List ℕ) → All IsByte bytes → All IsByte (even_bytes bytes)
unfolding even_bytes
even_bytes-IsByte bytes h =
    if_intro (All IsByte) (length bytes % 2 == 0) _ _ (λ _. h)
      (λ _. All-append IsByte bytes (0 ∷ []) h (omega arith, tt))

fold_loop_done : (fuel t : ℕ) → t < 2 ^ 16 → fold_loop fuel t ≡ t
unfolding fold_loop
fold_loop_done zero t h = refl
fold_loop_done (suc fuel) t h = ground arith

sum_loop-even_bytes :
    (bytes : List ℕ)
    → All IsByte bytes
    → sum_loop 0 (even_bytes bytes) ≡ ones_complement (word_sum bytes)
sum_loop-even_bytes bytes h =
    sum_loop-word_sum 0 (even_bytes bytes) (even_bytes-IsByte bytes h) (even_bytes-even bytes)
    ∙ ap (λ t. ones_complement t) (omega (arith, even_bytes-word_sum bytes))

pub internet_checksum-word_sum :
    (bytes : List ℕ)
    → All IsByte bytes
    → internet_checksum bytes ≡ 65535 - ones_complement (word_sum bytes)
unfolding internet_checksum
internet_checksum-word_sum bytes h =
    let t : ℕ = ones_complement (word_sum bytes) in
    let small : t < 2 ^ 16 = ground arith in
    rw (sum_loop-even_bytes bytes h) (
      rw (fold_loop_done t t small, bit_and_mask 16 t)
        (bit_xor_mask 16 (t % 2 ^ 16) (omega arith) ∙ omega arith))

-- The checksum of any bytes is zero exactly if the sum of their 16-bit words is a positive
-- multiple of 65535.
pub internet_checksum-eq_zero :
    (bytes : List ℕ)
    → All IsByte bytes
    → (internet_checksum bytes ≡ 0) ↔ ((0 < word_sum bytes) × (word_sum bytes % 65535 ≡ 0))
internet_checksum-eq_zero bytes h = (
  λ e. ground (arith, internet_checksum-word_sum bytes h),
  λ e. ground (arith, internet_checksum-word_sum bytes h),
)
