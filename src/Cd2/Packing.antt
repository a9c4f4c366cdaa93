-- ===== src/Cd2/Packing.antt =====
-- Packing to bytes in oad_parser/parsers/cd2.py, undone by the bits of the bytes.
use native.Mathlib.Nat.{pow-suc, mul_comm, div-div-eq-div-mul}
use oad_parser.Common.{
  ℕ, zero, suc, ◌-◌, ◌*◌, ◌/◌, ◌%◌, ◌^◌, ◌≤◌, ◌<◌, bit_or, ◌≡◌, refl, sym, ap, ◌∙◌, arith, inl, inr,
  List, [], ◌∷◌, ◌++◌, append_assoc, append-nil, All, length, take, drop, replicate, length-append,
  length-take, length-drop, length-replicate, take-append-drop, take_all, drop_all, All-append, leb,
  Bool-cases,
}
use oad_parser.Common.Bits.{bit_and_mask, bit_or_double}
use oad_parser.Cd2.Stream.{msb_bits, iter_msb_bits, byte_of_bits, padded, pack_loop}

abbrev pub IsBit : ℕ → Type 0
IsBit b = b < 2

abbrev pub IsWireWord : ℕ → Type 0
IsWireWord v = v < 2 ^ 13

pub length-msb_bits : (k v : ℕ) → length (msb_bits k v) ≡ k
unfolding msb_bits
length-msb_bits zero v = refl
length-msb_bits (suc k) v = ap suc (length-msb_bits k v)

pub msb_bits-IsBit : (k v : ℕ) → All IsBit (msb_bits k v)
unfolding msb_bits
msb_bits-IsBit zero v = tt
msb_bits-IsBit (suc k) v = (omega (arith, bit_and_mask 1 (v / 2 ^ k)), msb_bits-IsBit k v)

half_div : (p x : ℕ) → x / (2 * p) ≡ x / p / 2
half_div p x = ap (λ (t : ℕ). x / t) (mul_comm 2 p) ∙ sym (div-div-eq-div-mul x p 2)

-- What was read before the chunk stands above the bits of the chunk.
byte_of_bits_high :
    (acc : ℕ) (chunk : List ℕ) → All IsBit chunk → byte_of_bits acc chunk / 2 ^ length chunk ≡ acc
unfolding byte_of_bits
byte_of_bits_high acc [] h = omega arith
byte_of_bits_high acc (b ∷ chunk) h = rw (pow-suc 2 (length chunk)) (
    ap (λ (t : ℕ). byte_of_bits (bit_or (acc * 2) b) chunk / t) (mul_comm (2 ^ length chunk) 2)
    ∙ half_div (2 ^ length chunk) (byte_of_bits (bit_or (acc * 2) b) chunk)
    ∙ rw (byte_of_bits_high (bit_or (acc * 2) b) chunk h.1)
        (omega (arith, bit_or_double acc b h.0)))

-- The bits of a packed chunk are the chunk.
msb_bits-byte_of_bits :
    (acc : ℕ) (chunk : List ℕ)
    → All IsBit chunk
    → msb_bits (length chunk) (byte_of_bits acc chunk) ≡ chunk
unfolding msb_bits byte_of_bits
msb_bits-byte_of_bits acc [] h = refl
msb_bits-byte_of_bits acc (b ∷ chunk) h =
    rw (byte_of_bits_high (bit_or (acc * 2) b) chunk h.1, bit_and_mask 1 (bit_or (acc * 2) b))
      (rw (msb_bits-byte_of_bits (bit_or (acc * 2) b) chunk h.1) (ap (λ d. d ∷ chunk) last))
  where
    last : bit_or (acc * 2) b % 2 ≡ b
    last = omega (arith, bit_or_double acc b h.0)

padded_eight : (chunk : List ℕ) → length chunk ≤ 8 → length (padded chunk) ≡ 8
padded_eight chunk h = omega (
  arith,
  length-append chunk (replicate (8 - length chunk) 0),
  length-replicate {A = ℕ} (8 - length chunk) 0,
)

zeros-IsBit : (n : ℕ) → All IsBit (replicate n 0)
zeros-IsBit zero = tt
zeros-IsBit (suc n) = (omega arith, zeros-IsBit n)

take-IsBit : (n : ℕ) (bits : List ℕ) → All IsBit bits → All IsBit (take n bits)
take-IsBit zero bits h = tt
take-IsBit (suc n) [] h = tt
take-IsBit (suc n) (b ∷ bits) h = (h.0, take-IsBit n bits h.1)

drop-IsBit : (n : ℕ) (bits : List ℕ) → All IsBit bits → All IsBit (drop n bits)
drop-IsBit zero bits h = h
drop-IsBit (suc n) [] h = tt
drop-IsBit (suc n) (b ∷ bits) h = drop-IsBit n bits h.1

-- The eight bits of a packed byte are the padded chunk.
byte_bits :
    (chunk : List ℕ)
    → length chunk ≤ 8
    → All IsBit chunk
    → msb_bits 8 (byte_of_bits 0 (padded chunk)) ≡ padded chunk
byte_bits chunk h k =
    ap (λ n. msb_bits n (byte_of_bits 0 (padded chunk))) (sym (padded_eight chunk h))
    ∙ msb_bits-byte_of_bits 0 (padded chunk)
        (All-append IsBit chunk (replicate (8 - length chunk) 0) k (zeros-IsBit (8 - length chunk)))

pack_loop-suc :
    (fuel b : ℕ) (bits : List ℕ)
    → iter_msb_bits (pack_loop (suc fuel) (b ∷ bits))
      ≡ msb_bits 8 (byte_of_bits 0 (padded (take 8 (b ∷ bits))))
        ++ iter_msb_bits (pack_loop fuel (drop 8 (b ∷ bits)))
unfolding iter_msb_bits pack_loop
pack_loop-suc fuel b bits = refl

-- The zeros that fill the last byte of `n` bits.
abbrev pub fill : ℕ → ℕ
fill n = (8 - n % 8) % 8

full_chunk :
    (bits : List ℕ)
    → 8 ≤ length bits
    → padded (take 8 bits) ++ (drop 8 bits ++ replicate (fill (length (drop 8 bits))) 0)
      ≡ bits ++ replicate (fill (length bits)) 0
full_chunk bits h =
    let e : 8 - length (take 8 bits) ≡ 0 = omega (arith, length-take 8 bits) in
    let f : fill (length (drop 8 bits)) ≡ fill (length bits) = omega (arith, length-drop 8 bits) in
    rw (e, f) (rw (append-nil, ← append_assoc) (rw (take-append-drop 8 bits)))

last_chunk :
    (bits : List ℕ)
    → 0 < length bits
    → length bits < 8
    → padded (take 8 bits) ++ (drop 8 bits ++ replicate (fill (length (drop 8 bits))) 0)
      ≡ bits ++ replicate (fill (length bits)) 0
last_chunk bits p h =
    let e : fill (length bits) ≡ 8 - length bits = omega arith in
    rw (take_all 8 bits (omega arith), drop_all 8 bits (omega arith), e) (rw append-nil)

chunk_then_rest :
    (bits : List ℕ)
    → 0 < length bits
    → padded (take 8 bits) ++ (drop 8 bits ++ replicate (fill (length (drop 8 bits))) 0)
      ≡ bits ++ replicate (fill (length bits)) 0
chunk_then_rest bits p = elim (Bool-cases (leb 8 (length bits))) [
  | inl h ↦ full_chunk bits (ground arith)
  | inr h ↦ last_chunk bits p (ground arith)
]

-- The bits of the packed bytes are the packed bits and the zeros that fill the last byte.
pub iter_msb_bits-pack_loop :
    (fuel : ℕ) (bits : List ℕ)
    → length bits ≤ fuel
    → All IsBit bits
    → iter_msb_bits (pack_loop fuel bits) ≡ bits ++ replicate (fill (length bits)) 0
iter_msb_bits-pack_loop fuel [] h k = unfold pack_loop iter_msb_bits in refl
iter_msb_bits-pack_loop zero (b ∷ bits) h k = absurd (omega arith)
iter_msb_bits-pack_loop (suc fuel) (b ∷ bits) h k =
    let all = b ∷ bits in
    let short : length (take 8 all) ≤ 8 = omega (arith, length-take 8 all) in
    pack_loop-suc fuel b bits
    ∙ rw
        (
          byte_bits (take 8 all) short (take-IsBit 8 all k),
          iter_msb_bits-pack_loop fuel (drop 8 all) (omega (arith, length-drop 8 all))
              (drop-IsBit 8 all k),
        )
        (chunk_then_rest all (omega arith))
