-- ===== src/Cd2/RoundTrip.antt =====
-- Words packed by oad_parser/parsers/cd2.py are read back by `iter_13_bit_words_from_bytes`.
use native.Mathlib.Nat.{pow-suc, div-add-mod, div-div-eq-div-mul}
use oad_parser.Common.{
  ℕ, zero, suc, ◌+◌, ◌*◌, ◌/◌, ◌%◌, ◌^◌, ◌<◌, bit_and, bit_or, ◌≡◌, refl, ap, ◌∙◌, arith, List, [],
  ◌∷◌, ◌++◌, append_assoc, true, false, Result, ok, ◌==◌, ◌>>=◌, map, All, leb, length, replicate,
  length-replicate, All-append,
}
use oad_parser.Common.Bits.{bit_and_mask, bit_or_double}
use oad_parser.Common.Int.{pos}
use oad_parser.Cd2.Spec.{Cd2LinkConfig, is_unknown}
use oad_parser.Cd2.Word.{Cd2Word, decode_wire_word}
use oad_parser.Cd2.Decode.{decoded, decode_wire_word_lem}
use oad_parser.Cd2.Stream.{
  msb_bits, at_offset, word_loop, iter_13_bit_words_from_bytes, packed_bits, pack_loop,
  pack_13_bit_words_to_bytes,
}
use oad_parser.Cd2.Packing.{IsBit, IsWireWord, msb_bits-IsBit, fill, iter_msb_bits-pack_loop}

-- The words that are read from packed values: value `i` at bit offset 13 * i.
abbrev pub stream_words : Cd2LinkConfig → ℕ → ℕ → List ℕ → List Cd2Word
stream_words c i offset [] = []
stream_words c i offset (v ∷ vs) =
    at_offset (decoded c v i) offset ∷ stream_words c (i + 1) (offset + 13) vs

-- The bits of the values, one after the other.
abbrev value_bits : List ℕ → List ℕ
value_bits [] = []
value_bits (v ∷ vs) = msb_bits 13 v ++ value_bits vs

value_bits-IsBit : (vs : List ℕ) → All IsBit (value_bits vs)
value_bits-IsBit [] = tt
value_bits-IsBit (v ∷ vs) =
    All-append IsBit (msb_bits 13 v) (value_bits vs) (msb_bits-IsBit 13 v) (value_bits-IsBit vs)

packed_bits-value_bits :
    (vs : List ℕ) → All IsWireWord vs → packed_bits (map pos vs) ≡ ok (value_bits vs)
packed_bits-value_bits [] h = unfold packed_bits in refl
packed_bits-value_bits (v ∷ vs) h = go (packed_bits-value_bits vs h.1)
  where
    fits : leb (2 ^ 13) v ≡ false
    fits = ground arith

    go :
        packed_bits (map pos vs) ≡ ok (value_bits vs)
        → packed_bits (map pos (v ∷ vs)) ≡ ok (value_bits (v ∷ vs))
    go rest = unfold packed_bits in rw fits (rw rest)

-- One bit more of the high end of `v`.
next_bit : (a s v : ℕ) → (a * 2 + v / 2 ^ s % 2) * 2 ^ s + v % 2 ^ s ≡ a * 2 ^ suc s + v % 2 ^ suc s
next_bit a s v =
    let p : ℕ = 2 ^ s in
    let q : ℕ = v / p in
    rw (pow-suc 2 s) (
      omega (
        arith,
        div-add-mod v p,
        div-add-mod v (p * 2),
        div-div-eq-div-mul v p 2,
        ap (λ (t : ℕ). p * t) (div-add-mod q 2),
        ap (λ (t : ℕ). p * 2 * t) (div-div-eq-div-mul v p 2),
      ))

module _ (c : Cd2LinkConfig) where
  finish : ℕ → ℕ → ℕ → List ℕ → Result (List Cd2Word)
  finish w i offset rest = do
    word ← decode_wire_word (pos w) i c
    words ← word_loop c 0 0 (i + 1) (offset + 13) rest
    ok (at_offset word offset ∷ words)

  word_loop_full :
      (a n i offset b : ℕ) (bits : List ℕ)
      → n + 1 ≡ 13
      → word_loop c a n i offset (b ∷ bits) ≡ finish (bit_or (a * 2) b) i offset bits
  unfolding finish word_loop
  word_loop_full a n i offset b bits h =
      let e : (n + 1 == 13) ≡ true = ground arith in rw (e, word_loop)

  word_loop_more :
      (a n i offset b : ℕ) (bits : List ℕ)
      → n + 1 < 13
      → word_loop c a n i offset (b ∷ bits) ≡ word_loop c (bit_or (a * 2) b) (n + 1) i offset bits
  unfolding word_loop
  word_loop_more a n i offset b bits h =
      let e : (n + 1 == 13) ≡ false = ground arith in rw (e, word_loop)

  -- The loop with `s` bits of a word still to come takes them from the front.
  word_loop-msb_bits :
      (s a n i offset v : ℕ) (rest : List ℕ)
      → n + suc s ≡ 13
      → word_loop c a n i offset (msb_bits (suc s) v ++ rest)
        ≡ finish (a * 2 ^ suc s + v % 2 ^ suc s) i offset rest
  unfolding msb_bits
  word_loop-msb_bits zero a n i offset v rest h =
      word_loop_full a n i offset (bit_and (v / 2 ^ 0) 1) rest (omega arith)
      ∙ ap (λ w. finish w i offset rest)
          (bit_or_double a (bit_and (v / 2 ^ 0) 1) (omega (arith, bit_and_mask 1 (v / 2 ^ 0)))
            ∙ omega (arith, bit_and_mask 1 (v / 2 ^ 0)))
  word_loop-msb_bits (suc s) a n i offset v rest h =
      let b : ℕ = bit_and (v / 2 ^ suc s) 1 in
      let mask : b ≡ v / 2 ^ suc s % 2 = bit_and_mask 1 (v / 2 ^ suc s) in
      word_loop_more a n i offset b (msb_bits (suc s) v ++ rest) (omega arith)
      ∙ word_loop-msb_bits s (bit_or (a * 2) b) (n + 1) i offset v rest (omega arith)
      ∙ ap (λ w. finish w i offset rest)
          (rw (bit_or_double a b (omega (arith, mask)), mask) (next_bit a (suc s) v))

  -- Fewer bits than a word needs are ignored.
  word_loop_short :
      (bits : List ℕ) (a n i offset : ℕ)
      → n + length bits < 13
      → word_loop c a n i offset bits ≡ ok []
  word_loop_short [] a n i offset h = unfold word_loop in refl
  word_loop_short (b ∷ bits) a n i offset h =
      word_loop_more a n i offset b bits (omega arith)
      ∙ word_loop_short bits (bit_or (a * 2) b) (n + 1) i offset (omega arith)

  word_loop-value_bits :
      (vs : List ℕ) (tail : List ℕ) (i offset : ℕ)
      → is_unknown c.parity_mode ≡ false
      → All IsWireWord vs
      → length tail < 13
      → word_loop c 0 0 i offset (value_bits vs ++ tail) ≡ ok (stream_words c i offset vs)
  unfolding finish
  word_loop-value_bits [] tail i offset k h t = word_loop_short tail 0 0 i offset (omega arith)
  word_loop-value_bits (v ∷ vs) tail i offset k h t =
      ap (λ bits. word_loop c 0 0 i offset bits) (append_assoc (msb_bits 13 v) (value_bits vs) tail)
      ∙ word_loop-msb_bits 12 0 0 i offset v (value_bits vs ++ tail) (omega arith)
      ∙ ap (λ w. finish w i offset (value_bits vs ++ tail)) small
      ∙ rw (decode_wire_word_lem c v i k h.0)
          (rw (word_loop-value_bits vs tail (i + 1) (offset + 13) k h.1 t))
    where
      small : 0 * 2 ^ 13 + v % 2 ^ 13 ≡ v
      small = omega arith

abbrev packed : List ℕ → List ℕ
packed vs = pack_loop (length (value_bits vs)) (value_bits vs)

pack-value_bits :
    (vs : List ℕ) → All IsWireWord vs → pack_13_bit_words_to_bytes (map pos vs) ≡ ok (packed vs)
unfolding pack_13_bit_words_to_bytes
pack-value_bits vs h = rw (packed_bits-value_bits vs h)

iter_words-packed :
    (c : Cd2LinkConfig) (vs : List ℕ)
    → is_unknown c.parity_mode ≡ false
    → All IsWireWord vs
    → iter_13_bit_words_from_bytes (packed vs) c ≡ ok (stream_words c 0 0 vs)
unfolding iter_13_bit_words_from_bytes
iter_words-packed c vs k h =
    rw (iter_msb_bits-pack_loop (length bits) bits (omega arith) (value_bits-IsBit vs))
      (word_loop-value_bits c vs (replicate fills 0) 0 0 k h short)
  where
    bits : List ℕ
    bits = value_bits vs

    fills : ℕ
    fills = fill (length bits)

    short : length (replicate {A = ℕ} fills 0) < 13
    short = omega (arith, length-replicate {A = ℕ} fills 0)

-- Packing 13-bit words and reading the bytes back gives the decoded words in order, each with its
-- index and bit offset: no word is lost, and the fill bits make no word.
pub iter_words-pack :
    (c : Cd2LinkConfig) (vs : List ℕ)
    → is_unknown c.parity_mode ≡ false
    → All IsWireWord vs
    → (bytes : List ℕ) × (pack_13_bit_words_to_bytes (map pos vs) ≡ ok bytes)
      × (iter_13_bit_words_from_bytes bytes c ≡ ok (stream_words c 0 0 vs))
iter_words-pack c vs k h = (packed vs, pack-value_bits vs h, iter_words-packed c vs k h)
