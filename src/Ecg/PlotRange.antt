-- ===== src/Ecg/PlotRange.antt =====
-- The values that `_extract_plot_words` of oad_parser/parsers/ecg.py can leave in a record.
use oad_parser.Common.{
  ℕ, zero, suc, ◌+◌, ◌*◌, ◌/◌, ◌%◌, ◌^◌, ◌≤◌, ◌<◌, ◌≡◌, refl, arith, bit_and, ◌&&◌, List, [], ◌∷◌,
  ◌++◌, foldl, ◌==◌, ltb, if_intro, leb, lt→ltb, ltb→lt, Bool-cases, inl, inr,
}
use native.Mathlib.Nat.{pow-suc}
use oad_parser.Common.Bits.{bit_and_le}
use oad_parser.Common.Int.{ℤ, pos, negsuc}
use oad_parser.Common.Text.{digits_of}
use oad_parser.Ecg.Block.{Flags, word_has_legacy_status_bit, read_uint16}
use oad_parser.Ecg.Plot.{
  Quantity, minus_one, scaled, ParsedPlot, octal_as_decimal, altitude_of, apply_word,
  plot_words_loop,
}

sevens : ℕ → ℕ
sevens zero = 7
sevens (suc k) = sevens k * 10 + 7

abbrev as_decimal : List ℕ → ℕ
as_decimal digits = foldl (λ n digit. n * 10 + digit) 0 digits

foldl-snoc :
    (f : ℕ → ℕ → ℕ) (acc : ℕ) (xs : List ℕ) (x : ℕ)
    → foldl f acc (xs ++ (x ∷ [])) ≡ f (foldl f acc xs) x
foldl-snoc f acc [] x = refl
foldl-snoc f acc (y ∷ ys) x = foldl-snoc f (f acc y) ys x

sevens_least : (k : ℕ) → 7 ≤ sevens k
unfolding sevens
sevens_least zero = omega arith
sevens_least (suc k) = let ih = sevens_least k in omega (arith, ih)

octal_bound : (k fuel v : ℕ) → v ≤ fuel → v < 8 ^ suc k → as_decimal (digits_of 8 fuel v) ≤ sevens k
unfolding digits_of sevens
octal_bound k zero v h small = let least = sevens_least k in omega (arith, least)
octal_bound zero (suc fuel) v h small = let t = lt→ltb v 8 small in rw (t, digits_of) (omega arith)
octal_bound (suc k) (suc fuel) v h small = elim (Bool-cases (ltb v 8)) [
  | inl t ↦ rw (t, digits_of) (let least = sevens_least k in omega (arith, least, ltb→lt v 8 t))
  | inr f ↦
      let ih = octal_bound k fuel (v / 8) (ground arith) (omega (arith, pow-suc 8 (suc k))) in
      rw (f, digits_of, foldl-snoc (λ n digit. n * 10 + digit) 0 (digits_of 8 fuel (v / 8)) (v % 8))
        (omega (arith, ih))
]

octal_as_decimal_bound : (v : ℕ) → v ≤ 4095 → octal_as_decimal v ≤ 7777
unfolding octal_as_decimal sevens
octal_as_decimal_bound v h = octal_bound 3 v v (omega arith) (omega arith)

-- A count that is at most `k`, or the source's -1.
abbrev pub QuantityAtMost : ℕ → Quantity → Type 0
QuantityAtMost k minus_one = Unit
QuantityAtMost k (scaled n) = n ≤ k

abbrev pub CodeAtMost : ℕ → ℤ → Type 0
CodeAtMost k (pos n) = n ≤ k
CodeAtMost k (negsuc n) = n ≡ 0

abbrev pub SizeAtMost : ℕ → ℤ → Type 0
SizeAtMost k (pos n) = n ≤ k
SizeAtMost k (negsuc n) = suc n ≤ k

-- The fields that the words set, each in the range of its bits.
abbrev pub InRange : ParsedPlot → Type 0
InRange plot =
    QuantityAtMost 2047 plot.range_nm
    × CodeAtMost 4095 plot.acp
    × QuantityAtMost 4095 plot.azimuth_degrees
    × CodeAtMost 7777 plot.mode_3_code
    × SizeAtMost 204700 plot.altitude_feet

altitude_of-SizeAtMost : (word : ℕ) → SizeAtMost 204700 (altitude_of word)
unfolding altitude_of
altitude_of-SizeAtMost word =
    let bound = bit_and_le word 2047 in
    if_intro (SizeAtMost 204700) (bit_and word 2048 / 2 ^ 11 == 1) _ _
      (λ _.
        if_intro (SizeAtMost 204700) (leb (bit_and word 2047 * 100) 0) _ _ (λ _. omega arith)
          (λ big. ground (arith, bound)))
      (λ _. omega (arith, bound))

pub apply_word-InRange :
    (flags : Flags) (index word : ℕ) (plot : ParsedPlot)
    → InRange plot
    → InRange (apply_word flags index word plot)
unfolding apply_word
apply_word-InRange flags index word plot (range, acp, azimuth, mode_3, altitude) =
    let low_bits = bit_and_le word 0xfff in
    if_intro InRange (word_has_legacy_status_bit word) _ _
      (λ _. (range, acp, azimuth, mode_3, altitude))
      λ _.
        if_intro InRange (index == 1) _ _
          (λ _. (omega (arith, bit_and_le word 0xffe), acp, azimuth, mode_3, altitude))
          λ _.
            if_intro InRange (index == 2) _ _ (λ _. (range, low_bits, low_bits, mode_3, altitude))
              λ _.
                if_intro InRange (index == 4) _ _
                  (λ _. (
                    range,
                    acp,
                    azimuth,
                    octal_as_decimal_bound (bit_and word 0xfff) low_bits,
                    altitude,
                  ))
                  λ _.
                    if_intro InRange ((index == 6) && flags.beacon_message && flags.modec_valid) _ _
                      (λ _. (range, acp, azimuth, mode_3, altitude_of-SizeAtMost word))
                      (λ _. (range, acp, azimuth, mode_3, altitude))

pub plot_words_loop-InRange :
    (payload : List ℕ) (start end : ℕ) (flags : Flags) (left index : ℕ) (plot : ParsedPlot)
    → InRange plot
    → InRange (plot_words_loop payload start end flags left index plot)
unfolding plot_words_loop
plot_words_loop-InRange payload start end flags zero index plot h = h
plot_words_loop-InRange payload start end flags (suc left) index plot h =
    let word = read_uint16 payload (start + index * 2) in
    let ih =
      plot_words_loop-InRange payload start end flags left (index + 1)
        (apply_word flags index word plot) (apply_word-InRange flags index word plot h) in
    if_intro InRange (ltb end (start + index * 2 + 2)) _ _ (λ _. h) (λ _. ih)
