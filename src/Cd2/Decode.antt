-- ===== src/Cd2/Decode.antt =====
-- What `decode_wire_word` of oad_parser/parsers/cd2.py returns, in plain arithmetic.
use oad_parser.Common.{
  ℕ, ◌+◌, ◌-◌, ◌/◌, ◌%◌, ◌^◌, ◌<◌, ◌≡◌, bit_and, bit_xor, refl, ◌∙◌, arith, Bool, true, false, none,
  some, ◌==◌, leb, if◌then◌else◌,
}
use oad_parser.Common.{ok}
use oad_parser.Common.Bits.{bit_and_mask, bit_xor_mask}
use oad_parser.Common.Int.{pos}
use oad_parser.Cd2.Spec.{ParityMode, odd, even, other, is_unknown, Cd2LinkConfig, cd2_idle_word}
use oad_parser.Cd2.Word.{Cd2Word, parity_is_valid, word_parity_valid, decode_wire_word}
use oad_parser.Cd2.Parity.{ones, count_set_bits-ones}

-- The remainder by two that the ones of a valid word leave.
abbrev pub wanted_remainder : ParityMode → ℕ
wanted_remainder odd = 1
wanted_remainder even = 0
wanted_remainder (other _) = 0

-- The word after the data inversion: all 13 bits flipped, or none.
abbrev pub line_value : Cd2LinkConfig → ℕ → ℕ
line_value c w = if c.data_inversion then 2 ^ 13 - 1 - w else w

abbrev pub has_wanted_parity : Cd2LinkConfig → ℕ → Bool
has_wanted_parity c v = ones 13 v % 2 == wanted_remainder c.parity_mode

abbrev pub decoded : Cd2LinkConfig → ℕ → ℕ → Cd2Word
decoded c w i =
    let v = line_value c w in
    record {
      raw = v;
      index = i;
      data_bits = v / 2;
      parity_bit = some (v % 2);
      parity_valid = if v == cd2_idle_word then none else some (has_wanted_parity c v);
      is_idle = v == cd2_idle_word;
      bit_offset = none;
      byte_offset = none;
    }

pub parity_is_valid-ones :
    (mode : ParityMode) (d p : ℕ)
    → is_unknown mode ≡ false
    → d < 2 ^ 12
    → p < 2
    → parity_is_valid (pos d) (pos p) mode ≡ ok ((ones 12 d + p) % 2 == wanted_remainder mode)
unfolding parity_is_valid
parity_is_valid-ones odd d p k hd hp = ground (arith, count_set_bits-ones 12 d)
parity_is_valid-ones even d p k hd hp = ground (arith, count_set_bits-ones 12 d)
parity_is_valid-ones (other s) d p k hd hp = cc

word_parity_valid-ones :
    (idle : Bool) (mode : ParityMode) (d p : ℕ)
    → is_unknown mode ≡ false
    → d < 2 ^ 12
    → p < 2
    → word_parity_valid idle d p mode
      ≡ ok (if idle then none else some ((ones 12 d + p) % 2 == wanted_remainder mode))
unfolding word_parity_valid
word_parity_valid-ones true mode d p k hd hp = refl
word_parity_valid-ones false mode d p k hd hp = rw (parity_is_valid-ones mode d p k hd hp)

line_value-eq-xor :
    (c : Cd2LinkConfig) (w : ℕ)
    → w < 2 ^ 13
    → (if c.data_inversion then bit_xor w (2 ^ 13 - 1) else w) ≡ line_value c w
line_value-eq-xor c w h = ground (arith, bit_xor_mask 13 w)

data_bits_of : (v : ℕ) → v < 2 ^ 13 → bit_and (v / 2 ^ 1) (2 ^ 12 - 1) ≡ v / 2
data_bits_of v h = bit_and_mask 12 (v / 2 ^ 1) ∙ omega arith

line_value-lt : (c : Cd2LinkConfig) (w : ℕ) → w < 2 ^ 13 → line_value c w < 2 ^ 13
line_value-lt c w h = ground arith

ones_thirteen : (v : ℕ) → ones 13 v ≡ ones 12 (v / 2) + v % 2
unfolding ones
ones_thirteen v = refl

-- Every 13-bit word decodes: to its twelve upper bits, its last bit, and the parity check by the
-- number of ones of all thirteen bits, which the idle word does not have.
pub decode_wire_word_lem :
    (c : Cd2LinkConfig) (w i : ℕ)
    → is_unknown c.parity_mode ≡ false
    → w < 2 ^ 13
    → decode_wire_word (pos w) i c ≡ ok (decoded c w i)
unfolding decode_wire_word
decode_wire_word_lem c w i k h =
    let in_range : leb (2 ^ 13) w ≡ false = ground arith in
    let v = line_value c w in
    let fits : v < 2 ^ 13 = line_value-lt c w h in
    let halves : v / 2 < 2 ^ 12 = omega arith in
    rw (in_range, line_value-eq-xor c w h, data_bits_of v fits, bit_and_mask 1 v)
      (rw (
        word_parity_valid-ones (v == cd2_idle_word) c.parity_mode (v / 2) (v % 2) k halves
            (omega arith),
        ones_thirteen,
      ))
