-- ===== src/Cd2/Word.antt =====
-- Words, parity and the two word decoders of oad_parser/parsers/cd2.py. A word that a caller
-- hands over is an integer, since the code checks that it is not negative.
use oad_parser.Common.{
  ℕ, zero, suc, ◌+◌, ◌-◌, ◌*◌, ◌/◌, ◌%◌, ◌^◌, bit_and, bit_or, bit_xor, Bool, true, false, not,
  ◌||◌, Option, none, some, ltb, leb, ◌==◌, if◌then◌else◌,
}
use oad_parser.Common.{Result, ok, err, value_error, ◌>>=◌}
use oad_parser.Common.Int.{ℤ, pos, negsuc}
use oad_parser.Cd2.Spec.{
  cd2_data_mask, cd2_wire_word_limit, client_word_max, parity_bit_mask, cd2_idle_word,
  legacy_client_data_shift_with_parity, legacy_client_data_shift_without_parity,
  spec_client_data_shift_with_parity, ParityMode, odd, even, other, Cd2LinkConfig,
}

pub record Cd2Word : Type 0 where
  pub raw : ℕ
  pub index : ℕ
  pub data_bits : ℕ
  pub parity_bit : Option ℕ
  pub parity_valid : Option Bool
  pub is_idle : Bool
  pub bit_offset : Option ℕ
  pub byte_offset : Option ℕ

unfoldable pub normalize_13_bit_word : ℤ → Result ℕ
normalize_13_bit_word (negsuc n) = err (value_error "CD2 wire word must fit in 13 bits")
normalize_13_bit_word (pos word) =
    if leb cd2_wire_word_limit word
    then err (value_error "CD2 wire word must fit in 13 bits")
    else ok word

unfoldable pub is_idle_word : ℤ → Result Bool
unfolding normalize_13_bit_word
is_idle_word word = do raw ← normalize_13_bit_word word; ok (raw == cd2_idle_word)

-- The source returns nothing; here the word comes back as a natural number.
unfoldable pub validate_client_word : ℤ → Result ℕ
validate_client_word (negsuc n) = err (value_error "CD2 client word must fit in 16 bits")
validate_client_word (pos word) =
    if ltb client_word_max word
    then err (value_error "CD2 client word must fit in 16 bits")
    else ok word

unfoldable pub extract_12_data_bits_from_client_word : ℤ → Bool → Result ℕ
unfolding validate_client_word
extract_12_data_bits_from_client_word word parity_present = do
  w ← validate_client_word word
  if parity_present
      then ok (bit_and (w / 2 ^ legacy_client_data_shift_with_parity) cd2_data_mask)
      else ok (bit_and (w / 2 ^ legacy_client_data_shift_without_parity) cd2_data_mask)

unfoldable pub extract_spec_data_bits_from_client_word : ℤ → Bool → Result ℕ
unfolding validate_client_word
extract_spec_data_bits_from_client_word word parity_present = do
  w ← validate_client_word word
  if parity_present
      then ok (bit_and (w / 2 ^ spec_client_data_shift_with_parity) cd2_data_mask)
      else ok (bit_and w cd2_data_mask)

unfoldable pub extract_spec_parity_bit_from_client_word : ℤ → Result ℕ
unfolding validate_client_word
extract_spec_parity_bit_from_client_word word = do
  w ← validate_client_word word
  ok (bit_and w parity_bit_mask)

-- `while value: value &= value - 1; count += 1`, with a bound on the rounds.
unfoldable pub count_loop : ℕ → ℕ → ℕ → ℕ
count_loop zero value count = count
count_loop (suc fuel) value count = elim (value == 0) [
  | true ↦ count
  | false ↦ count_loop fuel (bit_and value (value - 1)) (count + 1)
]

-- Each round lowers the value, so the value bounds the rounds.
unfoldable pub count_set_bits : ℤ → Result ℕ
unfolding count_loop
count_set_bits (negsuc n) = err (value_error "value must be non-negative")
count_set_bits (pos value) = ok (count_loop value value 0)

unfoldable pub parity_of_ones : ℕ → ParityMode → Result ℕ
parity_of_ones ones odd = ok (if ones % 2 == 0 then 1 else 0)
parity_of_ones ones even = ok (if ones % 2 == 0 then 0 else 1)
parity_of_ones ones (other _) = err (value_error "parity mode must be 'odd' or 'even'")

unfoldable pub calculate_parity_bit : ℤ → ParityMode → Result ℕ
unfolding parity_of_ones count_set_bits
calculate_parity_bit (negsuc n) mode = err (value_error "CD2 data bits must fit in 12 bits")
calculate_parity_bit (pos data_bits) mode =
    if ltb cd2_data_mask data_bits
    then err (value_error "CD2 data bits must fit in 12 bits")
    else do ones ← count_set_bits (pos data_bits); parity_of_ones ones mode

unfoldable pub parity_is_valid : ℤ → ℤ → ParityMode → Result Bool
unfolding calculate_parity_bit
parity_is_valid data_bits (negsuc n) mode = err (value_error "parity bit must be 0 or 1")
parity_is_valid data_bits (pos parity_bit) mode =
    if parity_bit == 0 || parity_bit == 1
    then (do expected ← calculate_parity_bit data_bits mode; ok (parity_bit == expected))
    else err (value_error "parity bit must be 0 or 1")

-- `None if idle else parity_is_valid(...)`
unfoldable pub word_parity_valid : Bool → ℕ → ℕ → ParityMode → Result (Option Bool)
unfolding parity_is_valid
word_parity_valid true data_bits parity_bit mode = ok none
word_parity_valid false data_bits parity_bit mode = do
  valid ← parity_is_valid (pos data_bits) (pos parity_bit) mode
  ok (some valid)

unfoldable pub decode_wire_word : ℤ → ℕ → Cd2LinkConfig → Result Cd2Word
unfolding normalize_13_bit_word word_parity_valid
decode_wire_word word index config = do
  wire ← normalize_13_bit_word word
  let raw = if config.data_inversion then bit_xor wire (cd2_wire_word_limit - 1) else wire
  let idle = raw == cd2_idle_word
  let data_bits = bit_and (raw / 2 ^ spec_client_data_shift_with_parity) cd2_data_mask
  let parity_bit = bit_and raw parity_bit_mask
  valid ← word_parity_valid idle data_bits parity_bit config.parity_mode
  ok (record {
    raw = raw;
    index = index;
    data_bits = data_bits;
    parity_bit = some parity_bit;
    parity_valid = valid;
    is_idle = idle;
    bit_offset = none;
    byte_offset = none;
  })

-- The parity bit and its check, both absent where the ICP manages parity.
unfoldable pub client_parity : Bool → ℕ → ℕ → ParityMode → Result (Option ℕ × Option Bool)
unfolding extract_spec_parity_bit_from_client_word parity_is_valid
client_parity false value data_bits mode = ok (none, none)
client_parity true value data_bits mode = do
  parity_bit ← extract_spec_parity_bit_from_client_word (pos value)
  valid ← parity_is_valid (pos data_bits) (pos parity_bit) mode
  ok (some parity_bit, some valid)

abbrev pub or_zero : Option ℕ → ℕ
or_zero none = 0
or_zero (some n) = n

unfoldable pub decode_client_data_area_word : ℤ → ℕ → Cd2LinkConfig → Result Cd2Word
unfolding validate_client_word extract_spec_data_bits_from_client_word client_parity is_idle_word
decode_client_data_area_word word index config = do
  w ← validate_client_word word
  let value = if config.data_inversion then bit_xor w client_word_max else w
  let parity_present = not config.add_remove_parity
  data_bits ← extract_spec_data_bits_from_client_word (pos value) parity_present
  (parity_bit, valid) ← client_parity parity_present value data_bits config.parity_mode
  let shifted = bit_and data_bits cd2_data_mask * 2 ^ spec_client_data_shift_with_parity
  let raw = bit_or shifted (or_zero parity_bit)
  idle ← is_idle_word (pos raw)
  ok (record {
    raw = raw;
    index = index;
    data_bits = data_bits;
    parity_bit = parity_bit;
    parity_valid = valid;
    is_idle = idle;
    bit_offset = none;
    byte_offset = none;
  })
