-- ===== src/Cd2/Spec.antt =====
-- The constants of oad_parser/protocols/cd2_spec.py and the link options of
-- oad_parser/parsers/cd2.py. A parity mode is a text in the source; `other` is any text that is
-- neither "odd" nor "even". A receive frame size below zero is refused like zero, so it is a ℕ.
use oad_parser.Common.{ℕ, ◌-◌, ◌^◌, String, Bool, true, false, ltb}
use oad_parser.Common.{Result, ok, value_error, raise_if, ◌>>◌}

abbrev pub cd2_word_bits : ℕ
cd2_word_bits = 13

abbrev pub cd2_data_bits : ℕ
cd2_data_bits = 12

abbrev pub client_word_bits : ℕ
client_word_bits = 16

abbrev pub bits_per_byte : ℕ
bits_per_byte = 8

abbrev pub cd2_data_mask : ℕ
cd2_data_mask = 2 ^ cd2_data_bits - 1

abbrev pub cd2_wire_word_limit : ℕ
cd2_wire_word_limit = 2 ^ cd2_word_bits

abbrev pub client_word_max : ℕ
client_word_max = 2 ^ client_word_bits - 1

abbrev pub parity_bit_mask : ℕ
parity_bit_mask = 0x1

abbrev pub cd2_idle_word : ℕ
cd2_idle_word = 0b0001111111111

abbrev pub cd2_extended_error_parity : ℕ
cd2_extended_error_parity = 2 ^ 0

abbrev pub cd2_extended_error_eom : ℕ
cd2_extended_error_eom = 2 ^ 5

abbrev pub cd2_default_receive_frame_size_words : ℕ
cd2_default_receive_frame_size_words = 32

abbrev pub cd2_min_receive_frame_size_words : ℕ
cd2_min_receive_frame_size_words = 1

abbrev pub legacy_client_data_shift_with_parity : ℕ
legacy_client_data_shift_with_parity = 3

abbrev pub legacy_client_data_shift_without_parity : ℕ
legacy_client_data_shift_without_parity = 4

abbrev pub spec_client_data_shift_with_parity : ℕ
spec_client_data_shift_with_parity = 1

pub data ParityMode : Type 0 where
  odd even : ParityMode
  other : String → ParityMode

abbrev pub is_unknown : ParityMode → Bool
is_unknown odd = false
is_unknown even = false
is_unknown (other _) = true

pub record Cd2LinkConfig : Type 0 where
  pub add_remove_parity : Bool
  pub receive_frame_size_words : ℕ
  pub error_screening : Bool
  pub data_inversion : Bool
  pub parity_mode : ParityMode

abbrev pub default_link_config : Cd2LinkConfig
default_link_config = record {
  add_remove_parity = false;
  receive_frame_size_words = cd2_default_receive_frame_size_words;
  error_screening = false;
  data_inversion = false;
  parity_mode = odd;
}

-- `__post_init__`: the construction of a configuration raises, or gives it back.
unfoldable pub validate_link_config : Cd2LinkConfig → Result Cd2LinkConfig
validate_link_config c = do
  raise_if (ltb c.receive_frame_size_words cd2_min_receive_frame_size_words)
      (value_error "receive_frame_size_words must be >= 1")
  raise_if (is_unknown c.parity_mode) (value_error "parity_mode must be 'odd' or 'even'")
  ok c
