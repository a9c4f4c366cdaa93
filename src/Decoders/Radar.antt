-- ===== src/Decoders/Radar.antt =====
-- The decoders of oad_parser/decoders/cd2_radar.py. A dictionary of the source is a record: a key
-- that may be absent is optional, and the keys with fixed texts are left out.
use oad_parser.Common.{
  ℕ, ◌+◌, ◌-◌, ◌*◌, ◌/◌, ◌^◌, bit_and, not, Option, none, some, List, [], ◌∷◌, ◌++◌, map, ◌==◌, ltb,
  leb, length, get_elem?, replicate, if◌then◌else◌,
}
use oad_parser.Common.Int.{ℤ, pos, sub_ℕ}
use oad_parser.Common.Text.{Text, digits_of}
use oad_parser.Cd2.Frame.{Cd2Frame, FrameError, data_words}
use oad_parser.Ecg.Layout.{
  range_word_index, range_word_mask, acp_word_index, word_data_mask, mode_3_word_index,
  altitude_word_index, altitude_word_mask, altitude_sign_mask, altitude_feet_scale,
}
use oad_parser.Ecg.Plot.{octal_as_decimal}

abbrev pub cd2_word_hex_width : ℕ
cd2_word_hex_width = 3

-- `ALTITUDE_WORD_MASK` of the decoders is the mask of all twelve bits.
abbrev pub decoder_altitude_word_mask : ℕ
decoder_altitude_word_mask = 0x0fff

unfoldable pub hex_codes : List ℕ → Text
hex_codes [] = []
hex_codes (d ∷ ds) = (if ltb d 10 then 48 + d else 87 + d) ∷ hex_codes ds

-- `f"0x{word:0{CD2_WORD_HEX_WIDTH}x}"`
unfoldable pub format_data_word_hex : ℕ → Text
format_data_word_hex word =
    let digits = hex_codes (digits_of 16 word word) in
    48 ∷ 120 ∷ replicate (cd2_word_hex_width - length digits) 48 ++ digits

pub record Raw12 : Type 0 where
  pub word_count : ℕ
  pub words : List ℕ
  pub words_hex : List Text
  pub extended_error_status : ℕ
  pub errors : List FrameError

unfoldable pub decode_raw12_words : List ℕ → ℕ → List FrameError → Raw12
decode_raw12_words words extended_error_status errors = record {
  word_count = length words;
  words = words;
  words_hex = map format_data_word_hex words;
  extended_error_status = extended_error_status;
  errors = errors;
}

unfoldable pub decode_raw12 : Cd2Frame → Raw12
decode_raw12 frame = decode_raw12_words (data_words frame) frame.extended_error_status frame.errors

-- `input_basis`: "framed_12bit_cd2_words", or another text.
pub data InputBasis : Type 0 where
  framed_12bit_cd2_words other_basis : InputBasis

pub data Field : Type 0 where
  range_field azimuth_field mode_3_field altitude_field : Field

-- The range counts eighths of a mile, the azimuth 4096ths of a circle.
pub record BeaconCandidate : Type 0 where
  pub input_basis : InputBasis
  pub word_count : ℕ
  pub extended_error_status : ℕ
  pub errors : List FrameError
  pub words_hex : List Text
  pub range_nm : Option ℕ
  pub acp : Option ℕ
  pub azimuth_degrees : Option ℕ
  pub mode_3_code : Option ℕ
  pub altitude_feet : Option ℤ
  pub missing_fields : List Field

unfoldable pub candidate_range : InputBasis → ℕ → ℕ
candidate_range framed_12bit_cd2_words range_word = bit_and range_word word_data_mask
candidate_range other_basis range_word = bit_and range_word range_word_mask / 2 ^ 1

unfoldable pub candidate_altitude : ℕ → ℤ
candidate_altitude word =
    let altitude_word = bit_and word decoder_altitude_word_mask in
    let altitude_feet = bit_and altitude_word altitude_word_mask * altitude_feet_scale in
    if not (bit_and altitude_word altitude_sign_mask == 0)
    then sub_ℕ 0 altitude_feet
    else pos altitude_feet

-- `if len(words) > index:` and the field of the word at the index.
abbrev pub field_of {ℓ} : {A : Type ℓ} → (ℕ → A) → Option ℕ → Option A
field_of f none = none
field_of f (some word) = some (f word)

abbrev pub missing : Field → List ℕ → ℕ → List Field
missing field words index = if leb (length words) index then field ∷ [] else []

unfoldable pub decode_beacon_candidate_words :
    List ℕ → ℕ → List FrameError → InputBasis → BeaconCandidate
decode_beacon_candidate_words words extended_error_status errors input_basis = record {
  input_basis = input_basis;
  word_count = length words;
  extended_error_status = extended_error_status;
  errors = errors;
  words_hex = map format_data_word_hex words;
  range_nm = field_of (candidate_range input_basis) (get_elem? words range_word_index);
  acp = field_of (λ word. bit_and word word_data_mask) (get_elem? words acp_word_index);
  azimuth_degrees = field_of (λ word. bit_and word word_data_mask) (get_elem? words acp_word_index);
  mode_3_code =
      field_of (λ word. octal_as_decimal (bit_and word word_data_mask))
        (get_elem? words mode_3_word_index);
  altitude_feet = field_of candidate_altitude (get_elem? words altitude_word_index);
  missing_fields =
      missing range_field words range_word_index
      ++ (missing azimuth_field words acp_word_index
          ++ (missing mode_3_field words mode_3_word_index
              ++ missing altitude_field words altitude_word_index));
}

unfoldable pub decode_beacon_candidate : Cd2Frame → BeaconCandidate
decode_beacon_candidate frame =
    decode_beacon_candidate_words (data_words frame) frame.extended_error_status frame.errors
      framed_12bit_cd2_words
