-- ===== src/Ecg/Layout.antt =====
-- The layout constants of oad_parser/parsers/ecg.py and
-- oad_parser/decoders/provisional_beacon_constants.py. A scale factor is no constant here: a
-- scaled field holds the integer count that the source multiplies by the factor.
use oad_parser.Common.{ℕ}

abbrev pub ecg_min_payload_bytes : ℕ
ecg_min_payload_bytes = 18

abbrev pub ecg_length_trailer_bytes : ℕ
ecg_length_trailer_bytes = 16

abbrev pub ecg_message_block_header_bytes : ℕ
ecg_message_block_header_bytes = 16

abbrev pub bytes_per_word : ℕ
bytes_per_word = 2

abbrev pub artcc_start : ℕ
artcc_start = 4

abbrev pub artcc_end : ℕ
artcc_end = 7

abbrev pub ecg_message_offset : ℕ
ecg_message_offset = 8

abbrev pub router_timestamp_start : ℕ
router_timestamp_start = 12

abbrev pub router_timestamp_end : ℕ
router_timestamp_end = 16

abbrev pub site_id_offset_start : ℕ
site_id_offset_start = 4

abbrev pub site_id_offset_end : ℕ
site_id_offset_end = 8

abbrev pub message_code_offset : ℕ
message_code_offset = 8

abbrev pub sequence_offset : ℕ
sequence_offset = 9

abbrev pub channel_offset : ℕ
channel_offset = 10

abbrev pub channel_mask : ℕ
channel_mask = 0b11110000

abbrev pub channel_shift : ℕ
channel_shift = 4

abbrev pub radar_timestamp_offset_start : ℕ
radar_timestamp_offset_start = 12

abbrev pub radar_timestamp_offset_end : ℕ
radar_timestamp_offset_end = 16

abbrev pub first_word_bytes : ℕ
first_word_bytes = 2

abbrev pub beacon_message_mask : ℕ
beacon_message_mask = 0b00000110

abbrev pub beacon_message_pattern : ℕ
beacon_message_pattern = 3

abbrev pub modec_valid_mask : ℕ
modec_valid_mask = 0b01000000

abbrev pub rtqc_message_mask : ℕ
rtqc_message_mask = 0b00001000

abbrev pub search_message_mask : ℕ
search_message_mask = 0b0000011111111100

abbrev pub search_message_pattern : ℕ
search_message_pattern = 108

abbrev pub word_parity_error_mask : ℕ
word_parity_error_mask = 0b00100000

abbrev pub word_malfunction_mask : ℕ
word_malfunction_mask = 0b00010000

abbrev pub range_word_index : ℕ
range_word_index = 1

abbrev pub range_word_mask : ℕ
range_word_mask = 0x0ffe

abbrev pub acp_word_index : ℕ
acp_word_index = 2

abbrev pub word_data_mask : ℕ
word_data_mask = 0x0fff

abbrev pub mode_3_word_index : ℕ
mode_3_word_index = 4

abbrev pub altitude_word_index : ℕ
altitude_word_index = 6

abbrev pub altitude_word_mask : ℕ
altitude_word_mask = 0x07ff

abbrev pub altitude_sign_mask : ℕ
altitude_sign_mask = 0x0800

abbrev pub altitude_feet_scale : ℕ
altitude_feet_scale = 100
