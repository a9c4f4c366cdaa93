-- ===== src/Ecg/Block.antt =====
-- The message blocks of an ECG payload in oad_parser/parsers/ecg.py: the guards that its three
-- loops repeat at each offset, and the classification of a message by its first word.
use oad_parser.Common.{
  ℕ, ◌+◌, ◌/◌, ◌^◌, bit_and, Bool, false, ◌&&◌, ◌||◌, List, ◌==◌, ltb, leb, length, if◌then◌else◌,
  Result, ok, ◌>>=◌, slice, byte_at, from_bytes,
}
use oad_parser.Ecg.Layout.{
  ecg_message_block_header_bytes, bytes_per_word, first_word_bytes, beacon_message_mask,
  beacon_message_pattern, modec_valid_mask, rtqc_message_mask, search_message_mask,
  search_message_pattern, range_word_index, word_parity_error_mask, word_malfunction_mask,
}

-- `_read_uint16`
abbrev pub read_uint16 : List ℕ → ℕ → ℕ
read_uint16 payload offset = from_bytes (slice payload offset (offset + bytes_per_word))

-- What a loop over the blocks finds at an offset: the end of the payload, a header or a message
-- that runs over it, a zero length, which is skipped by one byte, or a message of some length.
pub data NextBlock : Type 0 where
  finished header_overrun payload_overrun skipped : NextBlock
  block : ℕ → NextBlock

unfoldable pub next_block : List ℕ → ℕ → NextBlock
next_block payload offset =
    let message_data_length = read_uint16 payload offset in
    if leb (length payload) offset
    then finished
    else if ltb (length payload) (offset + ecg_message_block_header_bytes)
    then header_overrun
    else if message_data_length == 0
    then skipped
    else if ltb (length payload) (offset + ecg_message_block_header_bytes + message_data_length)
    then payload_overrun
    else block message_data_length

-- The four flags of `_classify_message`.
pub record Flags : Type 0 where
  pub beacon_message : Bool
  pub search_message : Bool
  pub rtqc_message : Bool
  pub modec_valid : Bool

abbrev pub no_flags : Flags
no_flags = record {
  beacon_message = false;
  search_message = false;
  rtqc_message = false;
  modec_valid = false;
}

unfoldable pub flags_of : ℕ → ℕ → ℕ → ℕ → Flags
flags_of first_word first_byte second_byte words = record {
  beacon_message = bit_and first_byte beacon_message_mask / 2 ^ 1 == beacon_message_pattern;
  search_message =
      ltb range_word_index words
      && (bit_and first_word search_message_mask / 2 ^ 2 == search_message_pattern);
  rtqc_message = bit_and first_byte rtqc_message_mask / 2 ^ 3 == 1;
  modec_valid = bit_and second_byte modec_valid_mask / 2 ^ 6 == 1;
}

unfoldable pub classify_message : List ℕ → ℕ → ℕ → Result Flags
classify_message payload message_payload_start words =
    if words == 0 || ltb (length payload) (message_payload_start + first_word_bytes)
    then ok no_flags
    else do
      first_byte ← byte_at payload message_payload_start
      second_byte ← byte_at payload (message_payload_start + 1)
      ok (flags_of (read_uint16 payload message_payload_start) first_byte second_byte words)

pub data MessageType : Type 0 where
  beacon search rtqc no_type : MessageType

unfoldable pub message_type_of : Flags → MessageType
message_type_of f =
    if f.beacon_message
    then beacon
    else if f.search_message
    then search
    else if f.rtqc_message
    then rtqc
    else no_type

-- The values of MESSAGE_NAME_BY_CODE, and "none".
pub data MessageName : Type 0 where
  cd_2 cd_asr mar no_name : MessageName

-- `_message_name`
unfoldable pub message_name : ℕ → MessageName
message_name code =
    if code == 1 then cd_2 else if code == 3 then cd_asr else if code == 4 then mar else no_name

-- `_word_has_legacy_status_bit`
unfoldable pub word_has_legacy_status_bit : ℕ → Bool
word_has_legacy_status_bit word =
    let high_byte = bit_and (word / 2 ^ 8) 0xff in
    (bit_and high_byte word_parity_error_mask / 2 ^ 5 == 1)
    || (bit_and high_byte word_malfunction_mask / 2 ^ 4 == 1)
