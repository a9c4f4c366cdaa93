-- ===== src/Ecg/Checked.antt =====
-- `extract_ecg_messages_with_errors` of oad_parser/parsers/ecg.py. An issue stands for its code,
-- text and parser stage. The metadata of a packet are the fields of its UDP frame, if it has one,
-- and what a rejected outer message adds.
use oad_parser.Common.{
  ℕ, zero, suc, ◌+◌, ◌-◌, Bool, true, false, not, ◌&&◌, ◌||◌, Option, none, some, List, [], ◌∷◌,
  ◌==◌, ltb, leb, length, if◌then◌else◌, Result, ok, ◌>>=◌, slice, byte_at, err, unfinished_loop,
}
use oad_parser.Common.Int.{ℤ, pos, negsuc, sub_ℕ}
use oad_parser.Common.Text.{Text}
use oad_parser.Udp.Frame.{UdpFrame, parse_ipv4_udp_frame}
use oad_parser.Ecg.Layout.{
  ecg_min_payload_bytes, ecg_length_trailer_bytes, ecg_message_block_header_bytes, bytes_per_word,
  artcc_start, artcc_end, ecg_message_offset, router_timestamp_start, router_timestamp_end,
}
use oad_parser.Ecg.Block.{
  read_uint16, finished, header_overrun, payload_overrun, skipped, block, next_block, no_name,
  MessageName,
}
use oad_parser.Ecg.Envelope.{EcgMessageEnvelope, artcc_of, uint32_at, extract_ecg_messages}

pub data Issue : Type 0 where
  short_payload outer_not_surveillance header_truncated block_truncated : Issue
  length_mismatch : ℕ → ℤ → Issue
  unknown_message_code : ℕ → Issue

-- `metadata.update({...})` for a payload that is no surveillance message.
pub record RejectedOuter : Type 0 where
  pub artcc : Text
  pub ecg_message : ℕ
  pub router_timestamp : ℕ

pub record PacketMetadata : Type 0 where
  pub udp_frame : Option UdpFrame
  pub rejected : Option RejectedOuter

pub record EcgEnvelopeParseResult : Type 0 where
  pub envelopes : List EcgMessageEnvelope
  pub error : Option Issue
  pub warnings : List Issue
  pub payload : Option (List ℕ)
  pub packet_metadata : PacketMetadata
  pub frame_length_claimed : Option ℕ
  pub frame_length_expected : Option ℤ
  pub frame_length_valid : Option Bool

unfoldable pub is_artcc_byte : ℕ → Bool
is_artcc_byte value =
    (value == 0x20) || (leb 0x30 value && leb value 0x39) || (leb 0x41 value && leb value 0x5a)

unfoldable pub all_artcc : List ℕ → Bool
all_artcc [] = true
all_artcc (b ∷ bs) = is_artcc_byte b && all_artcc bs

unfoldable pub looks_like_ecg_candidate_payload : List ℕ → Result Bool
looks_like_ecg_candidate_payload bytes =
    let artcc = slice bytes artcc_start artcc_end in
    if ltb (length bytes) (ecg_message_offset + 1)
      || ltb (read_uint16 bytes 0) 1
      || not (length artcc == artcc_end - artcc_start)
      || not (all_artcc artcc)
    then ok false
    else do message ← byte_at bytes ecg_message_offset; ok (not (message == 0))

abbrev pub no_metadata : PacketMetadata
no_metadata = record { udp_frame = none; rejected = none }

abbrev pub raw_candidate : List ℕ → Bool → Option (List ℕ) × PacketMetadata
raw_candidate frame true = (some frame, no_metadata)
raw_candidate frame false = (none, no_metadata)

abbrev pub resolved : List ℕ → Option UdpFrame → Result (Option (List ℕ) × PacketMetadata)
resolved frame (some u) = ok (some u.payload, record { udp_frame = some u; rejected = none })
resolved frame none = do
  candidate ← looks_like_ecg_candidate_payload frame
  ok (raw_candidate frame candidate)

-- `_resolve_ecg_payload_and_metadata`
unfoldable pub resolve_payload : List ℕ → Bool → Result (Option (List ℕ) × PacketMetadata)
resolve_payload frame skip_headers =
    if skip_headers
    then (do udp ← parse_ipv4_udp_frame frame; resolved frame udp)
    else ok (some frame, no_metadata)

-- `_validate_ecg_message_blocks`, its loop bounded by the payload's length.
unfoldable pub validate_loop : List ℕ → ℕ → ℕ → Result (Option Issue)
validate_loop payload zero offset = elim (next_block payload offset) [
  | finished ↦ ok none
  | _ ↦ err unfinished_loop
]
validate_loop payload (suc fuel) offset = elim (next_block payload offset) [
  | finished ↦ ok none
  | header_overrun ↦ ok (some header_truncated)
  | payload_overrun ↦ ok (some block_truncated)
  | skipped ↦ validate_loop payload fuel (offset + 1)
  | block n ↦ validate_loop payload fuel (offset + ecg_message_block_header_bytes + n)
]

unfoldable pub validate_ecg_message_blocks : List ℕ → Result (Option Issue)
validate_ecg_message_blocks payload =
    validate_loop payload (length payload) ecg_message_block_header_bytes

abbrev pub is_no_name : MessageName → Bool
is_no_name no_name = true
is_no_name _ = false

unfoldable pub warnings_for : List EcgMessageEnvelope → List Issue
warnings_for [] = []
warnings_for (e ∷ es) =
    let rest = warnings_for es in
    if is_no_name e.message_name then unknown_message_code e.message_code ∷ rest else rest

abbrev pub equals_ℤ : ℕ → ℤ → Bool
equals_ℤ a (pos b) = a == b
equals_ℤ a (negsuc b) = false

-- `claimed == expected if claimed is not None and expected >= 0 else False`
abbrev pub is_length_valid : Option ℕ → ℤ → Bool
is_length_valid none expected = false
is_length_valid (some claimed) expected = equals_ℤ claimed expected

-- The lengths that every result for a candidate reports.
unfoldable pub candidate_result :
    List ℕ
    → PacketMetadata
    → Option Issue
    → List EcgMessageEnvelope
    → List Issue
    → EcgEnvelopeParseResult
candidate_result payload metadata error envelopes warnings =
    let expected = sub_ℕ (length payload) ecg_length_trailer_bytes in
    let claimed =
      if leb bytes_per_word (length payload) then some (read_uint16 payload 0) else none in
    record {
      envelopes = envelopes;
      error = error;
      warnings = warnings;
      payload = some payload;
      packet_metadata = metadata;
      frame_length_claimed = claimed;
      frame_length_expected = some expected;
      frame_length_valid = some (is_length_valid claimed expected);
    }

-- A payload that is missing or does not look like ECG gives a result with neither.
abbrev pub plain_result : Option (List ℕ) → PacketMetadata → EcgEnvelopeParseResult
plain_result payload metadata = record {
  envelopes = [];
  error = none;
  warnings = [];
  payload = payload;
  packet_metadata = metadata;
  frame_length_claimed = none;
  frame_length_expected = none;
  frame_length_valid = none;
}

abbrev pub rejected_outer : List ℕ → ℕ → PacketMetadata → PacketMetadata
rejected_outer payload message metadata = record metadata {
  rejected = some (record {
    artcc = artcc_of payload;
    ecg_message = message;
    router_timestamp = uint32_at payload router_timestamp_start router_timestamp_end;
  });
}

-- The end of the function, for a payload that passed the length checks and the outer message.
unfoldable pub checked_blocks :
    List ℕ → Bool → List ℕ → PacketMetadata → Option Issue → Result EcgEnvelopeParseResult
checked_blocks frame skip_headers payload metadata (some issue) =
    ok (candidate_result payload metadata (some issue) [] [])
checked_blocks frame skip_headers payload metadata none = do
  envelopes ← extract_ecg_messages frame skip_headers
  ok (candidate_result payload metadata none envelopes (warnings_for envelopes))

-- The checks of a candidate, in order: minimum length, length field, outer message, blocks.
unfoldable pub checked_candidate :
    List ℕ → Bool → List ℕ → PacketMetadata → Result EcgEnvelopeParseResult
checked_candidate frame skip_headers payload metadata =
    let claimed = read_uint16 payload 0 in
    let expected = sub_ℕ (length payload) ecg_length_trailer_bytes in
    let mismatch = length_mismatch claimed expected in
    if ltb (length payload) ecg_min_payload_bytes
    then ok (candidate_result payload metadata (some short_payload) [] [])
    else if not (equals_ℤ claimed expected)
    then ok (candidate_result payload metadata (some mismatch) [] [])
    else do
      message ← byte_at payload ecg_message_offset
      if not (message == 1)
          then ok (
              candidate_result payload (rejected_outer payload message metadata)
                (some outer_not_surveillance) [] [])
          else do
            issue ← validate_ecg_message_blocks payload
            checked_blocks frame skip_headers payload metadata issue

abbrev pub checked_payload :
    List ℕ → Bool → Option (List ℕ) × PacketMetadata → Result EcgEnvelopeParseResult
checked_payload frame skip_headers (none, metadata) = ok (plain_result none metadata)
checked_payload frame skip_headers (some payload, metadata) = do
  candidate ← looks_like_ecg_candidate_payload payload
  if candidate
      then checked_candidate frame skip_headers payload metadata
      else ok (plain_result (some payload) metadata)

unfoldable pub extract_ecg_messages_with_errors : List ℕ → Bool → Result EcgEnvelopeParseResult
extract_ecg_messages_with_errors frame skip_headers = do
  found ← resolve_payload frame skip_headers
  checked_payload frame skip_headers found
