-- ===== src/Ecg/Envelope.antt =====
-- `extract_ecg_messages` of oad_parser/parsers/ecg.py. A timestamp is the integer that the source
-- multiplies by its scale.
use oad_parser.Common.{
  ℕ, zero, suc, ◌+◌, ◌-◌, ◌*◌, ◌/◌, ◌^◌, bit_and, Bool, not, ◌&&◌, Option, none, some, List, [],
  ◌∷◌, ◌==◌, ltb, leb, length, if◌then◌else◌, Result, ok, ◌>>=◌, slice, byte_at, from_bytes, err,
  unfinished_loop,
}
use oad_parser.Common.Text.{Text}
use oad_parser.Udp.Frame.{UdpFrame, parse_ipv4_udp_frame}
use oad_parser.Ecg.Layout.{
  ecg_min_payload_bytes, ecg_length_trailer_bytes, ecg_message_block_header_bytes, bytes_per_word,
  artcc_start, artcc_end, ecg_message_offset, router_timestamp_start, router_timestamp_end,
  site_id_offset_start, site_id_offset_end, message_code_offset, sequence_offset, channel_offset,
  channel_mask, channel_shift, radar_timestamp_offset_start, radar_timestamp_offset_end,
}
use oad_parser.Ecg.Decode.{decode_text, strip_trailing_null}
use oad_parser.Ecg.Block.{
  read_uint16, finished, header_overrun, payload_overrun, skipped, block, next_block, Flags,
  classify_message, MessageType, message_type_of, MessageName, message_name,
}

-- The addresses and ports of the UDP frame, where there is one.
pub record Endpoints : Type 0 where
  pub source_ip : Option Text
  pub source_port : Option ℕ
  pub destination_ip : Option Text
  pub destination_port : Option ℕ

abbrev pub no_endpoints : Endpoints
no_endpoints = record {
  source_ip = none;
  source_port = none;
  destination_ip = none;
  destination_port = none;
}

abbrev pub endpoints_of : UdpFrame → Endpoints
endpoints_of u = record {
  source_ip = some u.source_ip;
  source_port = some u.source_port;
  destination_ip = some u.destination_ip;
  destination_port = some u.destination_port;
}

pub record EcgMessageEnvelope : Type 0 where
  pub artcc : Text
  pub site_id : Text
  pub ecg_message : ℕ
  pub message_code : ℕ
  pub message_name : MessageName
  pub sequence : ℕ
  pub channel : ℕ
  pub router_timestamp : ℕ
  pub radar_timestamp : ℕ
  pub message_data_length : ℕ
  pub message_payload : List ℕ
  pub data_words : List ℕ
  pub message_type : MessageType
  pub flags : Flags
  pub channel_raw_byte : ℕ
  pub endpoints : Endpoints

unfoldable pub looks_like_ecg_payload : List ℕ → Bool
looks_like_ecg_payload bytes =
    leb ecg_min_payload_bytes (length bytes)
    && (from_bytes (slice bytes 0 bytes_per_word) == length bytes - ecg_length_trailer_bytes)

abbrev pub udp_or_raw : List ℕ → Option UdpFrame → Option (List ℕ × Endpoints)
udp_or_raw frame (some u) = some (u.payload, endpoints_of u)
udp_or_raw frame none = if looks_like_ecg_payload frame then some (frame, no_endpoints) else none

-- The payload that a frame carries, or nothing where the caller returns an empty list.
unfoldable pub find_payload : List ℕ → Bool → Result (Option (List ℕ × Endpoints))
find_payload frame skip_headers =
    if skip_headers
    then (do udp ← parse_ipv4_udp_frame frame; ok (udp_or_raw frame udp))
    else ok (some (frame, no_endpoints))

-- `tuple(int.from_bytes(message_payload[2 * index : 2 * index + 2]) for index in range(words) ...)`
unfoldable pub data_words_from : List ℕ → ℕ → ℕ → List ℕ
data_words_from message_payload zero index = []
data_words_from message_payload (suc left) index =
    let rest = data_words_from message_payload left (index + 1) in
    if leb (index * bytes_per_word + bytes_per_word) (length message_payload)
    then read_uint16 message_payload (index * bytes_per_word) ∷ rest
    else rest

-- What every envelope of a payload shares.
pub record Outer : Type 0 where
  pub payload : List ℕ
  pub artcc : Text
  pub ecg_message : ℕ
  pub router_timestamp : ℕ
  pub endpoints : Endpoints

abbrev pub uint32_at : List ℕ → ℕ → ℕ → ℕ
uint32_at payload start end = from_bytes (slice payload start end)

abbrev pub artcc_of : List ℕ → Text
artcc_of payload = decode_text (slice payload artcc_start artcc_end)

abbrev pub site_id_at : List ℕ → ℕ → Text
site_id_at payload offset =
    strip_trailing_null
      (decode_text (slice payload (offset + site_id_offset_start) (offset + site_id_offset_end)))

abbrev pub channel_of : ℕ → ℕ
channel_of byte = bit_and byte channel_mask / 2 ^ channel_shift

abbrev pub radar_timestamp_at : List ℕ → ℕ → ℕ
radar_timestamp_at payload offset =
    uint32_at payload (offset + radar_timestamp_offset_start) (offset + radar_timestamp_offset_end)

-- The envelope of the block at `offset` with `message_data_length` bytes of message.
unfoldable pub envelope_at : Outer → ℕ → ℕ → Result EcgMessageEnvelope
envelope_at outer offset message_data_length = do
  let start = offset + ecg_message_block_header_bytes
  let message_payload = slice outer.payload start (start + message_data_length)
  let words = message_data_length / bytes_per_word
  flags ← classify_message outer.payload start words
  message_code ← byte_at outer.payload (offset + message_code_offset)
  sequence ← byte_at outer.payload (offset + sequence_offset)
  channel_raw_byte ← byte_at outer.payload (offset + channel_offset)
  ok (record {
    artcc = outer.artcc;
    site_id = site_id_at outer.payload offset;
    ecg_message = outer.ecg_message;
    message_code = message_code;
    message_name = message_name message_code;
    sequence = sequence;
    channel = channel_of channel_raw_byte;
    router_timestamp = outer.router_timestamp;
    radar_timestamp = radar_timestamp_at outer.payload offset;
    message_data_length = message_data_length;
    message_payload = message_payload;
    data_words = data_words_from message_payload words 0;
    message_type = message_type_of flags;
    flags = flags;
    channel_raw_byte = channel_raw_byte;
    endpoints = outer.endpoints;
  })

-- `while offset < len(payload):`; the offset grows each round, so the payload's length bounds them.
unfoldable pub extract_loop : Outer → ℕ → ℕ → Result (List EcgMessageEnvelope)
extract_loop outer zero offset = elim (next_block outer.payload offset) [
  | finished ↦ ok []
  | _ ↦ err unfinished_loop
]
extract_loop outer (suc fuel) offset = elim (next_block outer.payload offset) [
  | finished ↦ ok []
  | header_overrun ↦ ok []
  | payload_overrun ↦ ok []
  | skipped ↦ extract_loop outer fuel (offset + 1)
  | block n ↦ do
    envelope ← envelope_at outer offset n
    rest ← extract_loop outer fuel (offset + ecg_message_block_header_bytes + n)
    ok (envelope ∷ rest)
]

-- The two length guards in front of the loops.
unfoldable pub has_valid_length : List ℕ → Bool
has_valid_length payload =
    not (ltb (length payload) ecg_min_payload_bytes)
    && (read_uint16 payload 0 == length payload - ecg_length_trailer_bytes)

unfoldable pub outer_of : List ℕ → Endpoints → Result Outer
outer_of payload endpoints = do
  ecg_message ← byte_at payload ecg_message_offset
  ok (record {
    payload = payload;
    artcc = artcc_of payload;
    ecg_message = ecg_message;
    router_timestamp = uint32_at payload router_timestamp_start router_timestamp_end;
    endpoints = endpoints;
  })

unfoldable pub extract_from : List ℕ → Endpoints → Result (List EcgMessageEnvelope)
extract_from payload endpoints =
    if has_valid_length payload
    then (do
      outer ← outer_of payload endpoints
      extract_loop outer (length payload) ecg_message_block_header_bytes)
    else ok []

abbrev pub extract_found : Option (List ℕ × Endpoints) → Result (List EcgMessageEnvelope)
extract_found none = ok []
extract_found (some (payload, endpoints)) = extract_from payload endpoints

unfoldable pub extract_ecg_messages : List ℕ → Bool → Result (List EcgMessageEnvelope)
extract_ecg_messages frame skip_headers = do
  found ← find_payload frame skip_headers
  extract_found found
