-- ===== src/Udp/Frame.antt =====
-- `parse_ipv4_udp_frame` of oad_parser/ingest/ethernet.py, in the two stages of its guards: the
-- Ethernet and IPv4 headers, then the UDP header. An index out of range raises.
use oad_parser.Common.{
  ℕ, ◌+◌, ◌*◌, ◌/◌, ◌^◌, bit_and, Bool, not, ◌||◌, Option, none, some, List, [], ◌∷◌, ◌==◌, ltb,
  length, if◌then◌else◌, Result, ok, ◌>>=◌, slice, byte_at, from_bytes, map,
}
use oad_parser.Common.Text.{Text, decimal, join}
use oad_parser.Udp.Layout.{
  ethernet_header_bytes, ethertype_offset_start, ethertype_offset_end, ethertype_ipv4,
  ip_version_shift, ip_ihl_mask, ip_ihl_word_bytes, ipv4_version, min_ipv4_header_bytes,
  ipv4_total_length_offset_start, ipv4_total_length_offset_end, ip_protocol_offset, ip_protocol_udp,
  ip_source_offset_start, ip_source_offset_end, ip_destination_offset_start,
  ip_destination_offset_end, udp_header_bytes, udp_destination_port_offset_start,
  udp_destination_port_offset_end, udp_length_offset_start, udp_length_offset_end,
  udp_checksum_offset_start, udp_checksum_offset_end, min_ipv4_udp_frame_bytes,
}
use oad_parser.Udp.Checksum.{validate_ipv4_udp_checksum}

pub record UdpFrame : Type 0 where
  pub payload : List ℕ
  pub source_ip : Text
  pub destination_ip : Text
  pub source_port : ℕ
  pub destination_port : ℕ
  pub total_length : ℕ
  pub checksum : ℕ
  pub network_bytes : ℕ
  pub udp_length : ℕ
  pub udp_payload_length : ℕ
  pub checksum_valid : Option Bool

-- `".".join(str(part) for part in value)`
unfoldable pub format_ipv4 : List ℕ → Text
format_ipv4 value = join (b'.' ∷ []) (map decimal value)

-- data[start + lo : start + hi] as a number
abbrev pub field_at : List ℕ → ℕ → ℕ → ℕ → ℕ
field_at frame start lo hi = from_bytes (slice frame (start + lo) (start + hi))

abbrev pub ip_start : ℕ
ip_start = ethernet_header_bytes

-- The guards on the first header byte and the lengths that it and the total length give.
unfoldable pub lengths_refused : List ℕ → ℕ → ℕ → Bool
lengths_refused frame first ip_total_length =
    let version = first / 2 ^ ip_version_shift in
    let header_length = bit_and first ip_ihl_mask * ip_ihl_word_bytes in
    not (version == ipv4_version)
    || ltb header_length min_ipv4_header_bytes
    || ltb (length frame) (ip_start + header_length)
    || ltb ip_total_length header_length
    || ltb (length frame) (ip_start + ip_total_length)

-- The guards up to the protocol test: the header length and the total length of an IPv4 packet
-- that carries UDP.
unfoldable pub ipv4_fields : List ℕ → Result (Option (ℕ × ℕ))
ipv4_fields frame = do
  first ← byte_at frame ip_start
  let total = field_at frame ip_start ipv4_total_length_offset_start ipv4_total_length_offset_end
  let after = do
    protocol ← byte_at frame (ip_start + ip_protocol_offset)
    if not (protocol == ip_protocol_udp)
        then ok none
        else ok (some (bit_and first ip_ihl_mask * ip_ihl_word_bytes, total))
  if lengths_refused frame first total then ok none else after

unfoldable pub ipv4_header : List ℕ → Result (Option (ℕ × ℕ))
ipv4_header frame =
    if ltb (length frame) min_ipv4_udp_frame_bytes
      || not (field_at frame 0 ethertype_offset_start ethertype_offset_end == ethertype_ipv4)
    then ok none
    else ipv4_fields frame

-- The frame that the last statement builds.
unfoldable pub udp_frame : List ℕ → ℕ → ℕ → ℕ → Result UdpFrame
udp_frame frame udp_start ip_total_length udp_length =
    let source_ip =
      slice frame (ip_start + ip_source_offset_start) (ip_start + ip_source_offset_end) in
    let destination_ip =
      slice frame (ip_start + ip_destination_offset_start) (ip_start + ip_destination_offset_end) in
    let udp_end = udp_start + udp_length in
    let payload = slice frame (udp_start + udp_header_bytes) udp_end in
    let checksum = field_at frame udp_start udp_checksum_offset_start udp_checksum_offset_end in
    let segment = slice frame udp_start udp_end in
    do
      checksum_valid ← validate_ipv4_udp_checksum source_ip destination_ip segment checksum
      ok (record {
        payload = payload;
        source_ip = format_ipv4 source_ip;
        destination_ip = format_ipv4 destination_ip;
        source_port = field_at frame udp_start 0 2;
        destination_port =
            field_at frame udp_start udp_destination_port_offset_start
              udp_destination_port_offset_end;
        total_length = ip_total_length;
        checksum = checksum;
        network_bytes = length frame;
        udp_length = udp_length;
        udp_payload_length = length payload;
        checksum_valid = checksum_valid;
      })

-- The guards on the UDP header.
unfoldable pub udp_stage : List ℕ → ℕ → ℕ → Result (Option UdpFrame)
udp_stage frame header_length ip_total_length =
    let ip_packet_end = ip_start + ip_total_length in
    let udp_start = ip_start + header_length in
    let udp_length = field_at frame udp_start udp_length_offset_start udp_length_offset_end in
    if ltb ip_packet_end (udp_start + udp_header_bytes)
    then ok none
    else if ltb udp_length udp_header_bytes
    then ok none
    else if ltb ip_packet_end (udp_start + udp_length)
    then ok none
    else do accepted ← udp_frame frame udp_start ip_total_length udp_length; ok (some accepted)

abbrev pub then_udp : List ℕ → Option (ℕ × ℕ) → Result (Option UdpFrame)
then_udp frame none = ok none
then_udp frame (some (header_length, total)) = udp_stage frame header_length total

unfoldable pub parse_ipv4_udp_frame : List ℕ → Result (Option UdpFrame)
parse_ipv4_udp_frame frame = do header ← ipv4_header frame; then_udp frame header
