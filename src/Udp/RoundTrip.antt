-- ===== src/Udp/RoundTrip.antt =====
-- A datagram laid out by the standards is taken apart by oad_parser/ingest/ethernet.py into the
-- fields that it was made of.
use oad_parser.Common.{
  ◌>>=◌, ℕ, ◌+◌, ◌-◌, ◌*◌, ◌≡◌, refl, sym, ap, ap₂, ◌∙◌, arith, false, some, List, [], ◌∷◌, ◌++◌,
  length, length-append, take, drop, ok, byte_at, slice, from_bytes, drop_past, byte_at_past,
  take_front, bit_and,
}
use oad_parser.Common.Bits.{bit_and_mask}
use oad_parser.Udp.Frame.{
  field_at, lengths_refused, ipv4_fields, ipv4_header, udp_frame, udp_stage, parse_ipv4_udp_frame,
}
use oad_parser.Udp.Datagram.{
  Datagram, segment_length, packet_length, IsLaidOut, udp_segment, from_udp, from_source,
  from_middle, from_type, ethernet_frame, reported, udp_frame_parts, udp_stage_accepts,
}

module _ (d : Datagram) (l : IsLaidOut d) where
  abbrev frame : List ℕ
  frame = ethernet_frame d

  abbrev udp_start : ℕ
  udp_start = 34 + d.words * 4

  to_type : (k : ℕ) → drop (12 + k) frame ≡ drop k (from_type d)
  to_type k = drop_past d.macs (from_type d) 12 k l.macs

  to_source : (k : ℕ) → drop (26 + k) frame ≡ drop k (from_source d)
  to_source k =
      ap (λ (i : ℕ). drop i frame)
        (let e : 26 + k ≡ 12 + (6 + (5 + (1 + (2 + k)))) = omega arith in e)
      ∙ to_type (6 + (5 + (1 + (2 + k))))
      ∙ drop_past (take 6 (from_type d)) (from_middle d) 6 (5 + (1 + (2 + k))) refl
      ∙ drop_past d.middle (17 ∷ (d.header_checksum ++ from_source d)) 5 (1 + (2 + k)) l.middle
      ∙ drop_past (17 ∷ []) (d.header_checksum ++ from_source d) 1 (2 + k) refl
      ∙ drop_past d.header_checksum (from_source d) 2 k l.header_checksum

  to_destination :
      (k : ℕ) → drop (30 + k) frame ≡ drop k (d.destination ++ (d.options ++ from_udp d))
  to_destination k =
      ap (λ (i : ℕ). drop i frame) (let e : 30 + k ≡ 26 + (4 + k) = omega arith in e)
      ∙ to_source (4 + k)
      ∙ drop_past d.source (d.destination ++ (d.options ++ from_udp d)) 4 k l.source

  to_udp : (k : ℕ) → drop (udp_start + k) frame ≡ drop k (from_udp d)
  to_udp k =
      ap (λ (i : ℕ). drop i frame)
        (let e : udp_start + k ≡ 30 + (4 + (d.words * 4 + k)) = omega arith in e)
      ∙ to_destination (4 + (d.words * 4 + k))
      ∙ drop_past d.destination (d.options ++ from_udp d) 4 (d.words * 4 + k) l.destination
      ∙ drop_past d.options (from_udp d) (d.words * 4) k l.options

  slice_udp : (lo hi : ℕ) → slice frame (udp_start + lo) (udp_start + hi) ≡ slice (from_udp d) lo hi
  slice_udp lo hi =
      ap (λ (n : ℕ). take n (drop (udp_start + lo) frame))
        (let e : udp_start + hi - (udp_start + lo) ≡ hi - lo = omega arith in e)
      ∙ ap (take (hi - lo)) (to_udp lo)

  source_slice : slice frame 26 30 ≡ d.source
  source_slice = ap (take 4) (to_source 0) ∙ take_front d.source _ 4 l.source

  destination_slice : slice frame 30 34 ≡ d.destination
  destination_slice = ap (take 4) (to_destination 0) ∙ take_front d.destination _ 4 l.destination

  length-frame : length frame ≡ 14 + packet_length d + length d.padding
  length-frame = omega (
    arith,
    l.macs,
    l.middle,
    l.header_checksum,
    l.source,
    l.destination,
    l.options,
    length-append d.macs (from_type d),
    length-append d.middle (17 ∷ (d.header_checksum ++ from_source d)),
    length-append d.header_checksum (from_source d),
    length-append d.source (d.destination ++ (d.options ++ from_udp d)),
    length-append d.destination (d.options ++ from_udp d),
    length-append d.options (from_udp d),
    length-append d.payload d.padding,
  )

  first_byte : byte_at frame 14 ≡ ok (0x45 + d.words)
  first_byte = byte_at_past d.macs (from_type d) 12 2 l.macs

  protocol_byte : byte_at frame 23 ≡ ok 17
  protocol_byte =
      byte_at_past d.macs (from_type d) 12 11 l.macs
      ∙ byte_at_past d.middle (17 ∷ (d.header_checksum ++ from_source d)) 5 0 l.middle

  type_field : field_at frame 0 12 14 ≡ 0x0800
  type_field = ap (λ bs. from_bytes (take 2 bs)) (to_type 0)

  total_field : field_at frame 14 2 4 ≡ packet_length d
  total_field = ap (λ bs. from_bytes (take 2 bs)) (to_type 4) ∙ omega arith

  header_size : bit_and (0x45 + d.words) 0x0f * 4 ≡ 20 + d.words * 4
  header_size = omega (arith, bit_and_mask 4 (0x45 + d.words), l.words)

  not_refused : lengths_refused frame (0x45 + d.words) (packet_length d) ≡ false
  unfolding lengths_refused
  not_refused = ground (arith, header_size, length-frame, l.words)

  ipv4_fields_lem : ipv4_fields frame ≡ ok (some (20 + d.words * 4, packet_length d))
  unfolding ipv4_fields
  ipv4_fields_lem = rw (first_byte, protocol_byte, total_field, not_refused, header_size)

  ipv4_header_lem : ipv4_header frame ≡ ok (some (20 + d.words * 4, packet_length d))
  unfolding ipv4_header
  ipv4_header_lem = ground (arith, ipv4_fields_lem, type_field, length-frame)

  abbrev hl : ℕ
  hl = 20 + d.words * 4

  starts : 14 + hl ≡ udp_start
  starts = omega arith

  field_udp : (lo hi : ℕ) → field_at frame (14 + hl) lo hi ≡ from_bytes (slice (from_udp d) lo hi)
  field_udp lo hi = rw starts (ap from_bytes (slice_udp lo hi))

  length_field : field_at frame (14 + hl) 4 6 ≡ segment_length d
  length_field = field_udp 4 6 ∙ omega (arith, l.size)

  payload_slice : slice frame (14 + hl + 8) (14 + hl + segment_length d) ≡ d.payload
  payload_slice = rw starts (
      slice_udp 8 (segment_length d)
      ∙ take_front d.payload d.padding (segment_length d - 8) (omega arith))

  segment_slice : slice frame (14 + hl) (14 + hl + segment_length d) ≡ udp_segment d
  segment_slice =
      let e : udp_start + 0 ≡ 14 + hl = omega arith in
      let f : udp_start + segment_length d ≡ 14 + hl + segment_length d = omega arith in
      ap₂ (slice frame) (sym e) (sym f)
      ∙ slice_udp 0 (segment_length d)
      ∙ take_front (udp_segment d) d.padding (segment_length d - 0) (omega arith)

  udp_frame_lem : udp_frame frame (14 + hl) (packet_length d) (segment_length d) ≡ ok (reported d)
  udp_frame_lem =
      udp_frame_parts frame (14 + hl) (packet_length d) (segment_length d) d.payload (udp_segment d)
        d.source d.destination source_slice destination_slice payload_slice segment_slice
        (field_udp 0 2 ∙ omega (arith, l.ports)) (field_udp 2 4 ∙ omega (arith, l.ports))
        (field_udp 6 8 ∙ omega (arith, l.checksum)) (omega (arith, l.size))

  udp_stage_lem : udp_stage frame hl (packet_length d) ≡ ok (some (reported d))
  udp_stage_lem =
      udp_stage_accepts frame hl (packet_length d) (segment_length d) length_field (omega arith)
        (omega arith)
      ∙ ap (λ r. r >>= λ u. ok (some u)) udp_frame_lem

-- Every datagram that is laid out by the standards, with up to ten words of options and any bytes
-- after the packet, is parsed to the addresses, ports, lengths, checksum and payload that it was
-- made of, and to the checksum verdict on its own segment.
pub parse_ipv4_udp_frame-ethernet_frame :
    (d : Datagram) → IsLaidOut d → parse_ipv4_udp_frame (ethernet_frame d) ≡ ok (some (reported d))
unfolding parse_ipv4_udp_frame
parse_ipv4_udp_frame-ethernet_frame d l = rw (ipv4_header_lem d l) (udp_stage_lem d l)
