-- ===== src/Udp/Datagram.antt =====
-- An Ethernet frame that carries UDP over IPv4, as the standards lay it out, for oad_parser/ingest/ethernet.py.
use oad_parser.Common.{
  refl, ok, ◌>>=◌, ℕ, ◌+◌, ◌*◌, ◌≤◌, ◌<◌, ◌≡◌, arith, some, List, ◌∷◌, ◌++◌, length, slice,
  from_bytes,
}
use oad_parser.Udp.PseudoHeader.{two_bytes, verdict, validate_ipv4_udp_checksum_lem}
use oad_parser.Udp.Frame.{UdpFrame, field_at, format_ipv4, udp_frame, udp_stage}

-- The parts of an Ethernet frame that carries UDP over IPv4. `middle` holds the identification,
-- the fragment field and the time to live; `words` counts the 32-bit words of the options.
pub record Datagram : Type 0 where
  pub macs : List ℕ
  pub service : ℕ
  pub middle : List ℕ
  pub header_checksum : List ℕ
  pub source : List ℕ
  pub destination : List ℕ
  pub options : List ℕ
  pub words : ℕ
  pub source_port : ℕ
  pub destination_port : ℕ
  pub checksum : ℕ
  pub payload : List ℕ
  pub padding : List ℕ

abbrev pub segment_length : Datagram → ℕ
segment_length d = 8 + length d.payload

abbrev pub packet_length : Datagram → ℕ
packet_length d = 20 + d.words * 4 + segment_length d

pub record IsLaidOut (d : Datagram) : Type 0 where
  pub macs : length d.macs ≡ 12
  pub middle : length d.middle ≡ 5
  pub header_checksum : length d.header_checksum ≡ 2
  pub source : length d.source ≡ 4
  pub destination : length d.destination ≡ 4
  pub options : length d.options ≡ d.words * 4
  pub words : d.words ≤ 10
  pub ports : (d.source_port < 65536) × (d.destination_port < 65536)
  pub checksum : d.checksum < 65536
  pub size : packet_length d < 65536

abbrev pub udp_segment : Datagram → List ℕ
udp_segment d =
    two_bytes d.source_port
    ++ (two_bytes d.destination_port
        ++ (two_bytes (segment_length d) ++ (two_bytes d.checksum ++ d.payload)))

abbrev pub from_udp : Datagram → List ℕ
from_udp d = udp_segment d ++ d.padding

abbrev pub from_source : Datagram → List ℕ
from_source d = d.source ++ (d.destination ++ (d.options ++ from_udp d))

abbrev pub from_middle : Datagram → List ℕ
from_middle d = d.middle ++ (17 ∷ (d.header_checksum ++ from_source d))

abbrev pub from_type : Datagram → List ℕ
from_type d =
    0x08 ∷ 0x00 ∷ (0x45 + d.words) ∷ d.service ∷ (two_bytes (packet_length d) ++ from_middle d)

abbrev pub ethernet_frame : Datagram → List ℕ
ethernet_frame d = d.macs ++ from_type d

-- What the parser reports of it.
abbrev pub reported : Datagram → UdpFrame
reported d = record {
  payload = d.payload;
  source_ip = format_ipv4 d.source;
  destination_ip = format_ipv4 d.destination;
  source_port = d.source_port;
  destination_port = d.destination_port;
  total_length = packet_length d;
  checksum = d.checksum;
  network_bytes = length (ethernet_frame d);
  udp_length = segment_length d;
  udp_payload_length = length d.payload;
  checksum_valid = verdict d.source d.destination (udp_segment d) d.checksum;
}

from_bytes_to_bytes : (n : ℕ) → from_bytes (two_bytes n) ≡ n
from_bytes_to_bytes n = omega arith

-- The frame that is built from known slices and fields.
pub udp_frame_parts :
    (frame : List ℕ) (start total n : ℕ) (payload segment source destination : List ℕ)
    {source_port destination_port checksum : ℕ}
    → slice frame 26 30 ≡ source
    → slice frame 30 34 ≡ destination
    → slice frame (start + 8) (start + n) ≡ payload
    → slice frame start (start + n) ≡ segment
    → field_at frame start 0 2 ≡ source_port
    → field_at frame start 2 4 ≡ destination_port
    → field_at frame start 6 8 ≡ checksum
    → length segment < 65536
    → udp_frame frame start total n
      ≡ ok (record {
        payload = payload;
        source_ip = format_ipv4 source;
        destination_ip = format_ipv4 destination;
        source_port = source_port;
        destination_port = destination_port;
        total_length = total;
        checksum = checksum;
        network_bytes = length frame;
        udp_length = n;
        udp_payload_length = length payload;
        checksum_valid = verdict source destination segment checksum;
      })
unfolding udp_frame
udp_frame_parts frame start total n payload segment source destination {checksum} s t p g sp dp c
      h =
    rw (s, t, p, g, sp, dp, c)
      (rw (validate_ipv4_udp_checksum_lem source destination segment checksum h) refl)

pub udp_stage_accepts :
    (frame : List ℕ) (hl total n : ℕ)
    → field_at frame (14 + hl) 4 6 ≡ n
    → 8 ≤ n
    → hl + n ≤ total
    → udp_stage frame hl total ≡ (udp_frame frame (14 + hl) total n >>= λ u. ok (some u))
unfolding udp_stage
udp_stage_accepts frame hl total n e h k = ground arith
