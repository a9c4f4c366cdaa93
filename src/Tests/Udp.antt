-- ===== src/Tests/Udp.antt =====
-- A datagram with a payload of three bytes, for oad_parser/ingest/ethernet.py.
use oad_parser.Common.{
  are_bytes-IsByte, ℕ, ◌%◌, ◌<◌, ◌≡◌, ◌↔◌, refl, arith, true, some, List, [], ◌∷◌, ok, Returns,
}
use oad_parser.Udp.Checksum.{internet_checksum, validate_ipv4_udp_checksum}
use oad_parser.Udp.Frame.{parse_ipv4_udp_frame}
use oad_parser.Udp.FrameLaws.{
  PayloadFits, parse_ipv4_udp_frame_total, parse_ipv4_udp_frame-PayloadFits,
}
use oad_parser.Udp.ChecksumLaws.{word_sum, internet_checksum-eq_zero}
use oad_parser.Udp.ChecksumSender.{segment, segment_checksum, validate-sent}
use oad_parser.Udp.Datagram.{Datagram, IsLaidOut, ethernet_frame, reported}
use oad_parser.Udp.RoundTrip.{parse_ipv4_udp_frame-ethernet_frame}

abbrev datagram : Datagram
datagram = record {
  macs = 1 ∷ 2 ∷ 3 ∷ 4 ∷ 5 ∷ 6 ∷ 7 ∷ 8 ∷ 9 ∷ 10 ∷ 11 ∷ 12 ∷ [];
  service = 0;
  middle = 0 ∷ 1 ∷ 0 ∷ 0 ∷ 64 ∷ [];
  header_checksum = 0 ∷ 0 ∷ [];
  source = 10 ∷ 0 ∷ 0 ∷ 1 ∷ [];
  destination = 10 ∷ 0 ∷ 0 ∷ 2 ∷ [];
  options = 1 ∷ 1 ∷ 1 ∷ 0 ∷ [];
  words = 1;
  source_port = 4000;
  destination_port = 5000;
  checksum = 1234;
  payload = 65 ∷ 66 ∷ 67 ∷ [];
  padding = 0 ∷ 0 ∷ [];
}

abbrev datagram-IsLaidOut : IsLaidOut datagram
datagram-IsLaidOut = record {
  macs = refl;
  middle = refl;
  header_checksum = refl;
  source = refl;
  destination = refl;
  options = refl;
  words = omega arith;
  ports = (omega arith, omega arith);
  checksum = omega arith;
  size = omega arith;
}

parse_ipv4_udp_frame-ethernet_frame_example :
    parse_ipv4_udp_frame (ethernet_frame datagram) ≡ ok (some (reported datagram))
parse_ipv4_udp_frame-ethernet_frame_example =
    parse_ipv4_udp_frame-ethernet_frame datagram datagram-IsLaidOut

parse_ipv4_udp_frame-PayloadFits_example :
    (hl : ℕ) × PayloadFits (ethernet_frame datagram) (reported datagram) hl
parse_ipv4_udp_frame-PayloadFits_example =
    parse_ipv4_udp_frame-PayloadFits (ethernet_frame datagram) (reported datagram)
      parse_ipv4_udp_frame-ethernet_frame_example

parse_ipv4_udp_frame_total_example : Returns (parse_ipv4_udp_frame (ethernet_frame datagram))
parse_ipv4_udp_frame_total_example =
    parse_ipv4_udp_frame_total (ethernet_frame datagram)
      (are_bytes-IsByte (ethernet_frame datagram) refl)

internet_checksum-eq_zero_example : (internet_checksum (0xff ∷ 0xf0 ∷ 0 ∷ 0x0f ∷ []) ≡ 0) ↔ (
    (0 < word_sum (0xff ∷ 0xf0 ∷ 0 ∷ 0x0f ∷ []))
    × (word_sum (0xff ∷ 0xf0 ∷ 0 ∷ 0x0f ∷ []) % 65535 ≡ 0))
internet_checksum-eq_zero_example =
    internet_checksum-eq_zero (0xff ∷ 0xf0 ∷ 0 ∷ 0x0f ∷ [])
      (omega arith, (omega arith, (omega arith, (omega arith, tt))))

abbrev source : List ℕ
source = 10 ∷ 0 ∷ 0 ∷ 1 ∷ []

abbrev destination : List ℕ
destination = 10 ∷ 0 ∷ 0 ∷ 2 ∷ []

-- Ports 4000 and 5000, and the length 11.
abbrev head : List ℕ
head = 15 ∷ 160 ∷ 19 ∷ 136 ∷ 0 ∷ 11 ∷ []

abbrev text : List ℕ
text = 65 ∷ 66 ∷ 67 ∷ []

validate-sent_example :
    validate_ipv4_udp_checksum source destination
      (segment source destination head text (segment_checksum source destination head text))
      (segment_checksum source destination head text)
    ≡ ok (some true)
validate-sent_example =
    validate-sent source destination head text refl refl refl (omega arith)
      (omega arith, (omega arith, (omega arith, (omega arith, tt))))
      (omega arith, (omega arith, (omega arith, (omega arith, tt))))
      (omega arith, (omega arith, (omega arith, (omega arith, (omega arith, (omega arith, tt))))))
      (omega arith, (omega arith, (omega arith, tt)))
