-- ===== src/Pcap/Reader.antt =====
-- `iter_pcap_packets` of oad_parser/ingest/pcap.py on the bytes of a file. The generator yields
-- packets until the file ends or an error is raised: the packets before the error are values too.
use oad_parser.Common.{
  ℕ, zero, suc, ◌+◌, ◌*◌, Bool, true, false, ◌&&◌, Option, none, some, List, [], ◌∷◌, ◌==◌, ltb,
  length, take, drop, if◌then◌else◌, Error, parse_error, from_bytes, slice,
}

abbrev pub pcap_microsecond_resolution : ℕ
pcap_microsecond_resolution = 1000000

abbrev pub pcap_nanosecond_resolution : ℕ
pcap_nanosecond_resolution = 1000000000

abbrev pub pcap_global_header_bytes : ℕ
pcap_global_header_bytes = 24

abbrev pub pcap_packet_header_bytes : ℕ
pcap_packet_header_bytes = 16

abbrev pub pcap_magic_bytes : ℕ
pcap_magic_bytes = 4

pub record PcapPacket : Type 0 where
  pub timestamp_seconds : ℕ
  pub timestamp_fraction : ℕ
  pub data_bytes : List ℕ
  pub timestamp_fraction_resolution : ℕ

-- "<" and ">"
pub data Endian : Type 0 where
  little big : Endian

abbrev pub equals_bytes : List ℕ → List ℕ → Bool
equals_bytes [] [] = true
equals_bytes [] (d ∷ ds) = false
equals_bytes (c ∷ cs) [] = false
equals_bytes (c ∷ cs) (d ∷ ds) = (c == d) && equals_bytes cs ds

-- `PCAP_MAGIC_FORMATS.get(magic)`
unfoldable pub pcap_format : List ℕ → Option (Endian × ℕ)
pcap_format magic =
    if equals_bytes magic (0xd4 ∷ 0xc3 ∷ 0xb2 ∷ 0xa1 ∷ [])
    then some (little, pcap_microsecond_resolution)
    else if equals_bytes magic (0xa1 ∷ 0xb2 ∷ 0xc3 ∷ 0xd4 ∷ [])
    then some (big, pcap_microsecond_resolution)
    else if equals_bytes magic (0x4d ∷ 0x3c ∷ 0xb2 ∷ 0xa1 ∷ [])
    then some (little, pcap_nanosecond_resolution)
    else if equals_bytes magic (0xa1 ∷ 0xb2 ∷ 0x3c ∷ 0x4d ∷ [])
    then some (big, pcap_nanosecond_resolution)
    else none

abbrev pub from_bytes_little : List ℕ → ℕ
from_bytes_little [] = 0
from_bytes_little (b ∷ bs) = b + 256 * from_bytes_little bs

-- One "I" of `struct.unpack`.
abbrev pub uint32_of : Endian → List ℕ → ℕ
uint32_of little bytes = from_bytes_little bytes
uint32_of big bytes = from_bytes bytes

-- What one round of the loop finds at the rest of the file.
pub data Round : Type 0 where
  end_of_file : Round
  failed : Error → Round
  packet : PcapPacket → List ℕ → Round

abbrev pub packet_from : Endian → ℕ → List ℕ → List ℕ → Round
packet_from endian resolution header rest =
    let incl_len = uint32_of endian (slice header 8 12) in
    if ltb (uint32_of endian (slice header 12 16)) incl_len
    then failed (parse_error "pcap captured packet length exceeds original packet length")
    else if ltb (length (take incl_len rest)) incl_len
    then failed (parse_error "pcap packet length exceeds file size")
    else packet
        (record {
          timestamp_seconds = uint32_of endian (slice header 0 4);
          timestamp_fraction = uint32_of endian (slice header 4 8);
          data_bytes = take incl_len rest;
          timestamp_fraction_resolution = resolution;
        })
        (drop incl_len rest)

unfoldable pub next_packet : Endian → ℕ → List ℕ → Round
next_packet endian resolution file =
    let header = take pcap_packet_header_bytes file in
    if length header == 0
    then end_of_file
    else if ltb (length header) pcap_packet_header_bytes
    then failed (parse_error "pcap contains trailing partial packet header")
    else packet_from endian resolution header (drop pcap_packet_header_bytes file)

-- `while True:`; a round takes at least 16 bytes, so the file's length bounds the rounds.
unfoldable pub packet_loop : Endian → ℕ → ℕ → List ℕ → List PcapPacket × Option Error
packet_loop endian resolution zero file = ([], none)
packet_loop endian resolution (suc fuel) file = elim (next_packet endian resolution file) [
  | end_of_file ↦ ([], none)
  | failed error ↦ ([], some error)
  | packet p rest ↦
      let (packets, error) = packet_loop endian resolution fuel rest in (p ∷ packets, error)
]

abbrev pub packets_of : Option (Endian × ℕ) → List ℕ → List PcapPacket × Option Error
packets_of none file = ([], some (parse_error "unsupported pcap magic header"))
packets_of (some (endian, resolution)) file = packet_loop endian resolution (length file + 1) file

unfoldable pub iter_pcap_packets : List ℕ → List PcapPacket × Option Error
iter_pcap_packets file =
    let global_header = take pcap_global_header_bytes file in
    if ltb (length global_header) pcap_global_header_bytes
    then ([], some (parse_error "pcap file is too small to contain a global header"))
    else packets_of (pcap_format (take pcap_magic_bytes global_header))
        (drop pcap_global_header_bytes file)
