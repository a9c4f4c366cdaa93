-- ===== src/Udp/Layout.antt =====
-- The constants of oad_parser/ingest/ethernet.py.
use oad_parser.Common.{ℕ, ◌+◌}

abbrev pub ethernet_header_bytes : ℕ
ethernet_header_bytes = 14

abbrev pub ethertype_offset_start : ℕ
ethertype_offset_start = 12

abbrev pub ethertype_offset_end : ℕ
ethertype_offset_end = 14

abbrev pub ethertype_ipv4 : ℕ
ethertype_ipv4 = 0x0800

abbrev pub ip_version_shift : ℕ
ip_version_shift = 4

abbrev pub ip_ihl_mask : ℕ
ip_ihl_mask = 0x0f

abbrev pub ip_ihl_word_bytes : ℕ
ip_ihl_word_bytes = 4

abbrev pub ipv4_version : ℕ
ipv4_version = 4

abbrev pub min_ipv4_header_bytes : ℕ
min_ipv4_header_bytes = 20

abbrev pub ipv4_total_length_offset_start : ℕ
ipv4_total_length_offset_start = 2

abbrev pub ipv4_total_length_offset_end : ℕ
ipv4_total_length_offset_end = 4

abbrev pub ip_protocol_offset : ℕ
ip_protocol_offset = 9

abbrev pub ip_protocol_udp : ℕ
ip_protocol_udp = 17

abbrev pub ip_source_offset_start : ℕ
ip_source_offset_start = 12

abbrev pub ip_source_offset_end : ℕ
ip_source_offset_end = 16

abbrev pub ip_destination_offset_start : ℕ
ip_destination_offset_start = 16

abbrev pub ip_destination_offset_end : ℕ
ip_destination_offset_end = 20

abbrev pub udp_header_bytes : ℕ
udp_header_bytes = 8

abbrev pub udp_destination_port_offset_start : ℕ
udp_destination_port_offset_start = 2

abbrev pub udp_destination_port_offset_end : ℕ
udp_destination_port_offset_end = 4

abbrev pub udp_length_offset_start : ℕ
udp_length_offset_start = 4

abbrev pub udp_length_offset_end : ℕ
udp_length_offset_end = 6

abbrev pub udp_checksum_offset_start : ℕ
udp_checksum_offset_start = 6

abbrev pub udp_checksum_offset_end : ℕ
udp_checksum_offset_end = 8

abbrev pub min_ipv4_udp_frame_bytes : ℕ
min_ipv4_udp_frame_bytes = ethernet_header_bytes + min_ipv4_header_bytes + udp_header_bytes
