-- ===== src/Udp.antt =====
-- Ethernet, IPv4 and UDP: oad_parser/ingest/ethernet.py.
pub mod Layout
pub mod Checksum
pub mod PseudoHeader
pub mod Frame
pub mod ChecksumLaws
pub mod FrameLaws
pub mod Datagram
pub mod RoundTrip
pub mod ChecksumSender
