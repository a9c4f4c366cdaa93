-- ===== src/Pcap.antt =====
-- The PCAP reader: oad_parser/ingest/pcap.py.
pub mod Reader
pub mod RoundTrip
