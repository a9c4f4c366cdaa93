-- ===== src/Cd2.antt =====
-- The CD2 link layer: oad_parser/protocols/cd2_spec.py and oad_parser/parsers/cd2.py.
pub mod Spec
pub mod Word
pub mod Stream
pub mod Frame
pub mod Parity
pub mod Decode
pub mod Packing
pub mod RoundTrip
pub mod Report
pub mod FrameGood
pub mod FrameSound
pub mod FrameComplete
