-- ===== src/Decoders.antt =====
-- The decoders of framed messages: oad_parser/decoders.
pub mod Radar
pub mod Registry
pub mod Default
pub mod Lookups
pub mod Legacy
