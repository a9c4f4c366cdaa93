-- ===== src/Detect.antt =====
-- The stateful detectors: oad_parser/detectors/state.py.
pub mod Record
pub mod Rules
pub mod Motion
pub mod Engine
pub mod Sequence
pub mod Duplicates
pub mod Keeps
pub mod Sites
