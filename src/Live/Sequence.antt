-- ===== src/Live/Sequence.antt =====
-- `LiveSequenceState` of oad_parser/live/pipeline.py.
pub mod State
pub mod Windows
pub mod Deltas
pub mod Annotate
pub mod Steps
pub mod Recent
pub mod Collapsed
pub mod History
