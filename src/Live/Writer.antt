-- ===== src/Live/Writer.antt =====
-- oad_parser/live/writer.py: what a record becomes, which records are written, and the files.
pub mod Warnings
pub mod Alerts
pub mod Fields
pub mod Compact
pub mod Policy
pub mod Output
pub mod Analysis
pub mod Writing
pub mod Balance
pub mod Duplicates
pub mod Names
pub mod Moves
pub mod Rotation
pub mod Flags
pub mod Sampling
pub mod PolicyCheck
pub mod Lossless
pub mod Labels
pub mod Aliases
