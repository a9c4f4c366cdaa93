-- ===== src/Live/Storage.antt =====
-- oad_parser/live/storage.py: pruning of closed output files and protection of the disk.
pub mod Policy
pub mod Deletion
pub mod Candidates
pub mod Pruned
