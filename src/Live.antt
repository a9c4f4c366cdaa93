-- ===== src/Live.antt =====
-- The live path, oad_parser/live: the classifier and its metrics, the alerts of a record, the state from
-- record to record, the writer with its duplicate accounting, and the storage policy.
pub mod DuplicateKeys
pub mod Counts
pub mod Metrics
pub mod Classifier
pub mod Balance
pub mod Writer
pub mod Alerts
pub mod Sequence
pub mod Storage
