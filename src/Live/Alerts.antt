-- ===== src/Live/Alerts.antt =====
-- oad_parser/live/alerts.py: the alerts of one record.
pub mod Taxonomy
pub mod Config
pub mod Evidence
pub mod Rules
pub mod Checks
pub mod Evaluate
pub mod Parse
pub mod RuleFile
pub mod Load
pub mod Accepted
pub mod Distinct
pub mod Disabled
pub mod Selected
