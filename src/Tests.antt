-- ===== src/Tests.antt =====
-- Runs of the definitions on concrete inputs, and the properties applied to such inputs.
mod Cd2
mod Udp
mod Ecg
mod Sent
mod Live
mod Writer
mod Alerts
mod Sequence
mod RuleFile
mod Storage
mod Detect
mod Files
mod Decoders
