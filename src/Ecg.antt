-- ===== src/Ecg.antt =====
-- The ECG payload parser: oad_parser/parsers/ecg.py and the record of oad_parser/models.py.
pub mod Layout
pub mod Decode
pub mod Block
pub mod Envelope
pub mod Plot
pub mod Checked
pub mod Walk
pub mod Loops
pub mod Total
pub mod CheckedTotal
pub mod Agree
pub mod SamePayload
pub mod Accepted
pub mod PlotRange
pub mod PlotLaws
pub mod Sent
pub mod RoundTrip
