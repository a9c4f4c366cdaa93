-- ===== src/Lib.antt =====
-- The library verifies the parsers and the record state of oad-parser, a Python program that reads
-- ECG radar messages from captured or live UDP traffic and CD2 words from serial links.
--
-- The parts and how they interact. oad_parser/ingest/pcap.py yields frames of a capture file.
-- oad_parser/ingest/ethernet.py takes the UDP payload out of an Ethernet frame. oad_parser/parsers/ecg.py
-- reads the payload: an outer header and a row of message blocks, each of which becomes an envelope, or a
-- record of oad_parser/models.py. oad_parser/detectors/state.py annotates the records one by one and keeps
-- a state for each site. oad_parser/live/classifier.py sorts the frames of the live path,
-- oad_parser/live/alerts.py raises the alerts of a record under a policy, the state in
-- oad_parser/live/pipeline.py adds those that depend on earlier records, oad_parser/live/writer.py turns a
-- record into what is written, suppresses duplicates, samples normal records and rotates the output file,
-- and oad_parser/live/storage.py deletes closed files when they are old or the disk is full.
-- oad_parser/parsers/cd2.py stands by itself: it turns bytes into 13-bit words and words into frames,
-- which the decoders of oad_parser/decoders read.
--
-- Which file models which part. A definition has the name of the function or class in the source,
-- without a leading underscore, and follows it branch by branch.
--   Cd2/Spec, Cd2/Word, Cd2/Stream and Cd2/Frame: parsers/cd2.py with the constants of
--     protocols/cd2_spec.py. `Framer` holds the local variables of `frame_words`.
--   Udp/Layout, Udp/Checksum and Udp/Frame: ingest/ethernet.py. Udp/Datagram and Udp/PseudoHeader lay out a
--     frame and the bytes of its checksum by the standards.
--   Ecg/Layout, Ecg/Decode, Ecg/Block, Ecg/Envelope, Ecg/Plot and Ecg/Checked: parsers/ecg.py.
--     `next_block` is the guards that its three loops repeat; Ecg/Walk says as a relation which blocks
--     they visit.
--   Detect/Record, Detect/Rules, Detect/Motion and Detect/Engine: detectors/state.py, each method a
--     function from the state and the record to what it leaves of them.
--   Pcap/Reader: ingest/pcap.py on the bytes of a file.
--   Decoders/Radar, Decoders/Registry and Decoders/Default: decoders/cd2_radar.py and
--     decoders/registry.py.
--   Live/DuplicateKeys: `_DuplicateKeyAccounting` of live/writer.py. Live/Metrics and Live/Classifier:
--     live/metrics.py and live/classifier.py, on the parsers of Udp and Ecg.
--   Live/Writer/Warnings, Live/Writer/Alerts, Live/Writer/Fields and Live/Writer/Compact: what
--     `_compact_live_record` of live/writer.py makes of a record. Live/Writer/Policy and
--     Live/Writer/PolicyCheck: the field policies. Live/Writer/Output: the active file and its rotation.
--     Live/Writer/Analysis and Live/Writer/Writing: `RotatingJsonlWriter`.
--   Live/Storage/Policy: `LiveStoragePolicy` of live/storage.py.
--   Live/Alerts/Taxonomy, Live/Alerts/Config, Live/Alerts/Evidence, Live/Alerts/Rules,
--     Live/Alerts/Checks and Live/Alerts/Evaluate: live/alerts.py on one record. Live/Alerts/Parse,
--     Live/Alerts/RuleFile and Live/Alerts/Load: its policy file.
--   Live/Sequence/State, Live/Sequence/Windows, Live/Sequence/Deltas and Live/Sequence/Annotate:
--     `LiveSequenceState` of live/pipeline.py, each method a function from the state, the record and its
--     alerts to what it leaves of them.
--   Common: what the modules share. The other files hold the proofs, and Tests the examples.
--
-- How Python is modelled. A call that may raise returns a `Result`. An index out of range raises,
-- a slice is cut short. Bytes are lists of numbers; a generator is the list of what it yields, and
-- for a capture file the error that ends it. Numbers are natural where the source cannot make them
-- negative and `ℤ` elsewhere. A float that is a count times a scale is the count; the detectors
-- and the alerts, which compare and subtract them, take their operations as the parameter
-- `Floats`. The SHA hashes, the clock, the disk usage, the capture time and the seconds of the
-- live metrics are parameters. A dictionary is the list of its entries with the last written
-- first; a record of the live path, whose order matters, is `Fields` of Common/Value, in the order
-- of insertion, and its values are `Value`. `Numbers` and `Datetimes` hold `int`, `float` and the
-- ISO dates, `Python` holds `json.dumps`, the hash, the classes of characters and `str` of
-- containers, and `System` the readings of the clock and which calls of the file system fail.
--
-- Bounds and fuel. The loops of parsers/ecg.py run on the payload's length as fuel, since each
-- round moves on by at least one byte; a loop that has not ended by then gives the error
-- `unfinished_loop`, which is no exception of the program, so that a theorem that a loop returns
-- says that it ends; the walks of Ecg/Walk show that the bound is enough. A capture file gives one
-- round more than it has bytes, and each packet takes sixteen. Packing has as many rounds as bits,
-- counting ones as many as the value, folding a checksum as many as the total, and each is proved
-- to finish.
--
-- What is not modelled: the rest of oad_parser/live (the service, and the pipeline around its
-- state), the link options, the configuration, the legacy transformer, the comparison and the
-- command line; whatever only opens files and sockets or prints; and failures of the calls by
-- which the writer only looks at files.
pub mod Common
pub mod Cd2
pub mod Udp
pub mod Ecg
pub mod Detect
pub mod Pcap
pub mod Live
pub mod Decoders
mod Tests
