-- ===== src/Tests/Live.antt =====
-- A frame that is no IPv4, a datagram with a short payload and a candidate, for
-- oad_parser/live/classifier.py.
use oad_parser.Common.{are_bytes-IsByte, ℕ, ◌≡◌, refl, none, some, List, [], ◌∷◌, length, replicate}
use oad_parser.Live.Metrics.{LiveMetrics}
use oad_parser.Live.Classifier.{LiveCaptureFrame}
use oad_parser.Live.Balance.{Reply, classify_all, IsCounted, classify_all-IsCounted}
use oad_parser.Udp.Datagram.{Datagram, ethernet_frame}

abbrev datagram_of : List ℕ → Datagram
datagram_of payload = record {
  macs = replicate 12 1;
  service = 0;
  middle = 0 ∷ 1 ∷ 0 ∷ 0 ∷ 64 ∷ [];
  header_checksum = 0 ∷ 0 ∷ [];
  source = 10 ∷ 0 ∷ 0 ∷ 1 ∷ [];
  destination = 10 ∷ 0 ∷ 0 ∷ 2 ∷ [];
  options = [];
  words = 0;
  source_port = 4000;
  destination_port = 5000;
  checksum = 1234;
  payload = payload;
  padding = [];
}

abbrev captured_as : List ℕ → LiveCaptureFrame ℕ ℕ
captured_as bytes = record {
  frame_bytes = bytes;
  interface = 108 ∷ 111 ∷ [];
  capture_time_utc = 0;
  frame_length = length bytes;
  sequence_number = none;
}

abbrev three_frames : List (LiveCaptureFrame ℕ ℕ)
three_frames =
    captured_as (replicate 60 0x45)
    ∷ captured_as (ethernet_frame (datagram_of (1 ∷ 2 ∷ [])))
    ∷ captured_as (ethernet_frame (datagram_of (0 ∷ 1 ∷ 0 ∷ 0 ∷ 65 ∷ 66 ∷ 67 ∷ 0 ∷ 1 ∷ [])))
    ∷ []

abbrev fresh_metrics : LiveMetrics ℕ
fresh_metrics = record {
  packets_received = 0;
  packets_dropped = 0;
  packets_parsed = 0;
  ecg_messages_emitted = 0;
  malformed_count = 0;
  parse_warnings_count = 0;
  non_ipv4_or_non_udp = 0;
  non_ecg = 0;
  ecg_candidates = 0;
  valid_ecg_payloads = 0;
  error_records_emitted = 0;
  detector_alerts = 0;
  bytes_written = 0;
  files_rotated = 0;
  files_pruned = 0;
  writer_block_seconds = 0;
  output_drops = 0;
}

classify_all-IsCounted_example :
    (end : LiveMetrics ℕ) × (rs : List (Reply ℕ ℕ)) × (classify_all ℕ ℕ three_frames
        (some fresh_metrics)
      ≡ (some end, rs))
    × (length rs ≡ length three_frames)
    × IsCounted ℕ ℕ fresh_metrics rs end
classify_all-IsCounted_example = classify_all-IsCounted ℕ ℕ three_frames fresh_metrics (
  are_bytes-IsByte (replicate 60 0x45) refl,
  (
    are_bytes-IsByte (ethernet_frame (datagram_of (1 ∷ 2 ∷ []))) refl,
    (
      are_bytes-IsByte (ethernet_frame (datagram_of (0 ∷ 1 ∷ 0 ∷ 0 ∷ 65 ∷ 66 ∷ 67 ∷ 0 ∷ 1 ∷ [])))
          refl,
      tt,
    ),
  ),
)
