-- ===== src/Live/Metrics.antt =====
-- `LiveMetrics` of oad_parser/live/metrics.py. The seconds are a float and a parameter here; a
-- `Counter` is the name that a call of `increment` passes.
use oad_parser.Common.{ℕ, ◌+◌}

pub data Counter : Type 0 where
  packets_received packets_dropped packets_parsed ecg_messages_emitted : Counter
  malformed_count parse_warnings_count non_ipv4_or_non_udp non_ecg : Counter
  ecg_candidates valid_ecg_payloads error_records_emitted detector_alerts : Counter
  bytes_written files_rotated files_pruned output_drops : Counter

module _ (Seconds : Type 0) where
  pub record LiveMetrics : Type 0 where
    pub packets_received : ℕ
    pub packets_dropped : ℕ
    pub packets_parsed : ℕ
    pub ecg_messages_emitted : ℕ
    pub malformed_count : ℕ
    pub parse_warnings_count : ℕ
    pub non_ipv4_or_non_udp : ℕ
    pub non_ecg : ℕ
    pub ecg_candidates : ℕ
    pub valid_ecg_payloads : ℕ
    pub error_records_emitted : ℕ
    pub detector_alerts : ℕ
    pub bytes_written : ℕ
    pub files_rotated : ℕ
    pub files_pruned : ℕ
    pub writer_block_seconds : Seconds
    pub output_drops : ℕ

  unfoldable pub increment : Counter → ℕ → LiveMetrics → LiveMetrics
  increment packets_received n m = record m { packets_received = m.packets_received + n }
  increment packets_dropped n m = record m { packets_dropped = m.packets_dropped + n }
  increment packets_parsed n m = record m { packets_parsed = m.packets_parsed + n }
  increment ecg_messages_emitted n m = record m {
    ecg_messages_emitted = m.ecg_messages_emitted + n;
  }
  increment malformed_count n m = record m { malformed_count = m.malformed_count + n }
  increment parse_warnings_count n m = record m {
    parse_warnings_count = m.parse_warnings_count + n;
  }
  increment non_ipv4_or_non_udp n m = record m { non_ipv4_or_non_udp = m.non_ipv4_or_non_udp + n }
  increment non_ecg n m = record m { non_ecg = m.non_ecg + n }
  increment ecg_candidates n m = record m { ecg_candidates = m.ecg_candidates + n }
  increment valid_ecg_payloads n m = record m { valid_ecg_payloads = m.valid_ecg_payloads + n }
  increment error_records_emitted n m = record m {
    error_records_emitted = m.error_records_emitted + n;
  }
  increment detector_alerts n m = record m { detector_alerts = m.detector_alerts + n }
  increment bytes_written n m = record m { bytes_written = m.bytes_written + n }
  increment files_rotated n m = record m { files_rotated = m.files_rotated + n }
  increment files_pruned n m = record m { files_pruned = m.files_pruned + n }
  increment output_drops n m = record m { output_drops = m.output_drops + n }

  -- The addition of floats is the argument `add`.
  unfoldable pub add_writer_block_seconds :
      (Seconds → Seconds → Seconds) → Seconds → LiveMetrics → LiveMetrics
  add_writer_block_seconds add seconds m = record m {
    writer_block_seconds = add m.writer_block_seconds seconds;
  }
