-- ===== src/Live/Classifier.antt =====
-- `classify_live_frame` of oad_parser/live/classifier.py. The metrics are an object that the call
-- changes, so a call gives the metrics it leaves and what it returns or raises. The capture time is
-- a parameter.
use oad_parser.Common.{
  ℕ, ◌-◌, Bool, true, false, Option, none, some, List, ◌∷◌, ◌++◌, length, replicate, Result, err,
  ok,
}
use oad_parser.Common.Text.{Text, digits_of}
use oad_parser.Udp.Frame.{UdpFrame, parse_ipv4_udp_frame}
use oad_parser.Ecg.Checked.{looks_like_ecg_candidate_payload}
use oad_parser.Decoders.Radar.{hex_codes}
use oad_parser.Live.Metrics.{
  Counter, LiveMetrics, packets_received, packets_parsed, non_ipv4_or_non_udp, non_ecg,
  ecg_candidates, increment,
}

pub data ClassifierOutcome : Type 0 where
  outcome_non_ipv4_or_non_udp outcome_non_ecg_payload outcome_ecg_candidate : ClassifierOutcome

pub record UdpMetadata : Type 0 where
  pub source_ip : Text
  pub source_port : ℕ
  pub destination_ip : Text
  pub destination_port : ℕ
  pub network_bytes : ℕ
  pub ip_total_length : ℕ
  pub udp_length : ℕ
  pub udp_payload_length : ℕ
  pub udp_checksum : ℕ
  pub udp_checksum_hex : Text
  pub udp_checksum_valid : Option Bool

-- f"0x{checksum:04x}"
unfoldable pub checksum_hex : ℕ → Text
checksum_hex checksum =
    let digits = hex_codes (digits_of 16 checksum checksum) in
    48 ∷ 120 ∷ replicate (4 - length digits) 48 ++ digits

unfoldable pub packet_metadata_from_udp_frame : UdpFrame → UdpMetadata
packet_metadata_from_udp_frame u = record {
  source_ip = u.source_ip;
  source_port = u.source_port;
  destination_ip = u.destination_ip;
  destination_port = u.destination_port;
  network_bytes = u.network_bytes;
  ip_total_length = u.total_length;
  udp_length = u.udp_length;
  udp_payload_length = u.udp_payload_length;
  udp_checksum = u.checksum;
  udp_checksum_hex = checksum_hex u.checksum;
  udp_checksum_valid = u.checksum_valid;
}

-- The reasons "frame could not be classified as Ethernet/IPv4/UDP" and "UDP payload does not match
-- ECG envelope structure".
pub data Reason : Type 0 where
  not_ethernet_ipv4_udp no_ecg_envelope : Reason

module _ (Seconds Datetime : Type 0) where
  -- As `__post_init__` leaves it, with the length filled in.
  pub record LiveCaptureFrame : Type 0 where
    pub frame_bytes : List ℕ
    pub interface : Text
    pub capture_time_utc : Datetime
    pub frame_length : ℕ
    pub sequence_number : Option ℕ

  -- An empty dictionary of metadata is a `none`.
  pub record LiveFrameClassification : Type 0 where
    pub outcome : ClassifierOutcome
    pub capture_frame : LiveCaptureFrame
    pub udp_frame : Option UdpFrame
    pub ecg_payload : Option (List ℕ)
    pub packet_metadata : Option UdpMetadata
    pub reason : Option Reason

  -- `if metrics is not None: metrics.increment(name)`
  unfoldable pub note : Counter → Option (LiveMetrics Seconds) → Option (LiveMetrics Seconds)
  note name none = none
  note name (some m) = some (increment Seconds name 1 m)

  abbrev pub Classified : Type 0
  Classified = Option (LiveMetrics Seconds) × Result LiveFrameClassification

  unfoldable pub classify_payload :
      LiveCaptureFrame → UdpFrame → Option (LiveMetrics Seconds) → Result Bool → Classified
  classify_payload capture u m (err raised) = (m, err raised)
  classify_payload capture u m (ok false) = (
    note non_ecg m,
    ok (record {
      outcome = outcome_non_ecg_payload;
      capture_frame = capture;
      udp_frame = some u;
      ecg_payload = none;
      packet_metadata = some (packet_metadata_from_udp_frame u);
      reason = some no_ecg_envelope;
    }),
  )
  classify_payload capture u m (ok true) = (
    note ecg_candidates m,
    ok (record {
      outcome = outcome_ecg_candidate;
      capture_frame = capture;
      udp_frame = some u;
      ecg_payload = some u.payload;
      packet_metadata = some (packet_metadata_from_udp_frame u);
      reason = none;
    }),
  )

  unfoldable pub classify_parsed :
      LiveCaptureFrame → Option (LiveMetrics Seconds) → Result (Option UdpFrame) → Classified
  classify_parsed capture m (err raised) = (m, err raised)
  classify_parsed capture m (ok none) = (
    note non_ipv4_or_non_udp m,
    ok (record {
      outcome = outcome_non_ipv4_or_non_udp;
      capture_frame = capture;
      udp_frame = none;
      ecg_payload = none;
      packet_metadata = none;
      reason = some not_ethernet_ipv4_udp;
    }),
  )
  classify_parsed capture m (ok (some u)) =
      classify_payload capture u (note packets_parsed m)
        (looks_like_ecg_candidate_payload u.payload)

  unfoldable pub classify_live_frame : LiveCaptureFrame → Option (LiveMetrics Seconds) → Classified
  classify_live_frame capture m =
      classify_parsed capture (note packets_received m) (parse_ipv4_udp_frame capture.frame_bytes)
