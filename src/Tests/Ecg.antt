-- ===== src/Tests/Ecg.antt =====
-- One ECG payload with one beacon message, for oad_parser/parsers/ecg.py.
use oad_parser.Common.{
  are_bytes-IsByte, ℕ, ◌≡◌, refl, arith, true, false, none, some, List, [], ◌∷◌, ok, ◌>>=◌, Returns,
}
use oad_parser.Common.Text.{Text}
use oad_parser.Common.Int.{pos, negsuc}
use oad_parser.Ecg.Block.{
  NextBlock, block, next_block, classify_message, flags_of, message_type_of, message_name, cd_2,
  beacon, word_has_legacy_status_bit,
}
use oad_parser.Ecg.Decode.{decode_text, is_ascii, strip_trailing_null}
use oad_parser.Ecg.Envelope.{
  Outer, EcgMessageEnvelope, no_endpoints, envelope_at, data_words_from, extract_loop,
  extract_ecg_messages,
}
use oad_parser.Ecg.Plot.{
  ParsedPlot, Capture, minus_one, scaled, create_plot, apply_word, plot_words_loop, finish_plot,
  plot_at, parse_loop, parse_frames,
}
use oad_parser.Ecg.Checked.{EcgEnvelopeParseResult, no_metadata, validate_loop}
use oad_parser.Ecg.Walk.{Walk, AreLaidOut}
use oad_parser.Ecg.Loops.{traverse, cat_some, issue_of}
use oad_parser.Ecg.Agree.{loops_agree}
use oad_parser.Ecg.PlotLaws.{Outcome, envelope_header, plot_at-Outcome}
use oad_parser.Ecg.Total.{extract_ecg_messages_total, parse_frames_total}

abbrev payload : List ℕ
payload =
    0 ∷ 20 ∷ 0 ∷ 0 ∷ 90 ∷ 72 ∷ 78 ∷ 0 ∷ 1 ∷ 0 ∷ 0 ∷ 0 ∷ 0 ∷ 0 ∷ 0 ∷ 1 ∷ 0 ∷ 4 ∷ 0 ∷ 0 ∷ 65 ∷ 66 ∷ 67
    ∷ 0 ∷ 1 ∷ 7 ∷ 0x20 ∷ 0 ∷ 0 ∷ 0 ∷ 0 ∷ 2 ∷ 6 ∷ 0x40 ∷ 0 ∷ 0x10 ∷ []

abbrev outer : Outer
outer = record {
  payload = payload;
  artcc = 90 ∷ 72 ∷ 78 ∷ [];
  ecg_message = 1;
  router_timestamp = 1;
  endpoints = no_endpoints;
}

abbrev envelope : EcgMessageEnvelope
envelope = record {
  artcc = 90 ∷ 72 ∷ 78 ∷ [];
  site_id = 65 ∷ 66 ∷ 67 ∷ [];
  ecg_message = 1;
  message_code = 1;
  message_name = cd_2;
  sequence = 7;
  channel = 2;
  router_timestamp = 1;
  radar_timestamp = 2;
  message_data_length = 4;
  message_payload = 6 ∷ 64 ∷ 0 ∷ 16 ∷ [];
  data_words = 1600 ∷ 16 ∷ [];
  message_type = beacon;
  flags = record {
    beacon_message = true;
    search_message = false;
    rtqc_message = false;
    modec_valid = true;
  };
  channel_raw_byte = 32;
  endpoints = no_endpoints;
}

abbrev result : EcgEnvelopeParseResult
result = record {
  envelopes = envelope ∷ [];
  error = none;
  warnings = [];
  payload = some payload;
  packet_metadata = no_metadata;
  frame_length_claimed = some 20;
  frame_length_expected = some (pos 20);
  frame_length_valid = some true;
}

next_block-test : next_block payload 16 ≡ block 4
unfolding next_block
next_block-test = refl

envelope_at-test : envelope_at outer 16 4 ≡ ok envelope
unfolding envelope_at classify_message flags_of message_type_of message_name decode_text is_ascii
    strip_trailing_null data_words_from
envelope_at-test = refl

-- A stand-in for the hash and the clock.
abbrev sha256 : List ℕ → Text
sha256 bytes = bytes

abbrev now : Text
now = 48 ∷ []

abbrev capture : Capture
capture = record { observer_interface = none; timestamp = none; total_bytes = 36 }

abbrev plot : ParsedPlot
plot = record {
  timestamp = now;
  endpoints = no_endpoints;
  observer_interface = none;
  total_bytes = 36;
  artcc = 90 ∷ 72 ∷ 78 ∷ [];
  site_id = 65 ∷ 66 ∷ 67 ∷ [];
  sequence = 7;
  sequence_delta = none;
  channel = 2;
  message = cd_2;
  message_type = some beacon;
  router_timestamp = 1;
  radar_timestamp = 2;
  range_nm = scaled 8;
  mode_3_code = negsuc 0;
  acp = negsuc 0;
  azimuth_degrees = minus_one;
  altitude_feet = negsuc 0;
  fingerprint = some (
      0 ∷ 20 ∷ 0 ∷ 0 ∷ 90 ∷ 72 ∷ 78 ∷ 0 ∷ 1 ∷ 0 ∷ 0 ∷ 0 ∷ 0 ∷ 0 ∷ 0 ∷ 1 ∷ 6 ∷ 0x40 ∷ 0 ∷ 0x10 ∷ []);
  alert = none;
  alert_details = none;
}

plot_at-test : plot_at sha256 now capture outer 16 4 ≡ ok (some plot)
unfolding plot_at create_plot finish_plot plot_words_loop apply_word word_has_legacy_status_bit
    classify_message flags_of message_type_of message_name decode_text is_ascii strip_trailing_null
plot_at-test = refl

plot_at-Outcome_example :
    Outcome envelope.flags (envelope_header envelope) envelope.message_name (some plot)
plot_at-Outcome_example =
    plot_at-Outcome sha256 now capture outer 16 4 envelope (some plot) envelope_at-test plot_at-test

loops_agree_example :
    (blocks : List (ℕ × ℕ)) × (end : NextBlock) × Walk payload 16 blocks end
    × AreLaidOut payload 16 blocks
    × (extract_loop outer 20 16 ≡ traverse (envelope_at outer) blocks)
    × (parse_loop sha256 now capture outer 20 16
        ≡ (traverse (plot_at sha256 now capture outer) blocks >>= λ qs. ok (cat_some qs)))
    × (validate_loop payload 20 16 ≡ ok (issue_of end))
loops_agree_example = loops_agree sha256 now capture outer 20 16 (omega arith)

extract_ecg_messages_total_example : Returns (extract_ecg_messages payload true)
extract_ecg_messages_total_example =
    extract_ecg_messages_total payload true (are_bytes-IsByte payload refl)

parse_frames_total_example : Returns (parse_frames sha256 now none none (payload ∷ [] ∷ []) true)
parse_frames_total_example =
    parse_frames_total sha256 now none none (payload ∷ [] ∷ []) true
      (are_bytes-IsByte payload refl, (tt, tt))
