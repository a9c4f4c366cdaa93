-- ===== src/Tests/Detect.antt =====
-- A run of records of two sites, for oad_parser/detectors/state.py, with whole thousandths in place
-- of floats.
use oad_parser.Common.{
  ℕ, ◌+◌, ◌-◌, ◌%◌, ◌<◌, ◌≡◌, ◌↔◌, refl, arith, true, false, none, some, List, [], ◌∷◌, ltb, leb,
}
use oad_parser.Common.Int.{pos}
use oad_parser.Common.Text.{Text}
use oad_parser.Common.Dict.{lookup}
use oad_parser.Detect.Record.{Floats, Plot, DetectionConfig, SiteState, DetectionEngine}
use oad_parser.Detect.Rules.{detect_sequence, detect_duplicate_fingerprint}
use oad_parser.Detect.Engine.{process_records}
use oad_parser.Detect.Sequence.{is_nonempty, detect_sequence-delta}
use oad_parser.Detect.Duplicates.{occurs, detect_duplicate_fingerprint-occurs}
use oad_parser.Detect.Sites.{tracked, last_sequence_of, process_records-last_sequence_of}

abbrev pub thousandths : Floats
thousandths = record {
  Float = ℕ;
  sub = λ a b. a - b;
  abs = λ a. a;
  modulo = λ a b. a % b;
  lt = ltb;
  le = leb;
  round_2 = λ a. a;
  zero_degrees = 0;
  full_circle = 360000;
}

abbrev config : DetectionConfig thousandths
config = record {
  discovery_window_records = pos 100;
  max_sequence_delta = some (pos 10);
  max_radar_time_delta_seconds = none;
  min_range_nm = none;
  max_range_nm = some 300000;
  max_azimuth_jump_degrees = some 45000;
  azimuth_window_seconds = some 1000;
  legacy_sequence_delta = false;
}

abbrev plot_of : Text → ℕ → Text → Plot thousandths
plot_of site sequence fingerprint = record {
  timestamp = some (49 ∷ []);
  artcc = some (90 ∷ []);
  site_id = some site;
  sequence = some (pos sequence);
  sequence_delta = none;
  channel = some 1;
  message_type = none;
  router_timestamp = some 0;
  router_time_delta = none;
  radar_timestamp = some 0;
  radar_time_delta = none;
  range_nm = some 5000;
  azimuth_degrees = some 90000;
  fingerprint = some fingerprint;
  alert = none;
  alert_details = [];
}

abbrev engine : DetectionEngine thousandths
engine = record { config = config; record_count = 0; sites = []; fingerprints = [] }

abbrev plots : List (Text × Plot thousandths)
plots =
    ([], plot_of (65 ∷ []) 250 (1 ∷ []))
    ∷ ([], plot_of (66 ∷ []) 9 (2 ∷ []))
    ∷ ([], plot_of (65 ∷ []) 3 (1 ∷ []))
    ∷ []

-- The key "Z_A".
abbrev key_a : Text
key_a = 90 ∷ 95 ∷ 65 ∷ []

process_records-last_sequence_of_example :
    tracked thousandths (lookup key_a (process_records thousandths plots engine).0.sites)
    ≡ last_sequence_of thousandths key_a plots (tracked thousandths (lookup key_a engine.sites))
process_records-last_sequence_of_example =
    process_records-last_sequence_of thousandths key_a plots engine refl

detect_duplicate_fingerprint-occurs_example :
    is_nonempty
      (detect_duplicate_fingerprint thousandths []
        (plot_of (66 ∷ []) 4 (1 ∷ []))
        (process_records thousandths plots engine).0.fingerprints).0
    ≡ occurs thousandths (1 ∷ []) plots
detect_duplicate_fingerprint-occurs_example =
    detect_duplicate_fingerprint-occurs thousandths plots engine [] (plot_of (66 ∷ []) 4 (1 ∷ []))
      refl refl

abbrev state : SiteState thousandths
state = record {
  last_sequence = some (pos 250);
  last_router_timestamp = none;
  last_radar_timestamp = none;
  last_azimuth_degrees = none;
  window_start_radar_timestamp = none;
  min_azimuth_degrees = 0;
  max_azimuth_degrees = 0;
}

detect_sequence-delta_example :
    (delta : ℕ) × (delta < 256)
    × ((250 + delta) % 256 ≡ 3)
    × ((detect_sequence thousandths config (plot_of (65 ∷ []) 3 []) state).1.sequence_delta
        ≡ some (pos delta))
    × ((is_nonempty (detect_sequence thousandths config (plot_of (65 ∷ []) 3 []) state).0 ≡ true)
        ↔ (10 < delta))
detect_sequence-delta_example =
    detect_sequence-delta thousandths config (plot_of (65 ∷ []) 3 []) state 10 3 250 refl refl refl
      refl (omega arith) (omega arith)
