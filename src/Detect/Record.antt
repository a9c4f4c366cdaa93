-- ===== src/Detect/Record.antt =====
-- The records, state, findings and settings of oad_parser/detectors/state.py. Its floats are a
-- parameter: a type with the operations that the rules use.
use oad_parser.Common.{ℕ, Bool, Option, List}
use oad_parser.Common.Int.{ℤ}
use oad_parser.Common.Text.{Text}
use oad_parser.Ecg.Block.{MessageType}

-- The operations on `float` that the rules use, and three of its literals.
pub record Floats : Type 1 where
  pub Float : Type 0
  pub sub : Float → Float → Float
  pub abs : Float → Float
  pub modulo : Float → Float → Float
  pub lt : Float → Float → Bool
  pub le : Float → Float → Bool
  pub round_2 : Float → Float
  pub zero_degrees : Float
  pub full_circle : Float

-- The rule names, and the alert texts: "RTQC", "Duplicate plot found.", "plot detected at an
-- impossible range.", "New unknown site discovered.", "Sequence delta between plots is too large.",
-- "Sequence Delta", "Time delta between plots is too large.", "plot detected outside the radar
-- detection lobe." and "Azimuth Jump".
pub data Rule : Type 0 where
  rtqc_rule fingerprint_rule range_rule site_discovery_rule sequence_rule : Rule
  time_delta_rule azimuth_rule : Rule

pub data Alert : Type 0 where
  rtqc_alert duplicate_plot_found impossible_range_alert new_unknown_site : Alert
  sequence_too_large sequence_delta_alert time_delta_too_large outside_lobe azimuth_jump : Alert

module _ (fs : Floats) where
  -- `details` of a finding: the f-string of the source with its values.
  pub data Details : Type 0 where
    rtqc_detected : Details
    originally_transmitted_at : Text → Details
    impossible_range : fs.Float → Details
    discovered_after_window : Text → Details
    sequence_delta_is : ℤ → Details
    sequence_delta_exceeds : ℤ → ℤ → Details
    time_delta_is : fs.Float → Details
    azimuth_deltas : fs.Float → fs.Float → Details
    azimuth_jump_exceeds : fs.Float → fs.Float → Details

  -- `DetectionFinding`
  pub record Finding : Type 0 where
    pub rule : Rule
    pub alert : Alert
    pub details : Details

  -- The fields of `ParsedPlot` that the rules read or write; a `None` is a `none`.
  pub record Plot : Type 0 where
    pub timestamp : Option Text
    pub artcc : Option Text
    pub site_id : Option Text
    pub sequence : Option ℤ
    pub sequence_delta : Option ℤ
    pub channel : Option ℕ
    pub message_type : Option MessageType
    pub router_timestamp : Option fs.Float
    pub router_time_delta : Option fs.Float
    pub radar_timestamp : Option fs.Float
    pub radar_time_delta : Option fs.Float
    pub range_nm : Option fs.Float
    pub azimuth_degrees : Option fs.Float
    pub fingerprint : Option Text
    pub alert : Option Alert
    pub alert_details : List Finding

  -- `DetectionConfig`
  pub record DetectionConfig : Type 0 where
    pub discovery_window_records : ℤ
    pub max_sequence_delta : Option ℤ
    pub max_radar_time_delta_seconds : Option fs.Float
    pub min_range_nm : Option fs.Float
    pub max_range_nm : Option fs.Float
    pub max_azimuth_jump_degrees : Option fs.Float
    pub azimuth_window_seconds : Option fs.Float
    pub legacy_sequence_delta : Bool

  pub record SiteState : Type 0 where
    pub last_sequence : Option ℤ
    pub last_router_timestamp : Option fs.Float
    pub last_radar_timestamp : Option fs.Float
    pub last_azimuth_degrees : Option fs.Float
    pub window_start_radar_timestamp : Option fs.Float
    pub min_azimuth_degrees : fs.Float
    pub max_azimuth_degrees : fs.Float

  -- `DetectionEngine`; a dictionary is a list of its entries, the last written first.
  pub record DetectionEngine : Type 0 where
    pub config : DetectionConfig
    pub record_count : ℕ
    pub sites : List (Text × SiteState)
    pub fingerprints : List (Text × Text)
