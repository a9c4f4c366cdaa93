-- ===== src/Live/Alerts/Config.antt =====
-- The alert policy of oad_parser/live/alerts.py. A `frozenset` is a list of its elements.
use oad_parser.Common.{Bool, Option, List}
use oad_parser.Common.Int.{ℤ}
use oad_parser.Common.Text.{Text}
use oad_parser.Common.Value.{Value}
use oad_parser.Detect.Record.{Floats}

-- `int(value)` and `float(value)`, where they return, and the value of a float.
pub record Numbers (fs : Floats) : Type 0 where
  pub int_of : Value → Option ℤ
  pub float_of : Value → Option fs.Float
  pub of_float : fs.Float → Value

pub record AlertOverride : Type 0 where
  pub enabled : Option Bool
  pub severity : Option Text

-- `CUSTOM_ALERT_OPERATORS`: the configuration accepts no other.
pub data CustomOperator : Type 0 where
  equals not_equals greater_than greater_than_or_equal less_than less_than_or_equal : CustomOperator
  contains does_not_contain exists does_not_exist in_list not_in_list : CustomOperator

pub record CustomAlertCondition : Type 0 where
  pub field_name : Text
  pub operator : CustomOperator
  pub value : Value

pub data Logic : Type 0 where
  all_of any_of : Logic

pub record CustomAlertRule : Type 0 where
  pub id : Text
  pub name : Text
  pub enabled : Bool
  pub severity : Text
  pub description : Text
  pub logic : Logic
  pub conditions : List CustomAlertCondition

module _ (fs : Floats) where
  pub record EcgAlertConfig : Type 0 where
    pub version : ℤ
    pub known_sites : List Text
    pub allowed_message_types : List Text
    pub allowed_message_types_by_site : List (Text × List Text)
    pub altitude_min_ft : Option ℤ
    pub altitude_max_ft : Option ℤ
    pub max_range_nm : Option fs.Float
    pub expected_channels : List ℤ
    pub expected_channels_by_site : List (Text × List ℤ)
    pub authorized_source_ips : List Text
    pub authorized_destination_ips : List Text
    pub site_source_ips : List (Text × List Text)
    pub allowed_radar_ports : List ℤ
    pub admin_workstation_ips : List Text
    pub raw_azimuth_max : Option ℤ
    pub allowed_source_tuples : List Text
    pub allowed_site_artcc_channel_tuples : List Text
    pub emit_unknown_site_alerts : Bool
    pub udp_zero_checksum_allowed : Bool
    pub duplicate_payload_window_seconds : Option fs.Float
    pub duplicate_payload_threshold : Option ℤ
    pub max_sequence_delta : Option ℤ
    pub legacy_sequence_delta_min_abs : Option ℤ
    pub legacy_sequence_delta_max_abs : Option ℤ
    pub max_radar_time_delta_seconds : Option fs.Float
    pub max_router_time_delta_seconds : Option fs.Float
    pub desired_alert_overrides : List (Text × AlertOverride)
    pub custom_rules : List CustomAlertRule
