-- ===== src/Live/Alerts/Load.antt =====
-- `load_ecg_alert_config` of oad_parser/live/alerts.py, on the value that the file holds; there is none
-- without a path or a file.
use oad_parser.Common.{
  Option, none, some, List, [], ◌∷◌, ◌++◌, Bool, true, false, not, ◌||◌, Result, ok, err,
  value_error, raise_if, ◌>>=◌, ◌>>◌,
}
use oad_parser.Common.Int.{ℤ, pos, ltb_ℤ}
use oad_parser.Common.Text.{Text, codes}
use oad_parser.Common.Value.{
  Value, boolean, integer, text, mapping, Fields, Python, get, str, equals_int, contains_text,
}
use oad_parser.Detect.Record.{Floats}
use oad_parser.Live.Writer.PolicyCheck.{keys, sorted_difference, raise_names, raise_text_if}
use oad_parser.Live.Alerts.Config.{Numbers, EcgAlertConfig}
use oad_parser.Live.Alerts.Parse.{
  alert_policy_v2_schema_version, optional_int, optional_bool, optional_float, string_set, int_set,
  string_set_map, int_set_map, alert_override_map,
}
use oad_parser.Live.Alerts.RuleFile.{get_or, or_value, custom_alert_rules}

unfoldable pub allowed_config_keys : List Text
allowed_config_keys =
    codes "schema_version"
    ∷ codes "version"
    ∷ codes "known_sites"
    ∷ codes "allowed_message_types"
    ∷ codes "allowed_message_types_by_site"
    ∷ codes "altitude_min_ft"
    ∷ codes "altitude_max_ft"
    ∷ codes "max_range_nm"
    ∷ codes "expected_channels"
    ∷ codes "expected_channels_by_site"
    ∷ codes "authorized_source_ips"
    ∷ codes "authorized_destination_ips"
    ∷ codes "site_source_ips"
    ∷ codes "allowed_radar_ports"
    ∷ codes "admin_workstation_ips"
    ∷ codes "raw_azimuth_max"
    ∷ codes "allowed_source_tuples"
    ∷ codes "allowed_site_artcc_channel_tuples"
    ∷ codes "emit_unknown_site_alerts"
    ∷ codes "udp_zero_checksum_allowed"
    ∷ codes "duplicate_payload_window_seconds"
    ∷ codes "duplicate_payload_threshold"
    ∷ codes "max_sequence_delta"
    ∷ codes "legacy_sequence_delta_min_abs"
    ∷ codes "legacy_sequence_delta_max_abs"
    ∷ codes "max_radar_time_delta_seconds"
    ∷ codes "max_router_time_delta_seconds"
    ∷ codes "desired_alert_overrides"
    ∷ codes "custom_rules"
    ∷ []

abbrev schema_versions : List Text
schema_versions =
    []
    ∷ codes "2026-06-15.phase6a"
    ∷ codes "2026-06-15.phase6b"
    ∷ alert_policy_v2_schema_version
    ∷ []

-- A test of a number that may be missing, and of two.
abbrev holds_of {ℓ} : {A : Type ℓ} → (A → Bool) → Option A → Bool
holds_of test none = false
holds_of test (some a) = test a

abbrev is_above : Option ℤ → Option ℤ → Bool
is_above (some a) (some b) = ltb_ℤ b a
is_above (some a) none = false
is_above none b = false

abbrev is_one : Option ℤ → Bool
is_one none = false
is_one (some n) = equals_int n (pos 1)

abbrev is_no_byte : ℤ → Bool
is_no_byte n = ltb_ℤ n (pos 0) || ltb_ℤ (pos 255) n

module _ (py : Python) (sha1_hex : Text → Text) (fs : Floats) (n : Numbers fs) where
  abbrev is_negative : fs.Float → Bool
  is_negative x = fs.lt x fs.zero_degrees

  -- The limits that depend on each other, or have a range.
  pub record AlertLimits : Type 0 where
    pub altitude_min : Option ℤ
    pub altitude_max : Option ℤ
    pub max_range : Option fs.Float
    pub raw_azimuth_max : Option ℤ
    pub duplicate_payload_window_seconds : Option fs.Float
    pub duplicate_payload_threshold : Option ℤ
    pub max_sequence_delta : Option ℤ
    pub legacy_sequence_delta_min_abs : Option ℤ
    pub legacy_sequence_delta_max_abs : Option ℤ
    pub max_radar_time_delta_seconds : Option fs.Float
    pub max_router_time_delta_seconds : Option fs.Float

  unfoldable pub read_limits : Fields → Result AlertLimits
  read_limits d = do
    altitude_min ← optional_int (get (codes "altitude_min_ft") d) (codes "altitude_min_ft")
    altitude_max ← optional_int (get (codes "altitude_max_ft") d) (codes "altitude_max_ft")
    raise_if (is_above altitude_min altitude_max)
        (value_error "altitude_min_ft must be <= altitude_max_ft")
    max_range ← optional_float fs n (get (codes "max_range_nm") d) (codes "max_range_nm")
    raise_if (holds_of is_negative max_range) (value_error "max_range_nm must be >= 0")
    raw_azimuth_max ← optional_int (get (codes "raw_azimuth_max") d) (codes "raw_azimuth_max")
    raise_if (holds_of (λ i. ltb_ℤ i (pos 0)) raw_azimuth_max)
        (value_error "raw_azimuth_max must be >= 0")
    window ←
        optional_float fs n (get (codes "duplicate_payload_window_seconds") d)
          (codes "duplicate_payload_window_seconds")
    raise_if (holds_of (λ x. fs.le x fs.zero_degrees) window)
        (value_error "duplicate_payload_window_seconds must be > 0")
    threshold ←
        optional_int (get (codes "duplicate_payload_threshold") d)
          (codes "duplicate_payload_threshold")
    raise_if (holds_of (λ i. ltb_ℤ i (pos 2)) threshold)
        (value_error "duplicate_payload_threshold must be >= 2")
    maximum ← optional_int (get (codes "max_sequence_delta") d) (codes "max_sequence_delta")
    raise_if (holds_of is_no_byte maximum)
        (value_error "max_sequence_delta must be between 0 and 255")
    legacy_min ←
        optional_int (get (codes "legacy_sequence_delta_min_abs") d)
          (codes "legacy_sequence_delta_min_abs")
    raise_if (holds_of is_no_byte legacy_min)
        (value_error "legacy_sequence_delta_min_abs must be between 0 and 255")
    legacy_max ←
        optional_int (get (codes "legacy_sequence_delta_max_abs") d)
          (codes "legacy_sequence_delta_max_abs")
    raise_if (holds_of is_no_byte legacy_max)
        (value_error "legacy_sequence_delta_max_abs must be between 0 and 255")
    raise_if (is_above legacy_min legacy_max)
        (value_error "legacy_sequence_delta_min_abs must be <= legacy_sequence_delta_max_abs")
    radar ←
        optional_float fs n (get (codes "max_radar_time_delta_seconds") d)
          (codes "max_radar_time_delta_seconds")
    raise_if (holds_of is_negative radar) (value_error "max_radar_time_delta_seconds must be >= 0")
    router ←
        optional_float fs n (get (codes "max_router_time_delta_seconds") d)
          (codes "max_router_time_delta_seconds")
    raise_if (holds_of is_negative router)
        (value_error "max_router_time_delta_seconds must be >= 0")
    ok (record {
      altitude_min = altitude_min;
      altitude_max = altitude_max;
      max_range = max_range;
      raw_azimuth_max = raw_azimuth_max;
      duplicate_payload_window_seconds = window;
      duplicate_payload_threshold = threshold;
      max_sequence_delta = maximum;
      legacy_sequence_delta_min_abs = legacy_min;
      legacy_sequence_delta_max_abs = legacy_max;
      max_radar_time_delta_seconds = radar;
      max_router_time_delta_seconds = router;
    })

  unfoldable pub config_of : Fields → Result (EcgAlertConfig fs)
  unfolding allowed_config_keys read_limits
  config_of d = do
    raise_names (codes "ECG alert config has unknown keys: ")
        (sorted_difference allowed_config_keys (keys d))
    version ← optional_int (get_or (codes "version") (integer (pos 1)) d) (codes "version")
    raise_if (not (is_one version)) (value_error "ECG alert config version must be 1")
    let schema_version = str py (or_value (get (codes "schema_version") d) (text []))
    raise_text_if (not (contains_text schema_version schema_versions))
        (codes "Unsupported ECG alert config schema_version: " ++ schema_version)
    limits ← read_limits d
    overrides ← alert_override_map (get (codes "desired_alert_overrides") d) schema_version
    custom_rules ← custom_alert_rules py sha1_hex (get (codes "custom_rules") d) schema_version
    known_sites ← string_set (get (codes "known_sites") d) (codes "known_sites")
    types ← string_set (get (codes "allowed_message_types") d) (codes "allowed_message_types")
    types_by_site ←
        string_set_map (get (codes "allowed_message_types_by_site") d)
          (codes "allowed_message_types_by_site")
    channels ← int_set (get (codes "expected_channels") d) (codes "expected_channels")
    channels_by_site ←
        int_set_map (get (codes "expected_channels_by_site") d) (codes "expected_channels_by_site")
    sources ← string_set (get (codes "authorized_source_ips") d) (codes "authorized_source_ips")
    destinations ←
        string_set (get (codes "authorized_destination_ips") d) (codes "authorized_destination_ips")
    site_sources ← string_set_map (get (codes "site_source_ips") d) (codes "site_source_ips")
    ports ← int_set (get (codes "allowed_radar_ports") d) (codes "allowed_radar_ports")
    admins ← string_set (get (codes "admin_workstation_ips") d) (codes "admin_workstation_ips")
    source_tuples ←
        string_set (get (codes "allowed_source_tuples") d) (codes "allowed_source_tuples")
    site_tuples ←
        string_set (get (codes "allowed_site_artcc_channel_tuples") d)
          (codes "allowed_site_artcc_channel_tuples")
    emit_unknown ←
        optional_bool (get_or (codes "emit_unknown_site_alerts") (boolean true) d)
          (codes "emit_unknown_site_alerts")
    zero_allowed ←
        optional_bool (get_or (codes "udp_zero_checksum_allowed") (boolean true) d)
          (codes "udp_zero_checksum_allowed")
    ok (record {
      version = pos 1;
      known_sites = known_sites;
      allowed_message_types = types;
      allowed_message_types_by_site = types_by_site;
      altitude_min_ft = limits.altitude_min;
      altitude_max_ft = limits.altitude_max;
      max_range_nm = limits.max_range;
      expected_channels = channels;
      expected_channels_by_site = channels_by_site;
      authorized_source_ips = sources;
      authorized_destination_ips = destinations;
      site_source_ips = site_sources;
      allowed_radar_ports = ports;
      admin_workstation_ips = admins;
      raw_azimuth_max = limits.raw_azimuth_max;
      allowed_source_tuples = source_tuples;
      allowed_site_artcc_channel_tuples = site_tuples;
      emit_unknown_site_alerts = emit_unknown;
      udp_zero_checksum_allowed = zero_allowed;
      duplicate_payload_window_seconds = limits.duplicate_payload_window_seconds;
      duplicate_payload_threshold = limits.duplicate_payload_threshold;
      max_sequence_delta = limits.max_sequence_delta;
      legacy_sequence_delta_min_abs = limits.legacy_sequence_delta_min_abs;
      legacy_sequence_delta_max_abs = limits.legacy_sequence_delta_max_abs;
      max_radar_time_delta_seconds = limits.max_radar_time_delta_seconds;
      max_router_time_delta_seconds = limits.max_router_time_delta_seconds;
      desired_alert_overrides = overrides;
      custom_rules = custom_rules;
    })

  unfoldable pub load_ecg_alert_config : Option Value → Result (Option (EcgAlertConfig fs))
  load_ecg_alert_config none = ok none
  load_ecg_alert_config (some (mapping d)) = do config ← config_of d; ok (some config)
  load_ecg_alert_config (some _) = err (value_error "ECG alert config must be a JSON object")
