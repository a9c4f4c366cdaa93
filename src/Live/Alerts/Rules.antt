-- ===== src/Live/Alerts/Rules.antt =====
-- The custom rules of oad_parser/live/alerts.py: the test of a condition, and the alerts of the rules.
use oad_parser.Common.{
  Option, none, some, List, [], ◌∷◌, Bool, true, false, not, ◌&&◌, ◌||◌, ◌==◌, ℕ, ◌+◌, map,
  if◌then◌else◌,
}
use oad_parser.Common.Text.{Text, codes, starts_with}
use oad_parser.Common.Dict.{equals_text, lookup}
use oad_parser.Common.Value.{
  Value, null, boolean, text, sequence, mapping, Items, done, item, Fields, end, field, Python, get,
  has_key, items_of, str, equals_key, mappings,
}
use oad_parser.Detect.Record.{Floats}
use oad_parser.Live.Alerts.Taxonomy.{alert_fields}
use oad_parser.Live.Alerts.Config.{
  Numbers, CustomOperator, equals, not_equals, greater_than, greater_than_or_equal, less_than,
  less_than_or_equal, contains, does_not_contain, exists, does_not_exist, in_list, not_in_list,
  CustomAlertCondition, Logic, all_of, any_of, CustomAlertRule, EcgAlertConfig,
}

abbrev size_of : Fields → ℕ
size_of end = 0
size_of (field k v d) = 1 + size_of d

-- `==` between any values: of lists by their elements, of dictionaries by their keys.
unfoldable mutual
  equals_value : Value → Value → Bool
  equals_value (sequence xs) (sequence ys) = equals_items xs ys
  equals_value (sequence xs) w = false
  equals_value (mapping d) (mapping e) = (size_of d == size_of e) && equals_fields d e
  equals_value (mapping d) w = false
  equals_value v w = equals_key v w

  equals_items : Items → Items → Bool
  equals_items done done = true
  equals_items done (item w ys) = false
  equals_items (item v xs) done = false
  equals_items (item v xs) (item w ys) = equals_value v w && equals_items xs ys

  equals_fields : Fields → Fields → Bool
  equals_fields end e = true
  equals_fields (field k v d) e = has_key k e && equals_value v (get k e) && equals_fields d e

-- `part in text`
unfoldable pub has_part : Text → Text → Bool
has_part part [] = starts_with [] part
has_part part (c ∷ t) = starts_with (c ∷ t) part || has_part part t

unfoldable pub field_aliases : List (Text × Text)
field_aliases =
    (codes "observer.ingress.interface", codes "interface")
    ∷ (codes "source.ip", codes "source_ip")
    ∷ (codes "destination.ip", codes "destination_ip")
    ∷ (codes "source.port", codes "source_port")
    ∷ (codes "destination.port", codes "destination_port")
    ∷ (codes "network.bytes", codes "network_bytes")
    ∷ (codes "udp.length", codes "udp_length")
    ∷ (codes "udp.payload.length", codes "udp_payload_length")
    ∷ (codes "udp.checksum.valid", codes "udp_checksum_valid")
    ∷ (codes "udp.checksum.value_hex", codes "udp_checksum_hex")
    ∷ (codes "ecg.frame.length.claimed", codes "ecg_frame_length_claimed")
    ∷ (codes "ecg.frame.length.expected", codes "ecg_frame_length_expected")
    ∷ (codes "ecg.frame.length_valid", codes "ecg_frame_length_valid")
    ∷ (codes "ecg.artcc", codes "artcc")
    ∷ (codes "ecg.outer_message.code", codes "ecg_message")
    ∷ (codes "ecg.outer_message.name", codes "outer_message_name")
    ∷ (codes "cd2.site.id", codes "site_id")
    ∷ (codes "cd2.message.code", codes "message_code")
    ∷ (codes "cd2.message.name", codes "message")
    ∷ (codes "cd2.sequence", codes "sequence")
    ∷ (codes "cd2.channel", codes "channel")
    ∷ (codes "cd2.channel_raw_byte", codes "channel_raw_byte")
    ∷ (codes "ecg.router.timestamp_sec", codes "router_timestamp")
    ∷ (codes "cd2.radar.timestamp_sec", codes "radar_timestamp")
    ∷ (codes "radar.subtypes", codes "radar_subtypes")
    ∷ (codes "radar.range_nm", codes "range_nm")
    ∷ (codes "radar.acp", codes "acp")
    ∷ (codes "radar.azimuth_degrees", codes "azimuth_degrees")
    ∷ (codes "radar.mode_3_code", codes "mode_3_code")
    ∷ (codes "radar.altitude_feet", codes "altitude_feet")
    ∷ (codes "hash.payload.sha256", codes "hash_payload_sha256")
    ∷ (codes "hash.message.sha256", codes "hash_message_sha256")
    ∷ (codes "ecg.fingerprint", codes "fingerprint")
    ∷ (codes "parser.validation.accepted", codes "parser_validation_accepted")
    ∷ (codes "parser.validation.drop_reason", codes "parser_validation_drop_reason")
    ∷ (codes "parser.validation.warnings", codes "parse_warnings")
    ∷ (codes "security.sequence.delta", codes "sequence_delta")
    ∷ []

abbrev present : Value → Option Value
present null = none
present v = some v

abbrev under_alias : Option Text → Fields → Option Value
under_alias none record' = none
under_alias (some alias) record' = present (get alias record')

abbrev or_else : Option Value → Option Value → Option Value
or_else (some v) second = some v
or_else none second = second

-- A value that is there and not `None`, under the name or its alias.
unfoldable pub record_field_value : Fields → Text → Option Value
record_field_value record' name =
    or_else (present (get name record')) (under_alias (lookup name field_aliases) record')

unfoldable pub values_equal : Python → Value → Value → Bool
unfolding equals_value
values_equal py actual expected =
    equals_value actual expected || equals_text (str py actual) (str py expected)

abbrev any_equal : Python → Value → List Value → Bool
any_equal py actual [] = false
any_equal py actual (v ∷ vs) = values_equal py actual v || any_equal py actual vs

-- `expected if isinstance(expected, list) else []`
abbrev list_or_empty : Value → List Value
list_or_empty (sequence vs) = items_of vs
list_or_empty _ = []

abbrev pub operator_name : CustomOperator → Text
operator_name equals = codes "equals"
operator_name not_equals = codes "not_equals"
operator_name greater_than = codes "greater_than"
operator_name greater_than_or_equal = codes "greater_than_or_equal"
operator_name less_than = codes "less_than"
operator_name less_than_or_equal = codes "less_than_or_equal"
operator_name contains = codes "contains"
operator_name does_not_contain = codes "does_not_contain"
operator_name exists = codes "exists"
operator_name does_not_exist = codes "does_not_exist"
operator_name in_list = codes "in_list"
operator_name not_in_list = codes "not_in_list"

abbrev logic_name : Logic → Text
logic_name all_of = codes "ALL"
logic_name any_of = codes "ANY"

abbrev all_true : List Bool → Bool
all_true [] = true
all_true (b ∷ bs) = b && all_true bs

abbrev any_true : List Bool → Bool
any_true [] = false
any_true (b ∷ bs) = b || any_true bs

abbrev matched : Logic → List Bool → Bool
matched all_of matches = all_true matches
matched any_of matches = any_true matches

abbrev or_default_details : Text → Text
or_default_details [] = codes "Custom alert rule matched."
or_default_details (c ∷ t) = c ∷ t

module _ (py : Python) (fs : Floats) (n : Numbers fs) where
  unfoldable pub as_float : Value → Option fs.Float
  as_float null = none
  as_float v = n.float_of v

  abbrev numbers_hold : (fs.Float → fs.Float → Bool) → Option fs.Float → Option fs.Float → Bool
  numbers_hold test (some a) (some b) = test a b
  numbers_hold test (some a) none = false
  numbers_hold test none b = false

  abbrev value_matches : CustomOperator → Value → Value → Bool
  value_matches equals actual expected = values_equal py actual expected
  value_matches not_equals actual expected = not (values_equal py actual expected)
  value_matches contains actual expected = has_part (str py expected) (str py actual)
  value_matches does_not_contain actual expected = not (has_part (str py expected) (str py actual))
  value_matches in_list actual expected = any_equal py actual (list_or_empty expected)
  value_matches not_in_list actual expected = not (any_equal py actual (list_or_empty expected))
  value_matches greater_than actual expected =
      numbers_hold (λ a b. fs.lt b a) (as_float actual) (as_float expected)
  value_matches greater_than_or_equal actual expected =
      numbers_hold (λ a b. fs.le b a) (as_float actual) (as_float expected)
  value_matches less_than actual expected =
      numbers_hold (λ a b. fs.lt a b) (as_float actual) (as_float expected)
  value_matches less_than_or_equal actual expected =
      numbers_hold (λ a b. fs.le a b) (as_float actual) (as_float expected)
  value_matches exists actual expected = true
  value_matches does_not_exist actual expected = false

  -- Of a field that is not there, only `does_not_exist` holds.
  abbrev found_matches : CustomOperator → Option Value → Value → Bool
  found_matches does_not_exist none expected = true
  found_matches operator none expected = false
  found_matches operator (some actual) expected = value_matches operator actual expected

  unfoldable pub condition_matches : Fields → CustomAlertCondition → Bool
  condition_matches record' condition =
      found_matches condition.operator (record_field_value record' condition.field_name)
        condition.value

  abbrev condition_fields : CustomAlertCondition → Bool → Fields
  condition_fields condition holds = field (codes "field") (text condition.field_name) (
      field (codes "operator") (text (operator_name condition.operator))
        (field (codes "matched") (boolean holds) end))

  abbrev rule_evidence : Fields → CustomAlertRule → Fields
  rule_evidence record' rule = field (codes "logic") (text (logic_name rule.logic)) (
      field (codes "conditions")
        (sequence
          (mappings (map (λ c. condition_fields c (condition_matches record' c)) rule.conditions)))
        end)

  abbrev pub rule_alert : Fields → CustomAlertRule → Fields
  rule_alert record' rule =
      alert_fields rule.id rule.name rule.severity (codes "custom")
        (or_default_details rule.description) (rule_evidence record' rule) end

  abbrev pub rule_applies : Fields → CustomAlertRule → Bool
  rule_applies record' rule =
      rule.enabled && matched rule.logic (map (condition_matches record') rule.conditions)

  unfoldable pub rule_alerts : Fields → List CustomAlertRule → List Fields
  rule_alerts record' [] = []
  rule_alerts record' (rule ∷ rules) =
      let rest = rule_alerts record' rules in
      if rule_applies record' rule then rule_alert record' rule ∷ rest else rest

  unfoldable pub custom_rule_alerts : Fields → EcgAlertConfig fs → List Fields
  custom_rule_alerts record' config = rule_alerts record' config.custom_rules
