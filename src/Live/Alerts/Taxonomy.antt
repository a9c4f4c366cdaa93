-- ===== src/Live/Alerts/Taxonomy.antt =====
-- The alerts of oad_parser/live/alerts.py: their ids, definitions and severities, and `make_alert`.
use oad_parser.Common.{ℕ, String, if◌then◌else◌}
use oad_parser.Common.Text.{Text, codes}
use oad_parser.Common.Dict.{equals_text}
use oad_parser.Common.Value.{text, mapping, Fields, end, field}

-- The keys of `ALERT_DEFINITIONS`.
pub data AlertId : Type 0 where
  ecg_cd2_001 ecg_cd2_002 ecg_cd2_003 ecg_cd2_004 ecg_cd2_005 ecg_cd2_006 ecg_cd2_007 : AlertId
  oad_ecg_003 oad_ecg_005 oad_ecg_006 oad_ecg_007 oad_ecg_008 : AlertId

unfoldable pub id_text : AlertId → Text
id_text ecg_cd2_001 = codes "ECG-CD2-001"
id_text ecg_cd2_002 = codes "ECG-CD2-002"
id_text ecg_cd2_003 = codes "ECG-CD2-003"
id_text ecg_cd2_004 = codes "ECG-CD2-004"
id_text ecg_cd2_005 = codes "ECG-CD2-005"
id_text ecg_cd2_006 = codes "ECG-CD2-006"
id_text ecg_cd2_007 = codes "ECG-CD2-007"
id_text oad_ecg_003 = codes "OAD-ECG-003"
id_text oad_ecg_005 = codes "OAD-ECG-005"
id_text oad_ecg_006 = codes "OAD-ECG-006"
id_text oad_ecg_007 = codes "OAD-ECG-007"
id_text oad_ecg_008 = codes "OAD-ECG-008"

pub record AlertDefinition : Type 0 where
  pub name : Text
  pub severity : Text
  pub category : Text

abbrev defined : String → String → String → AlertDefinition
defined name severity category = record {
  name = codes name;
  severity = codes severity;
  category = codes category;
}

unfoldable pub alert_definitions : AlertId → AlertDefinition
alert_definitions ecg_cd2_001 = defined "unauthorized_source_tuple" "high" "source_integrity"
alert_definitions ecg_cd2_002 = defined "malformed_ecg_frame_length" "high" "protocol_integrity"
alert_definitions ecg_cd2_003 =
    defined "udp_checksum_bad_or_zero_unexpected" "medium" "checksum_integrity"
alert_definitions ecg_cd2_004 =
    defined "duplicate_payload_burst_or_replay" "medium" "replay_duplicate"
alert_definitions ecg_cd2_005 = defined "message_sequence_gap" "medium" "timing_anomaly"
alert_definitions ecg_cd2_006 = defined "timestamp_gap_or_stale_replay" "medium" "timing_anomaly"
alert_definitions ecg_cd2_007 = defined "site_artcc_channel_change" "high" "route_site_change"
alert_definitions oad_ecg_003 = defined "Parse warning" "medium" "parser_integrity"
alert_definitions oad_ecg_005 = defined "Unknown message type" "medium" "message_semantics"
alert_definitions oad_ecg_006 = defined "Unexpected message type" "medium" "message_semantics"
alert_definitions oad_ecg_007 = defined "Missing required radar words" "medium" "message_semantics"
alert_definitions oad_ecg_008 =
    defined "Mode C valid but altitude missing" "medium" "message_semantics"

abbrev operator_fields : String → String → String → Fields
operator_fields category alert subtype = field (codes "operator.category") (text (codes category)) (
    field (codes "operator.alert") (text (codes alert))
      (field (codes "operator.subtype") (text (codes subtype)) end))

abbrev unknown_site : String → Fields
unknown_site subtype = operator_fields "unknown_site" "New unknown site discovered." subtype

-- What `alert.update` adds: none of these keys is there before.
unfoldable pub legacy_operator_alert_taxonomy : AlertId → Fields
legacy_operator_alert_taxonomy ecg_cd2_001 = unknown_site "unauthorized_source_site_channel_tuple"
legacy_operator_alert_taxonomy ecg_cd2_002 = unknown_site "malformed_ecg_cd2_frame_length"
legacy_operator_alert_taxonomy ecg_cd2_003 = unknown_site "udp_checksum_bad_or_zero_unexpected"
legacy_operator_alert_taxonomy ecg_cd2_007 = unknown_site "site_artcc_channel_change"
legacy_operator_alert_taxonomy ecg_cd2_004 =
    operator_fields "duplicate_plot" "Duplicate plot found." "duplicate_payload_burst_or_replay"
legacy_operator_alert_taxonomy ecg_cd2_005 =
    operator_fields "sequence_delta" "Sequence delta between plots is too large."
      "sequence_gap_after_duplicate_collapse"
legacy_operator_alert_taxonomy ecg_cd2_006 =
    operator_fields "time_delta" "Time delta between plots is too large."
      "timestamp_gap_or_stale_replay"
legacy_operator_alert_taxonomy oad_ecg_003 = end
legacy_operator_alert_taxonomy oad_ecg_005 = end
legacy_operator_alert_taxonomy oad_ecg_006 = end
legacy_operator_alert_taxonomy oad_ecg_007 = end
legacy_operator_alert_taxonomy oad_ecg_008 = end

-- The dictionary of an alert, in front of other fields.
abbrev pub alert_fields : Text → Text → Text → Text → Text → Fields → Fields → Fields
alert_fields id name severity category details evidence rest = field (codes "id") (text id) (
    field (codes "name") (text name) (
      field (codes "severity") (text severity) (
        field (codes "category") (text category) (
          field (codes "details") (text details) (
            field (codes "message") (text details) (
              field (codes "event.kind") (text (codes "alert")) (
                field (codes "event.category") (text category) (
                  field (codes "event.action") (text name) (
                    field (codes "event.severity") (text severity) (
                      field (codes "rule.id") (text id) (
                        field (codes "rule.name") (text name) (
                          field (codes "rule.category") (text category)
                            (field (codes "evidence") (mapping evidence) rest)))))))))))))

unfoldable pub make_alert : AlertId → Text → Fields → Fields
unfolding id_text alert_definitions legacy_operator_alert_taxonomy
make_alert alert_id details evidence =
    let d = alert_definitions alert_id in
    alert_fields (id_text alert_id) d.name d.severity d.category details evidence
      (legacy_operator_alert_taxonomy alert_id)

-- `SEVERITY_RANK.get(severity, 0)`
unfoldable pub severity_rank : Text → ℕ
severity_rank severity =
    if equals_text severity (codes "low")
    then 10
    else if equals_text severity (codes "medium")
    then 20
    else if equals_text severity (codes "high")
    then 30
    else if equals_text severity (codes "critical")
    then 40
    else 0
