-- ===== src/Tests/Alerts.antt =====
-- A record and a policy for oad_parser/live/alerts.py.
use oad_parser.Common.{refl, true, false, none, some, List, [], ◌∷◌}
use oad_parser.Common.Int.{pos}
use oad_parser.Common.Text.{codes}
use oad_parser.Common.Value.{Value, boolean, integer, text, Fields, end, field, find}
use oad_parser.Tests.Writer.{python}
use oad_parser.Tests.Detect.{thousandths}
use oad_parser.Live.Alerts.Config.{Numbers, EcgAlertConfig, equals, any_of}
use oad_parser.Live.Alerts.Evaluate.{evaluate_ecg_record_alerts}
use oad_parser.Live.Alerts.Distinct.{
  AreDistinct, AreReported, raised_alerts, evaluate_ecg_record_alerts-AreDistinct,
}
use oad_parser.Live.Alerts.Disabled.{IsOther, evaluate_ecg_record_alerts-disabled}
use oad_parser.Live.Alerts.Selected.{IsSelected, apply_legacy_alert_fields-IsSelected}
use oad_parser.Common.{All}

abbrev pub numbers : Numbers thousandths
numbers = record {
  int_of = λ v. elim v [ integer n ↦ some n | _ ↦ none ];
  float_of = λ v. elim v [ integer (pos n) ↦ some n | _ ↦ none ];
  of_float = λ n. integer (pos n);
}

abbrev plot_record : Fields
plot_record = field (codes "site_id") (text (codes "ABC")) (
    field (codes "source_ip") (text (codes "10.0.0.9"))
      (field (codes "udp_checksum_valid") (boolean false) end))

-- Sources are checked, but their alert is switched off; a rule looks at the site.
abbrev pub policy : EcgAlertConfig thousandths
policy = record {
  version = pos 1;
  known_sites = codes "XYZ" ∷ [];
  allowed_message_types = [];
  allowed_message_types_by_site = [];
  altitude_min_ft = none;
  altitude_max_ft = none;
  max_range_nm = none;
  expected_channels = [];
  expected_channels_by_site = [];
  authorized_source_ips = codes "10.0.0.1" ∷ [];
  authorized_destination_ips = [];
  site_source_ips = [];
  allowed_radar_ports = [];
  admin_workstation_ips = [];
  raw_azimuth_max = none;
  allowed_source_tuples = [];
  allowed_site_artcc_channel_tuples = [];
  emit_unknown_site_alerts = true;
  udp_zero_checksum_allowed = true;
  duplicate_payload_window_seconds = some 1000;
  duplicate_payload_threshold = some (pos 6);
  max_sequence_delta = none;
  legacy_sequence_delta_min_abs = some (pos 15);
  legacy_sequence_delta_max_abs = some (pos 240);
  max_radar_time_delta_seconds = some 5000;
  max_router_time_delta_seconds = some 5000;
  desired_alert_overrides =
      (codes "ECG-CD2-001", record { enabled = some false; severity = none }) ∷ [];
  custom_rules =
      record {
        id = codes "SITE-1";
        name = codes "Site";
        enabled = true;
        severity = codes "critical";
        description = [];
        logic = any_of;
        conditions =
            record {
              field_name = codes "cd2.site.id";
              operator = equals;
              value = text (codes "ABC");
            }
            ∷ [];
      }
      ∷ [];
}

evaluate_ecg_record_alerts-AreDistinct_example :
    AreDistinct python
      (evaluate_ecg_record_alerts python thousandths numbers plot_record [] (some policy))
    × AreReported python
        (evaluate_ecg_record_alerts python thousandths numbers plot_record [] (some policy))
        (raised_alerts python thousandths numbers plot_record [] (some policy))
evaluate_ecg_record_alerts-AreDistinct_example =
    evaluate_ecg_record_alerts-AreDistinct python thousandths numbers plot_record [] (some policy)

evaluate_ecg_record_alerts-disabled_example :
    All
      (IsOther python thousandths numbers (codes "ECG-CD2-001"))
      (evaluate_ecg_record_alerts python thousandths numbers plot_record [] (some policy))
evaluate_ecg_record_alerts-disabled_example =
    evaluate_ecg_record_alerts-disabled python thousandths numbers (codes "ECG-CD2-001") plot_record
      [] policy refl (refl, tt)

abbrev alert_of : Value → Value → Fields
alert_of id severity =
    field (codes "id") id
      (field (codes "severity") severity (field (codes "details") (text (codes "d")) end))

abbrev medium_alert : Fields
medium_alert = alert_of (text (codes "ECG-CD2-005")) (text (codes "medium"))

abbrev high_alerts : List Fields
high_alerts =
    alert_of (text (codes "ECG-CD2-001")) (text (codes "high"))
    ∷ alert_of (text (codes "ECG-CD2-007")) (text (codes "high"))
    ∷ []

apply_legacy_alert_fields-IsSelected_example :
    (d : Fields) × (best : Fields) × IsSelected python plot_record
      (medium_alert ∷ high_alerts)
      d
      best
unfolding find
apply_legacy_alert_fields-IsSelected_example =
    apply_legacy_alert_fields-IsSelected python plot_record medium_alert high_alerts
      (((_, refl), (_, refl)), (((_, refl), (_, refl)), (((_, refl), (_, refl)), tt)))
