-- ===== src/Live/Alerts/Evaluate.antt =====
-- The evaluation of oad_parser/live/alerts.py: the alerts of a record or of a parse error, their
-- overrides, and the fields that they give the record. The parser's warnings have no part in it.
use oad_parser.Common.{
  ℕ, Option, none, some, List, [], ◌∷◌, ◌++◌, Bool, true, false, not, ◌&&◌, ◌||◌, ltb,
  if◌then◌else◌, Result, ok, err, key_error, ◌>>=◌,
}
use oad_parser.Common.Text.{Text, codes}
use oad_parser.Common.Dict.{equals_text, lookup}
use oad_parser.Common.Value.{
  Value, null, text, sequence, Fields, Python, get, find, put, str, is_truthy, mappings,
}
use oad_parser.Detect.Record.{Floats}
use oad_parser.Live.Alerts.Taxonomy.{ecg_cd2_002, make_alert, severity_rank}
use oad_parser.Live.Alerts.Config.{Numbers, AlertOverride, EcgAlertConfig}
use oad_parser.Live.Alerts.Evidence.{malformed_evidence}
use oad_parser.Live.Alerts.Checks.{
  is_nonempty, alert_if, missing_required_word_alerts, checksum_alerts, configured_alerts,
}
use oad_parser.Live.Alerts.Rules.{custom_rule_alerts}

-- `str(alert.get("id")), str(alert.get("details"))`
abbrev pub alert_key : Python → Fields → Text × Text
alert_key py alert = (str py (get (codes "id") alert), str py (get (codes "details") alert))

abbrev pub equals_alert_key : Text × Text → Text × Text → Bool
equals_alert_key (id, details) (id', details') = equals_text id id' && equals_text details details'

abbrev pub is_seen : Text × Text → List (Text × Text) → Bool
is_seen key [] = false
is_seen key (k ∷ keys) = equals_alert_key k key || is_seen key keys

module _ (py : Python) where
  unfoldable pub deduplicate_loop : List (Text × Text) → List Fields → List Fields
  deduplicate_loop seen [] = []
  deduplicate_loop seen (alert ∷ alerts) = elim (is_seen (alert_key py alert) seen) [
    | true ↦ deduplicate_loop seen alerts
    | false ↦ alert ∷ deduplicate_loop (alert_key py alert ∷ seen) alerts
  ]

  unfoldable pub deduplicate_alerts : List Fields → List Fields
  deduplicate_alerts alerts = deduplicate_loop [] alerts

  abbrev pub rank_of : Fields → ℕ
  rank_of alert = severity_rank (str py (get (codes "severity") alert))

  -- `max` by the severity's rank, and by the position among equals: the first one.
  unfoldable pub select_loop : Fields → List Fields → Fields
  select_loop best [] = best
  select_loop best (alert ∷ alerts) =
      select_loop (if ltb (rank_of best) (rank_of alert) then alert else best) alerts

  -- `alert[key]`
  abbrev pub item_of : Option Value → Result Value
  item_of none = err key_error
  item_of (some v) = ok v

  unfoldable pub apply_legacy_alert_fields : Fields → List Fields → Result Fields
  apply_legacy_alert_fields record' [] = ok (
      put (codes "alert_details") null
        (put (codes "alert") null (put (codes "alerts") (sequence (mappings [])) record')))
  apply_legacy_alert_fields record' (alert ∷ alerts) =
      let selected = select_loop alert alerts in
      do
        id ← item_of (find (codes "id") selected)
        details ← item_of (find (codes "details") selected)
        ok (
            put (codes "alert_details") details (
              put (codes "alert") id
                (put (codes "alerts") (sequence (mappings (alert ∷ alerts))) record')))

  module _ (fs : Floats) (n : Numbers fs) where
    abbrev is_switched_off : Option Bool → Bool
    is_switched_off none = false
    is_switched_off (some enabled) = not enabled

    abbrev pub is_disabled : Option AlertOverride → Bool
    is_disabled none = false
    is_disabled (some override) = is_switched_off override.enabled

    abbrev pub with_severity : Option Text → Fields → Fields
    with_severity (some (c ∷ t)) alert =
        put (codes "event.severity") (text (c ∷ t)) (put (codes "severity") (text (c ∷ t)) alert)
    with_severity (some []) alert = alert
    with_severity none alert = alert

    abbrev pub overridden : Option AlertOverride → Fields → Fields
    overridden none alert = alert
    overridden (some override) alert = with_severity override.severity alert

    -- `str(alert.get("id") or "")`
    abbrev pub override_key : Fields → Text
    override_key alert = let id = get (codes "id") alert in if is_truthy id then str py id else []

    unfoldable pub override_loop : List (Text × AlertOverride) → List Fields → List Fields
    override_loop overrides [] = []
    override_loop overrides (alert ∷ alerts) =
        let rest = override_loop overrides alerts in
        let override = lookup (override_key alert) overrides in
        if is_disabled override then rest else overridden override alert ∷ rest

    unfoldable pub apply_alert_overrides : List Fields → Option (EcgAlertConfig fs) → List Fields
    apply_alert_overrides alerts none = alerts
    apply_alert_overrides alerts (some config) =
        if is_nonempty config.desired_alert_overrides
        then override_loop config.desired_alert_overrides alerts
        else alerts

    abbrev pub rules_of : Fields → Option (EcgAlertConfig fs) → List Fields
    rules_of record' none = []
    rules_of record' (some config) = custom_rule_alerts py fs n record' config

    abbrev finished : Fields → List Fields → Option (EcgAlertConfig fs) → List Fields
    finished record' alerts config =
        deduplicate_alerts (apply_alert_overrides alerts config ++ rules_of record' config)

    unfoldable pub evaluate_ecg_record_alerts :
        Fields → List ℕ → Option (EcgAlertConfig fs) → List Fields
    evaluate_ecg_record_alerts record' data_words config =
        finished record'
          (missing_required_word_alerts py record' data_words
            ++ checksum_alerts py fs n record' config
            ++ configured_alerts py fs n record' config)
          config

    unfoldable pub evaluate_ecg_parse_error_alerts :
        Fields → Text → Text → Text → Option (EcgAlertConfig fs) → List Fields
    evaluate_ecg_parse_error_alerts record' error_code error_message parser_stage config =
        finished record'
          (alert_if (not (equals_text error_code (codes "ecg_outer_message_not_surveillance"))) (
              make_alert ecg_cd2_002
                (codes
                  "Malformed ECG/CD2 frame length or message block was observed; parser emitted a rejected-frame record instead of silently dropping it.")
                (malformed_evidence record' error_code error_message parser_stage))
            ++ checksum_alerts py fs n record' config
            ++ configured_alerts py fs n record' config)
          config
