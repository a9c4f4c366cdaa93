-- ===== src/Live/Writer/Alerts.antt =====
-- The alerts of a record in oad_parser/live/writer.py: those that it has, and those that are written.
use oad_parser.Common.{
  Bool, true, false, not, ◌&&◌, ◌||◌, Option, none, some, List, [], ◌∷◌, if◌then◌else◌, Result, ok,
  ◌>>=◌,
}
use oad_parser.Common.Text.{Text, codes, lower}
use oad_parser.Common.Value.{
  Value, boolean, text, binary, sequence, mapping, Fields, end, field, Python, is_null, get, put,
  has_key, mappings, clean_str, is_text, contains_text,
}
use oad_parser.Live.Writer.Warnings.{warning_dicts, scope_warning_dicts_for_record}

unfoldable pub compact_alert_fields : List Text
compact_alert_fields =
    codes "id"
    ∷ codes "name"
    ∷ codes "severity"
    ∷ codes "category"
    ∷ codes "details"
    ∷ codes "message"
    ∷ codes "event.kind"
    ∷ codes "event.category"
    ∷ codes "event.action"
    ∷ codes "event.severity"
    ∷ codes "rule.id"
    ∷ codes "rule.name"
    ∷ codes "rule.category"
    ∷ codes "operator.category"
    ∷ codes "operator.alert"
    ∷ codes "operator.subtype"
    ∷ []

abbrev raw_evidence_keys : List Text
raw_evidence_keys =
    codes "raw"
    ∷ codes "raw_payload"
    ∷ codes "payload"
    ∷ codes "packet_bytes"
    ∷ codes "frame_bytes"
    ∷ []

abbrev is_binary : Value → Bool
is_binary (binary bytes) = true
is_binary _ = false

unfoldable pub safe_evidence_item : Text → Value → Bool
safe_evidence_item key value =
    not (is_null value)
    && not (contains_text (lower key) raw_evidence_keys)
    && not (is_binary value)

unfoldable pub safe_evidence : Fields → Fields
safe_evidence end = end
safe_evidence (field key value d) =
    let rest = safe_evidence d in
    if safe_evidence_item key value then field key value rest else rest

-- `accepted is not False`
abbrev is_not_false : Value → Bool
is_not_false (boolean false) = false
is_not_false _ = true

-- Whether the parser accepted the record, under either name.
abbrev accepted_of : Fields → Value
accepted_of record' =
    let accepted = get (codes "parser_validation_accepted") record' in
    if is_null accepted then get (codes "parser.validation.accepted") record' else accepted

module _ (py : Python) where
  abbrev alert_id : Fields → Option Text
  alert_id alert = clean_str py (get (codes "id") alert)

  abbrev pub put_text : Text → Option Text → Fields → Fields
  put_text key none d = d
  put_text key (some t) d = put key (text t) d

  abbrev alert_of : Option Text → Option Text → List Fields
  alert_of none details = []
  alert_of (some t) details =
      put_text (codes "details") details (field (codes "id") (text t) end) ∷ []

  abbrev or_alert_of : List Fields → Fields → List Fields
  or_alert_of [] record' =
      alert_of (clean_str py (get (codes "alert") record'))
        (clean_str py (get (codes "alert_details") record'))
  or_alert_of (a ∷ alerts) record' = a ∷ alerts

  -- A single alert of the older form is read if there is no list.
  unfoldable pub normal_alerts : Fields → List Fields
  normal_alerts record' = or_alert_of (warning_dicts (get (codes "alerts") record')) record'

  unfoldable pub is_operator_metadata_only_alert : Fields → Bool
  is_operator_metadata_only_alert alert =
      is_text (alert_id alert) (codes "OAD-ECG-003")
      || is_text (alert_id alert) (codes "OAD-ECG-005")
      || is_text (alert_id alert) (codes "OAD-ECG-008")

  unfoldable pub is_suppressed_parse_warning_alert : Fields → Fields → Bool → Bool
  is_suppressed_parse_warning_alert record' alert emit =
      not emit
      && is_text (alert_id alert) (codes "OAD-ECG-003")
      && is_not_false (accepted_of record')

  unfoldable pub is_suppressed_modec_altitude_missing_alert : Fields → Fields → Bool → Bool
  is_suppressed_modec_altitude_missing_alert record' alert emit =
      not emit
      && is_text (alert_id alert) (codes "OAD-ECG-008")
      && is_not_false (accepted_of record')

  abbrev with_scoped : Fields → Fields → List Fields → Option Fields
  with_scoped alert evidence [] = none
  with_scoped alert evidence (w ∷ ws) = some (
      put (codes "evidence")
        (mapping (put (codes "parse_warnings") (sequence (mappings (w ∷ ws))) evidence)) alert)

  abbrev scope_evidence : Fields → Fields → Value → Result (Option Fields)
  scope_evidence record' alert (mapping evidence) =
      let scoped = (do
        warnings ←
            scope_warning_dicts_for_record py record'
              (warning_dicts (get (codes "parse_warnings") evidence))
        ok (with_scoped alert evidence warnings)) in
      if has_key (codes "parse_warnings") evidence then scoped else ok (some alert)
  scope_evidence record' alert _ = ok (some alert)

  unfoldable pub scope_parse_warning_alert_for_siem : Fields → Fields → Result (Option Fields)
  scope_parse_warning_alert_for_siem record' alert =
      if not (is_text (alert_id alert) (codes "OAD-ECG-003"))
      then ok (some alert)
      else scope_evidence record' alert (get (codes "evidence") alert)

  unfoldable pub compact_fields : List Text → Fields → Fields → Fields
  compact_fields [] alert result = result
  compact_fields (key ∷ keys) alert result =
      compact_fields keys alert (put_text key (clean_str py (get key alert)) result)

  abbrev with_evidence : Fields → Fields → Fields
  with_evidence end result = result
  with_evidence (field key value d) result =
      put (codes "evidence") (mapping (field key value d)) result

  abbrev evidence_of : Value → Fields
  evidence_of (mapping evidence) = safe_evidence evidence
  evidence_of _ = end

  unfoldable pub compact_alert : Fields → Fields
  unfolding compact_fields compact_alert_fields
  compact_alert alert =
      with_evidence (evidence_of (get (codes "evidence") alert))
        (compact_fields compact_alert_fields alert end)

  -- One round of the loop of `_compact_alerts`: whether the scoped alert is written.
  unfoldable pub is_written : Fields → Bool → Bool → Fields → Bool
  unfolding is_suppressed_parse_warning_alert is_suppressed_modec_altitude_missing_alert
  is_written record' emit_parse_warnings emit_modec alert =
      not (is_operator_metadata_only_alert alert)
      && not (is_suppressed_parse_warning_alert record' alert emit_parse_warnings)
      && not (is_suppressed_modec_altitude_missing_alert record' alert emit_modec)

  abbrev pub add_written : Fields → Bool → Bool → Option Fields → List Fields → List Fields
  add_written record' warn modec none rest = rest
  add_written record' warn modec (some alert) rest =
      if is_written record' warn modec alert then compact_alert alert ∷ rest else rest

  unfoldable pub compact_alerts_loop : Fields → Bool → Bool → List Fields → Result (List Fields)
  compact_alerts_loop record' warn modec [] = ok []
  compact_alerts_loop record' warn modec (a ∷ alerts) = do
    scoped ← scope_parse_warning_alert_for_siem record' a
    rest ← compact_alerts_loop record' warn modec alerts
    ok (add_written record' warn modec scoped rest)

  unfoldable pub compact_alerts : Fields → Bool → Bool → Result (List Fields)
  unfolding compact_alerts_loop
  compact_alerts record' warn modec = compact_alerts_loop record' warn modec (normal_alerts record')

  unfoldable pub any_actionable : List Fields → Bool
  any_actionable [] = false
  any_actionable (a ∷ alerts) = not (is_operator_metadata_only_alert a) || any_actionable alerts

  unfoldable pub has_actionable_alerts : Fields → Bool
  unfolding any_actionable
  has_actionable_alerts record' = any_actionable (normal_alerts record')
