-- ===== src/Live/Writer/Compact.antt =====
-- What a record becomes before it is written: `_compact_live_record` of oad_parser/live/writer.py.
use oad_parser.Common.{
  Bool, false, not, ◌&&◌, ◌||◌, Option, none, some, List, [], ◌∷◌, ◌++◌, if◌then◌else◌, Result, ok,
  ◌>>=◌,
}
use oad_parser.Common.Int.{negsuc}
use oad_parser.Common.Text.{Text, codes}
use oad_parser.Common.Dict.{equals_text, lookup}
use oad_parser.Common.Value.{
  Value, null, boolean, integer, floating, text, sequence, mapping, Items, done, item, Fields, end,
  field, Python, is_null, get, put, set_default, mappings, clean_str, is_text, str,
  equals_text_value, equals_whole,
}
use oad_parser.Live.Writer.Fields.{siem_event_fields, siem_full_event_fields, siem_field_renames}
use oad_parser.Live.Writer.Warnings.{scope_parser_validation_warnings_for_siem}
use oad_parser.Live.Writer.Alerts.{normal_alerts, compact_alerts}

-- The keyword arguments.
pub record CompactOptions : Type 0 where
  pub include_debug_evidence : Bool
  pub emit_parse_warning_alerts : Bool
  pub emit_modec_altitude_missing_alerts : Bool
  pub data_stream_type : Text
  pub data_stream_dataset : Text
  pub event_dataset : Text
  pub service_name : Text

-- SIEM_FIELD_RENAMES.get(key, key)
abbrev or_key : Text → Option Text → Text
or_key key none = key
or_key key (some renamed) = renamed

unfoldable pub output_key_of : Text → Text
unfolding siem_field_renames
output_key_of key = or_key key (lookup key siem_field_renames)

-- A value that is there already stays; `None` gives way.
unfoldable pub renamed_loop : Fields → Fields → Fields
renamed_loop normalized end = normalized
renamed_loop normalized (field key value d) =
    let output_key = output_key_of key in
    renamed_loop
      (if not (is_null (get output_key normalized))
        then normalized
        else put output_key value normalized)
      d

unfoldable pub renamed_record : Fields → Fields
unfolding renamed_loop
renamed_record record' = renamed_loop end record'

abbrev put_if_null : Text → Value → Fields → Fields
put_if_null key value d = if is_null (get key d) then put key value d else d

unfoldable pub clean_unavailable_value : Value → Value
clean_unavailable_value (integer n) = if equals_whole (some n) (negsuc 0) then null else integer n
clean_unavailable_value (floating whole repr) =
    if equals_whole whole (negsuc 0) then null else floating whole repr
clean_unavailable_value (text t) =
    if equals_text t (codes "none") || equals_text t (codes "unknown") then null else text t
clean_unavailable_value v = v

unfoldable pub project_fields : List Text → Fields → Fields → Fields
unfolding clean_unavailable_value
project_fields [] normalized compact = compact
project_fields (key ∷ keys) normalized compact = project_fields keys normalized (
    if equals_text key (codes "alerts")
    then compact
    else put key (clean_unavailable_value (get key normalized)) compact)

unfoldable pub should_emit_live_event : Fields → Bool
should_emit_live_event record' =
    equals_text_value (get (codes "record_type") record') (codes "ecg_event")

module _ (py : Python) where
  -- message_name in (None, "unknown", "")
  abbrev is_unknown_name : Value → Bool
  is_unknown_name name =
      is_null name || equals_text_value name (codes "unknown") || equals_text_value name []

  unfoldable pub with_description : Fields → Fields
  with_description d =
      let message_code = get (codes "cd2.message.code") d in
      if is_null (get (codes "cd2.message.description") d)
        && not (is_null message_code)
        && is_unknown_name (get (codes "cd2.message.name") d)
      then put (codes "cd2.message.description")
          (text (codes "unknown_message_code:" ++ str py message_code)) d
      else d

  abbrev is_unknown_code_warning : Value → Bool
  is_unknown_code_warning (mapping w) =
      is_text (clean_str py (get (codes "code") w)) (codes "unknown_message_code")
  is_unknown_code_warning _ = false

  -- Warnings of an unknown message code are dropped where the record has a description.
  unfoldable pub without_unknown_codes : Bool → Items → Items
  without_unknown_codes described done = done
  without_unknown_codes described (item v items) =
      let rest = without_unknown_codes described items in
      if is_unknown_code_warning v && described then rest else item v rest

  abbrev with_regular_warnings : Value → Fields → Fields
  with_regular_warnings (sequence items) d =
      put (codes "parser.validation.warnings")
        (sequence
          (without_unknown_codes (not (is_null (get (codes "cd2.message.description") d))) items))
        d
  with_regular_warnings _ d = d

  abbrev with_payload_hash : Value → Fields → Fields
  with_payload_hash hash d =
      if not (is_null hash) then put_if_null (codes "hash.payload.sha256") hash d else d

  unfoldable pub apply_common_defaults : Fields → Fields → Fields
  unfolding with_description without_unknown_codes
  apply_common_defaults normalized record' =
      let created =
        put_if_null (codes "event.created") (get (codes "@timestamp") normalized) normalized in
      let warned = put_if_null (codes "parser.validation.warnings") (sequence done) created in
      let typed = put_if_null (codes "radar.subtypes") (sequence done) warned in
      let described = with_description typed in
      let scoped =
        with_regular_warnings (get (codes "parser.validation.warnings") described) described in
      with_payload_hash (get (codes "sha256_ecg_payload") record') scoped

  abbrev with_stream_defaults : CompactOptions → Fields → Fields
  with_stream_defaults o d = set_default (codes "service.name") (text o.service_name) (
      set_default (codes "event.dataset") (text o.event_dataset) (
        set_default (codes "data_stream.dataset") (text o.data_stream_dataset)
          (set_default (codes "data_stream.type") (text o.data_stream_type) d)))

  abbrev with_debug_alerts : Bool → Fields → Fields → Fields
  with_debug_alerts debug source compact =
      if debug
      then put (codes "alerts_debug") (sequence (mappings (normal_alerts py source))) compact
      else compact

  unfoldable pub project_normalized_siem_record : CompactOptions → Fields → Fields → Result Fields
  unfolding project_fields
  project_normalized_siem_record o normalized source = do
    scoped ← scope_parser_validation_warnings_for_siem py normalized source
    let fields = if o.include_debug_evidence then siem_full_event_fields else siem_event_fields
    let compact = project_fields fields (with_stream_defaults o scoped) end
    alerts ←
        compact_alerts py source o.emit_parse_warning_alerts o.emit_modec_altitude_missing_alerts
    ok (
        with_debug_alerts o.include_debug_evidence source
          (put (codes "alerts") (sequence (mappings alerts)) compact))

  abbrev then_some : Result Fields → Result (Option Fields)
  then_some r = do d ← r; ok (some d)

  unfoldable pub compact_live_event_record : CompactOptions → Fields → Result (Option Fields)
  unfolding project_normalized_siem_record
  compact_live_event_record o record' =
      if not (should_emit_live_event record')
      then ok none
      else then_some (
          project_normalized_siem_record o (apply_common_defaults (renamed_record record') record')
            record')

  -- A rejected record, with the reason.
  abbrev pub rejected_record : Fields → Fields
  rejected_record record' =
      put_if_null (codes "parser.validation.drop_reason") (get (codes "error_code") record')
        (put (codes "parser.validation.accepted") (boolean false) (renamed_record record'))

  unfoldable pub compact_parse_error_record : CompactOptions → Fields → Result (Option Fields)
  unfolding project_normalized_siem_record
  compact_parse_error_record o record' = then_some (
      project_normalized_siem_record o (apply_common_defaults (rejected_record record') record')
        record')

  unfoldable pub compact_live_record : CompactOptions → Fields → Result (Option Fields)
  unfolding compact_live_event_record compact_parse_error_record
  compact_live_record o record' =
      let record_type = get (codes "record_type") record' in
      if equals_text_value record_type (codes "ecg_event")
      then compact_live_event_record o record'
      else if equals_text_value record_type (codes "ecg_parse_error")
      then compact_parse_error_record o record'
      else ok (some record')
