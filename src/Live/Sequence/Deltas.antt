-- ===== src/Live/Sequence/Deltas.antt =====
-- `_annotate_sequence` and `_annotate_time` of oad_parser/live/pipeline.py.
use oad_parser.Common.{suc, Option, none, some, List, [], ◌∷◌, ◌++◌, ◌&&◌, ◌||◌, if◌then◌else◌}
use oad_parser.Common.Int.{ℤ, pos, negsuc, ◌-ℤ◌, leb_ℤ, ltb_ℤ, mod_ℤ}
use oad_parser.Common.Text.{Text, codes}
use oad_parser.Common.Value.{
  Value, null, integer, text, mapping, Fields, end, field, Python, get, put,
}
use oad_parser.Detect.Record.{Floats}
use oad_parser.Live.Alerts.Taxonomy.{ecg_cd2_005, ecg_cd2_006, make_alert}
use oad_parser.Live.Alerts.Config.{Numbers, EcgAlertConfig}
use oad_parser.Live.Alerts.Rules.{as_float}
use oad_parser.Live.Sequence.State.{
  Key, at_key, LiveSequenceState, Step, sequence_key, feed_evidence, int_value,
}

abbrev pub abs_ℤ : ℤ → ℤ
abs_ℤ (pos n) = pos n
abs_ℤ (negsuc n) = pos (suc n)

module _ (py : Python) (fs : Floats) (n : Numbers fs) where
  abbrev sequence_alert : Fields → ℤ → ℤ → Fields → Fields
  sequence_alert record' previous current threshold_evidence =
      make_alert ecg_cd2_005 (codes "Sequence delta between plots is too large.") (
        field (codes "previous_sequence") (integer previous) (
          field (codes "current_sequence") (integer current) (
            field (codes "sequence_delta") (integer (pos (mod_ℤ (current -ℤ previous) 256))) (
              field (codes "sequence_delta_raw") (integer (current -ℤ previous)) (
                field (codes "source_site_channel_tuple") (mapping (feed_evidence record'))
                  threshold_evidence)))))

  abbrev legacy_evidence : ℤ → ℤ → Fields
  legacy_evidence legacy_min legacy_max =
      field (codes "legacy_sequence_delta_min_abs") (integer legacy_min) (
        field (codes "legacy_sequence_delta_max_abs") (integer legacy_max)
          (field (codes "threshold_mode") (text (codes "legacy_signed_raw_delta")) end))

  abbrev modulo_evidence : ℤ → Fields
  modulo_evidence threshold =
      field (codes "threshold") (integer threshold)
        (field (codes "threshold_mode") (text (codes "modulo_delta")) end)

  abbrev pub modulo_alerts : Option ℤ → Fields → ℤ → ℤ → List Fields
  modulo_alerts none record' previous current = []
  modulo_alerts (some maximum) record' previous current =
      if ltb_ℤ maximum (pos (mod_ℤ (current -ℤ previous) 256))
      then sequence_alert record' previous current (modulo_evidence maximum) ∷ []
      else []

  -- The test of a delta: on its absolute value between two limits, or else on its remainder.
  abbrev pub delta_alerts : Option ℤ → Option ℤ → Option ℤ → Fields → ℤ → ℤ → List Fields
  delta_alerts (some legacy_min) (some legacy_max) maximum record' previous current =
      let raw_abs = abs_ℤ (current -ℤ previous) in
      if leb_ℤ legacy_min raw_abs && leb_ℤ raw_abs legacy_max
      then sequence_alert record' previous current (legacy_evidence legacy_min legacy_max) ∷ []
      else []
  delta_alerts (some legacy_min) none maximum record' previous current =
      modulo_alerts maximum record' previous current
  delta_alerts none legacy_max maximum record' previous current =
      modulo_alerts maximum record' previous current

  abbrev pub config_delta_alerts : Option (EcgAlertConfig fs) → Fields → ℤ → ℤ → List Fields
  config_delta_alerts none record' previous current = []
  config_delta_alerts (some config) record' previous current =
      delta_alerts config.legacy_sequence_delta_min_abs config.legacy_sequence_delta_max_abs
        config.max_sequence_delta record' previous current

  abbrev pub with_deltas : Value → Value → Fields → Fields
  with_deltas delta raw record' =
      put (codes "sequence_delta_raw") raw (put (codes "sequence_delta") delta record')

  abbrev pub sequence_after :
      Option (EcgAlertConfig fs)
      → Option ℤ
      → ℤ
      → LiveSequenceState fs
      → Fields
      → List Fields
      → Step fs
  sequence_after config none current s record' alerts = (s, with_deltas null null record', alerts)
  sequence_after config (some previous) current s record' alerts =
      let deltas =
        with_deltas (integer (pos (mod_ℤ (current -ℤ previous) 256)))
          (integer (current -ℤ previous)) record' in
      (s, deltas, alerts ++ config_delta_alerts config deltas previous current)

  abbrev pub sequence_of_value :
      Option (EcgAlertConfig fs) → Option ℤ → LiveSequenceState fs → Fields → List Fields → Step fs
  sequence_of_value config none s record' alerts = (s, with_deltas null null record', alerts)
  sequence_of_value config (some current) s record' alerts =
      let key = sequence_key record' in
      sequence_after config (at_key key s.last_sequence_by_key) current
        (record s { last_sequence_by_key = (key, current) ∷ s.last_sequence_by_key }) record' alerts

  unfoldable pub annotate_sequence :
      Option (EcgAlertConfig fs) → LiveSequenceState fs → Fields → List Fields → Step fs
  annotate_sequence config s record' alerts =
      sequence_of_value config (int_value (get (codes "sequence") record')) s record' alerts

  abbrev time_alert : Text → Fields → fs.Float → fs.Float → fs.Float → Fields
  time_alert name record' previous current threshold =
      make_alert ecg_cd2_006
        (codes
          "Timestamp gap, rollback, or stale replay condition exceeded the configured threshold after duplicate collapse.")
        (field (codes "timestamp_field") (text name) (
          field (codes "previous_timestamp") (n.of_float previous) (
            field (codes "current_timestamp") (n.of_float current) (
              field (codes "delta_seconds") (n.of_float (fs.sub current previous)) (
                field (codes "threshold_seconds") (n.of_float threshold) (
                  field (codes "source_site_channel_tuple") (mapping (feed_evidence record'))
                    end))))))

  abbrev pub time_alerts : Option fs.Float → Text → Fields → fs.Float → fs.Float → List Fields
  time_alerts none name record' previous current = []
  time_alerts (some threshold) name record' previous current =
      let delta = fs.sub current previous in
      if fs.lt threshold delta || fs.lt delta fs.zero_degrees
      then time_alert name record' previous current threshold ∷ []
      else []

  abbrev pub written : Key → Option fs.Float → List (Key × fs.Float) → List (Key × fs.Float)
  written key none state = state
  written key (some current) state = (key, current) ∷ state

  abbrev pub delta_noted :
      Option fs.Float
      → Text
      → Text
      → Option fs.Float
      → Option fs.Float
      → Fields
      → List Fields
      → Fields × List Fields
  delta_noted threshold name delta_name (some current) (some previous) record' alerts =
      let noted = put delta_name (n.of_float (fs.sub current previous)) record' in
      (noted, alerts ++ time_alerts threshold name noted previous current)
  delta_noted threshold name delta_name (some current) none record' alerts = (record', alerts)
  delta_noted threshold name delta_name none previous record' alerts = (record', alerts)

  -- The new state of the field, the record and its alerts.
  unfoldable pub check_time_delta :
      Option fs.Float
      → Text
      → Text
      → List (Key × fs.Float)
      → Key
      → Fields
      → List Fields
      → List (Key × fs.Float) × Fields × List Fields
  check_time_delta threshold name delta_name state key record' alerts =
      let current = as_float py fs n (get name record') in
      let (noted, alerts') =
        delta_noted threshold name delta_name current (at_key key state) record' alerts in
      (written key current state, noted, alerts')

  unfoldable pub update_time_state : LiveSequenceState fs → Fields → LiveSequenceState fs
  update_time_state s record' =
      let key = sequence_key record' in
      record s {
        last_radar_timestamp_by_key =
            written key (as_float py fs n (get (codes "radar_timestamp") record'))
              s.last_radar_timestamp_by_key;
        last_router_timestamp_by_key =
            written key (as_float py fs n (get (codes "router_timestamp") record'))
              s.last_router_timestamp_by_key;
      }

  unfoldable pub annotate_time :
      Option (EcgAlertConfig fs) → LiveSequenceState fs → Fields → List Fields → Step fs
  annotate_time none s record' alerts = (update_time_state s record', record', alerts)
  annotate_time (some config) s record' alerts =
      let key = sequence_key record' in
      let (radar, radar_record, radar_alerts) =
        check_time_delta config.max_radar_time_delta_seconds (codes "radar_timestamp")
          (codes "radar_time_delta") s.last_radar_timestamp_by_key key record' alerts in
      let (router, router_record, router_alerts) =
        check_time_delta config.max_router_time_delta_seconds (codes "router_timestamp")
          (codes "router_time_delta") s.last_router_timestamp_by_key key radar_record
          radar_alerts in
      (
        record s { last_radar_timestamp_by_key = radar; last_router_timestamp_by_key = router },
        router_record,
        router_alerts,
      )
