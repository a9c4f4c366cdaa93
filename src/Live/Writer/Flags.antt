-- ===== src/Live/Writer/Flags.antt =====
-- The two switches for alerts in oad_parser/live/writer.py have no effect: the alerts that they would
-- drop are dropped before as metadata for the operator.
use oad_parser.Common.{
  ◌≡◌, refl, arith, Bool, true, not, Option, none, some, List, [], ◌∷◌, ok, ◌>>=◌, if◌then◌else◌,
}
use oad_parser.Common.Value.{Fields, Python}
use oad_parser.Live.Writer.Alerts.{
  normal_alerts, is_operator_metadata_only_alert, is_written, add_written,
  scope_parse_warning_alert_for_siem, compact_alerts_loop, compact_alerts,
}
use oad_parser.Live.Writer.Compact.{
  CompactOptions, project_normalized_siem_record, compact_live_event_record,
  compact_parse_error_record, compact_live_record, should_emit_live_event, apply_common_defaults,
  renamed_record, rejected_record, rejected_record,
}

module _ (py : Python) where
  is_written_lem :
      (r : Fields) (warn modec : Bool) (alert : Fields)
      → is_written py r warn modec alert ≡ not (is_operator_metadata_only_alert py alert)
  unfolding is_written is_operator_metadata_only_alert
  is_written_lem r warn modec alert = ground arith

  add_written-flags :
      (r : Fields) (warn modec : Bool) (scoped : Option Fields) (rest : List Fields)
      → add_written py r warn modec scoped rest ≡ add_written py r true true scoped rest
  add_written-flags r warn modec none rest = refl
  add_written-flags r warn modec (some alert) rest =
      rw (is_written_lem r warn modec alert, is_written_lem r true true alert) refl

  compact_alerts_loop-flags :
      (r : Fields) (warn modec : Bool) (alerts : List Fields)
      → compact_alerts_loop py r warn modec alerts ≡ compact_alerts_loop py r true true alerts
  unfolding compact_alerts_loop
  compact_alerts_loop-flags r warn modec [] = refl
  compact_alerts_loop-flags r warn modec (a ∷ alerts) = λ i. do
    scoped ← scope_parse_warning_alert_for_siem py r a
    rest ← compact_alerts_loop-flags r warn modec alerts i
    ok (add_written-flags r warn modec scoped rest i)

  compact_alerts-flags :
      (r : Fields) (warn modec : Bool)
      → compact_alerts py r warn modec ≡ compact_alerts py r true true
  unfolding compact_alerts
  compact_alerts-flags r warn modec = compact_alerts_loop-flags r warn modec (normal_alerts py r)

  abbrev pub switched_on : CompactOptions → CompactOptions
  switched_on o = record o {
    emit_parse_warning_alerts = true;
    emit_modec_altitude_missing_alerts = true;
  }

  project-switched_on :
      (o : CompactOptions) (normalized source : Fields)
      → project_normalized_siem_record py o normalized source
        ≡ project_normalized_siem_record py (switched_on o) normalized source
  unfolding project_normalized_siem_record
  project-switched_on o normalized source =
      rw
        (compact_alerts-flags source o.emit_parse_warning_alerts
          o.emit_modec_altitude_missing_alerts)
        refl

  event-switched_on :
      (o : CompactOptions) (r : Fields)
      → compact_live_event_record py o r ≡ compact_live_event_record py (switched_on o) r
  unfolding compact_live_event_record
  event-switched_on o r = λ i. if not (should_emit_live_event r) then ok none else (do
    d ← project-switched_on o (apply_common_defaults py (renamed_record r) r) r i
    ok (some d))

  error-switched_on :
      (o : CompactOptions) (r : Fields)
      → compact_parse_error_record py o r ≡ compact_parse_error_record py (switched_on o) r
  unfolding compact_parse_error_record
  error-switched_on o r = λ i. do
    d ← project-switched_on o (apply_common_defaults py (rejected_record py r) r) r i
    ok (some d)

  -- Every record is compacted to the same, or raises the same, whether the alerts for parse warnings and
  -- for missing altitudes are switched on or off.
  pub compact_live_record-switched_on :
      (o : CompactOptions) (r : Fields)
      → compact_live_record py o r ≡ compact_live_record py (switched_on o) r
  unfolding compact_live_record
  compact_live_record-switched_on o r = rw (event-switched_on o r, error-switched_on o r) refl
