-- ===== src/Live/Sequence/Annotate.antt =====
-- The methods of `LiveSequenceState` of oad_parser/live/pipeline.py. A step returns the state, the
-- record and its alerts. The alerts that a record has are a list of dictionaries.
use oad_parser.Common.{
  Option, none, some, ◌&&◌, ◌||◌, List, [], ◌∷◌, Bool, true, false, not, if◌then◌else◌, Result, ok,
  err, type_error,
}
use oad_parser.Common.Text.{codes}
use oad_parser.Common.Value.{Value, sequence, Fields, Python, get, equals_text_value, mappings_of}
use oad_parser.Detect.Record.{Floats}
use oad_parser.Live.Alerts.Config.{Numbers, EcgAlertConfig}
use oad_parser.Live.Alerts.Rules.{as_float}
use oad_parser.Live.Alerts.Evaluate.{apply_legacy_alert_fields}
use oad_parser.Live.Sequence.State.{
  has_hash, Datetimes, LiveSequenceState, Step, sequence_key, int_value,
}
use oad_parser.Live.Sequence.Windows.{apply_duplicate_alert}
use oad_parser.Live.Sequence.Deltas.{annotate_sequence, annotate_time}

abbrev is_some {ℓ} : {A : Type ℓ} → Option A → Bool
is_some none = false
is_some (some a) = true

abbrev pub alerts_in : Value → List Fields
alerts_in (sequence alerts) = mappings_of alerts
alerts_in _ = []

module _ (py : Python) (fs : Floats) (n : Numbers fs) (dt : Datetimes fs) where
  abbrev pub unless_collapsed : Option (EcgAlertConfig fs) → Bool × Step fs → Step fs
  unless_collapsed config (true, (s, record', alerts)) = (s, record', alerts)
  unless_collapsed config (false, (s, record', alerts)) =
      let (s', record'', alerts') = annotate_sequence py fs n config s record' alerts in
      annotate_time py fs n config s' record'' alerts'

  abbrev pub stepped : Option (EcgAlertConfig fs) → LiveSequenceState fs → Fields → Step fs
  stepped config s record' =
      unless_collapsed config (
        apply_duplicate_alert py fs n dt config s record'
          (alerts_in (get (codes "alerts") record')))

  -- Whether the feed's tuple is the key of a look-up or a store: without a policy only by the number
  -- and the times that the record has.
  abbrev pub is_hashed : Option (EcgAlertConfig fs) → Fields → Bool
  is_hashed (some config) record' = true
  is_hashed none record' =
      is_some (int_value (get (codes "sequence") record'))
      || is_some (as_float py fs n (get (codes "radar_timestamp") record'))
      || is_some (as_float py fs n (get (codes "router_timestamp") record'))

  -- A key without a hash raises before anything is stored, behind the reading of the clock.
  unfoldable pub annotate_record :
      Option (EcgAlertConfig fs)
      → LiveSequenceState fs
      → Fields
      → LiveSequenceState fs × Result Fields
  annotate_record config s record' =
      let (s', record'', alerts) = stepped config s record' in
      if not (equals_text_value (get (codes "record_type") record') (codes "ecg_event"))
      then (s, ok record')
      else if is_hashed config record' && not (has_hash (sequence_key record'))
      then (record s { clock_reads = s'.clock_reads }, err (type_error "unhashable type"))
      else (s', apply_legacy_alert_fields py record'' alerts)

  -- An exception ends the loop.
  abbrev consed :
      Result Fields
      → LiveSequenceState fs
      → LiveSequenceState fs × Result (List Fields)
      → LiveSequenceState fs × Result (List Fields)
  consed (err raised) s rest = (s, err raised)
  consed (ok r) s (s', err raised) = (s', err raised)
  consed (ok r) s (s', ok rest) = (s', ok (r ∷ rest))

  unfoldable pub annotate_records :
      Option (EcgAlertConfig fs)
      → LiveSequenceState fs
      → List Fields
      → LiveSequenceState fs × Result (List Fields)
  annotate_records config s [] = (s, ok [])
  annotate_records config s (r ∷ records) =
      let (s', annotated) = annotate_record config s r in
      let rest = annotate_records config s' records in consed annotated s' rest
