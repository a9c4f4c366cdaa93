-- ===== src/Tests/Sequence.antt =====
-- Records of two feeds for oad_parser/live/pipeline.py.
use oad_parser.Common.{◌≡◌, refl, arith, ◌++◌, none, some, String, true, false, List, [], ◌∷◌, ℕ}
use oad_parser.Common.Int.{pos}
use oad_parser.Common.Text.{Text, codes, strip}
use oad_parser.Common.Value.{integer, text, Fields, end, field, find, get, str, equals_key}
use oad_parser.Tests.Writer.{python}
use oad_parser.Tests.Detect.{thousandths}
use oad_parser.Tests.Alerts.{numbers, policy}
use oad_parser.Live.Sequence.State.{
  Datetimes, LiveSequenceState, sequence_key, message_hash, equals_tuple,
}
use oad_parser.Live.Sequence.Windows.{
  drop_stale, next_window, record_datetime, note_duplicate, apply_duplicate_alert,
}
use oad_parser.Live.Sequence.Recent.{IsOrdered, window_after, recent_of, window_after-recent_of}
use oad_parser.Live.Sequence.Collapsed.{windows, collapsed}
use oad_parser.Live.Sequence.History.{IsRun, annotate_records-last_number}

abbrev datetimes : Datetimes thousandths
datetimes = record { from_iso = λ t. none; utcnow = λ reads. (reads, codes "now") }

abbrev initial : LiveSequenceState thousandths
initial = record {
  last_sequence_by_key = [];
  last_radar_timestamp_by_key = [];
  last_router_timestamp_by_key = [];
  duplicate_window_by_key = [];
  clock_reads = 0;
}

abbrev event_of : String → String → ℕ → Fields
event_of site fingerprint number = field (codes "record_type") (text (codes "ecg_event")) (
    field (codes "site_id") (text (codes site)) (
      field (codes "fingerprint") (text (codes fingerprint))
        (field (codes "sequence") (integer (pos number)) end)))

-- The counter of the first feed wraps around from 250 to 4, and the last event is the first once more.
abbrev events : List Fields
events =
    event_of "ABC" "f" 250
    ∷ event_of "XYZ" "g" 7
    ∷ event_of "ABC" "h" 4
    ∷ event_of "ABC" "f" 250
    ∷ []

last_collapsed :
    collapsed python thousandths numbers datetimes (some policy) initial events
    ≡ false ∷ false ∷ false ∷ true ∷ []
unfolding collapsed windows apply_duplicate_alert note_duplicate record_datetime next_window
    drop_stale message_hash get find sequence_key equals_tuple strip str equals_key
last_collapsed = refl

annotate_records-last_number_example :
    (s' : LiveSequenceState thousandths) × (out : List Fields) × IsRun python thousandths numbers
      datetimes
      (some policy)
      (collapsed python thousandths numbers datetimes (some policy) initial events)
      initial
      events
      (λ key. none)
      s'
      out
unfolding get find sequence_key
annotate_records-last_number_example =
    annotate_records-last_number python thousandths numbers datetimes (some policy) events initial
      ((refl, refl, tt), ((refl, refl, tt), ((refl, refl, tt), ((refl, refl, tt), tt))))

one_second : IsOrdered thousandths 1000
one_second = record {
  below = λ t a b h k. ground arith;
  above = λ t u c h k. ground arith;
  same_order = λ a b h. ground arith;
}

abbrev earlier : List (ℕ × Text)
earlier = (4700, codes "b") ∷ (3000, codes "a") ∷ []

window_after-recent_of_example :
    window_after python thousandths numbers datetimes 1000 ((5200, codes "c") ∷ earlier)
    ≡ recent_of python thousandths numbers datetimes 1000 4200 earlier ++ ((5200, codes "c") ∷ [])
window_after-recent_of_example =
    window_after-recent_of python thousandths numbers datetimes 1000 one_second (5200, codes "c")
      earlier ((refl, (refl, tt)), ((refl, tt), (tt, tt)))

-- The first sighting has left the window.
two_recent :
    window_after python thousandths numbers datetimes 1000 ((5200, codes "c") ∷ earlier)
    ≡ (4700, codes "b") ∷ (5200, codes "c") ∷ []
unfolding next_window drop_stale
two_recent = refl
