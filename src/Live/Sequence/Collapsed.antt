-- ===== src/Live/Sequence/Collapsed.antt =====
-- The check for duplicates in `LiveSequenceState.annotate_records` of oad_parser/live/pipeline.py: which
-- records of a run it collapses, and what it leaves of the state.
use oad_parser.Common.{
  ◌≡◌, refl, Bool, true, false, Option, none, some, List, [], ◌∷◌, ◌++◌, if◌then◌else◌, All,
}
use oad_parser.Common.Int.{ℤ}
use oad_parser.Common.Text.{Text}
use oad_parser.Common.Value.{Fields, Python}
use oad_parser.Detect.Record.{Floats}
use oad_parser.Live.Alerts.Taxonomy.{ecg_cd2_004}
use oad_parser.Live.Alerts.Config.{Numbers, EcgAlertConfig}
use oad_parser.Live.Alerts.Disabled.{All-append}
use oad_parser.Live.Alerts.Selected.{IsNamed}
use oad_parser.Live.Sequence.State.{Datetimes, LiveSequenceState, Step}
use oad_parser.Live.Sequence.Windows.{note_duplicate, duplicate_with, apply_duplicate_alert}
use oad_parser.Live.Sequence.Steps.{make_alert-IsNamed}

module _ (py : Python) (fs : Floats) (n : Numbers fs) (dt : Datetimes fs) where
  -- What the check for duplicates reads and writes of the state.
  unfoldable pub windows : LiveSequenceState fs → LiveSequenceState fs
  windows s = record {
    last_sequence_by_key = [];
    last_radar_timestamp_by_key = [];
    last_router_timestamp_by_key = [];
    duplicate_window_by_key = s.duplicate_window_by_key;
    clock_reads = s.clock_reads;
  }

  -- Which records of a run are collapsed as duplicates: what the check for duplicates finds of each, when
  -- nothing else is done to its windows.
  unfoldable pub collapsed :
      Option (EcgAlertConfig fs) → LiveSequenceState fs → List Fields → List Bool
  collapsed config s [] = []
  collapsed config s (r ∷ rs) =
      let (found, (s', r', alerts)) = apply_duplicate_alert py fs n dt config (windows s) r [] in
      let rest = collapsed config s' rs in found ∷ rest

  -- What the check for duplicates comes to: it goes by the windows, and leaves the numbers and the
  -- record as they are.
  pub record IsChecked (s : LiveSequenceState fs) (r : Fields) (call alone : Bool × Step fs)
      : Type 0 where
    pub found : call.0 ≡ alone.0
    pub kept_windows : windows call.1.0 ≡ windows alone.1.0
    pub numbers : call.1.0.last_sequence_by_key ≡ s.last_sequence_by_key
    pub same_record : call.1.1 ≡ r
    pub named : All IsNamed call.1.2

  -- The three ends of the check.
  abbrev ended : Bool → Bool → Fields → LiveSequenceState fs → Fields → List Fields → Bool × Step fs
  ended alone low alert s r alerts =
      if alone
      then (false, (s, r, alerts))
      else if low
      then (true, (s, r, alerts ++ (alert ∷ [])))
      else (true, (s, r, alerts))

  ended-IsChecked :
      (alone low : Bool) (alert r : Fields) (s t u : LiveSequenceState fs)
      (alerts others : List Fields)
      → windows t ≡ windows u
      → t.last_sequence_by_key ≡ s.last_sequence_by_key
      → IsNamed alert
      → All IsNamed alerts
      → IsChecked s r (ended alone low alert t r alerts) (ended alone low alert u r others)
  ended-IsChecked true low alert r s t u alerts others w l a named = record {
    found = refl;
    kept_windows = w;
    numbers = l;
    same_record = refl;
    named = named;
  }
  ended-IsChecked false true alert r s t u alerts others w l a named = record {
    found = refl;
    kept_windows = w;
    numbers = l;
    same_record = refl;
    named = All-append IsNamed alerts (alert ∷ []) named (a, tt);
  }
  ended-IsChecked false false alert r s t u alerts others w l a named = record {
    found = refl;
    kept_windows = w;
    numbers = l;
    same_record = refl;
    named = named;
  }

  windows_twice : (s : LiveSequenceState fs) → windows s ≡ windows (windows s)
  unfolding windows
  windows_twice s = refl

  duplicate_with-IsChecked :
      (window : Option fs.Float) (threshold : Option ℤ) (hash : Option Text)
      (s : LiveSequenceState fs) (r : Fields) (alerts : List Fields)
      → All IsNamed alerts
      → IsChecked s r
          (duplicate_with py fs n dt window threshold hash s r alerts)
          (duplicate_with py fs n dt window threshold hash (windows s) r [])
  unfolding note_duplicate windows
  duplicate_with-IsChecked none threshold hash s r alerts named = record {
    found = refl;
    kept_windows = windows_twice s;
    numbers = refl;
    same_record = refl;
    named = named;
  }
  duplicate_with-IsChecked (some window) none hash s r alerts named = record {
    found = refl;
    kept_windows = windows_twice s;
    numbers = refl;
    same_record = refl;
    named = named;
  }
  duplicate_with-IsChecked (some window) (some threshold) none s r alerts named = record {
    found = refl;
    kept_windows = windows_twice s;
    numbers = refl;
    same_record = refl;
    named = named;
  }
  duplicate_with-IsChecked (some window) (some threshold) (some hash) s r alerts named =
      ended-IsChecked _ _ _ r s _ _ alerts [] refl refl (make_alert-IsNamed ecg_cd2_004 _ _) named

  pub apply_duplicate_alert-IsChecked :
      (config : Option (EcgAlertConfig fs)) (s : LiveSequenceState fs) (r : Fields)
      (alerts : List Fields)
      → All IsNamed alerts
      → IsChecked s r
          (apply_duplicate_alert py fs n dt config s r alerts)
          (apply_duplicate_alert py fs n dt config (windows s) r [])
  unfolding apply_duplicate_alert windows
  apply_duplicate_alert-IsChecked none s r alerts named = record {
    found = refl;
    kept_windows = windows_twice s;
    numbers = refl;
    same_record = refl;
    named = named;
  }
  apply_duplicate_alert-IsChecked (some c) s r alerts named =
      duplicate_with-IsChecked c.duplicate_payload_window_seconds c.duplicate_payload_threshold _ s
        r alerts named
