-- ===== src/Live/Sequence/History.antt =====
-- What `LiveSequenceState.annotate_records` of oad_parser/live/pipeline.py makes of the sequence
-- numbers, with the records that it collapses as duplicates left out.
use oad_parser.Common.{
  ◌≡◌, refl, ap, ◌∙◌, arith, Bool, true, false, not, ◌&&◌, Option, none, some, List, [], ◌∷◌, ok,
  All, subst,
}
use mathlib.Core.Path.{fun_ext}
use oad_parser.Common.Int.{ℤ}
use oad_parser.Common.Text.{codes}
use oad_parser.Common.Value.{Value, Fields, Python, get, equals_text_value}
use oad_parser.Detect.Record.{Floats}
use oad_parser.Live.Alerts.Config.{Numbers, EcgAlertConfig}
use oad_parser.Live.Alerts.Evaluate.{apply_legacy_alert_fields}
use oad_parser.Live.Alerts.Selected.{IsNamed}
use oad_parser.Live.Sequence.State.{
  Key, has_hash, at_key, Datetimes, LiveSequenceState, Step, sequence_key,
}
use oad_parser.Live.Sequence.Windows.{apply_duplicate_alert}
use oad_parser.Live.Sequence.Deltas.{
  annotate_sequence, sequence_of_value, annotate_time, update_time_state, sequence_after,
}
use oad_parser.Live.Sequence.Annotate.{
  alerts_in, unless_collapsed, stepped, is_hashed, annotate_record, annotate_records,
}
use oad_parser.Live.Sequence.Steps.{
  number_in, delta_of, next_number, IsStepped, sequence_of_value-IsStepped, annotate_time-IsStepped,
  apply_legacy_alert_fields-delta,
}
use oad_parser.Live.Sequence.Collapsed.{
  windows, collapsed, IsChecked, apply_duplicate_alert-IsChecked,
}

-- The last numbers of the feeds behind a record: a collapsed one leaves them as they are.
abbrev pub number_after : Bool → Fields → (Key → Option ℤ) → Key → Option ℤ
number_after true r before = before
number_after false r before = λ key. next_number key (sequence_key r) (number_in r) (before key)

-- The delta of a record: a collapsed one keeps what it had.
abbrev pub delta_for : Bool → Fields → (Key → Option ℤ) → Value
delta_for true r before = get (codes "sequence_delta") r
delta_for false r before = delta_of (before (sequence_key r)) (number_in r)

-- The number of the last record of a feed that has one and is not collapsed.
abbrev pub last_number : Key → List Bool → List Fields → (Key → Option ℤ) → Option ℤ
last_number key [] rs before = before key
last_number key (mark ∷ marks) [] before = before key
last_number key (mark ∷ marks) (r ∷ rs) before =
    last_number key marks rs (number_after mark r before)

-- Each record has its delta, and there are as many marks as records.
abbrev pub AreAnnotated : List Bool → (Key → Option ℤ) → List Fields → List Fields → Type 0
AreAnnotated [] before [] out = out ≡ []
AreAnnotated [] before (r ∷ rs) out = ⊥
AreAnnotated (mark ∷ marks) before [] out = ⊥
AreAnnotated (mark ∷ marks) before (r ∷ rs) [] = ⊥
AreAnnotated (mark ∷ marks) before (r ∷ rs) (o ∷ out) =
    (get (codes "sequence_delta") o ≡ delta_for mark r before)
    × AreAnnotated marks (number_after mark r before) rs out

module _ (py : Python) (fs : Floats) (n : Numbers fs) (dt : Datetimes fs) where
  -- An event whose feed can be a key, and whose alerts have ids and details.
  abbrev pub IsEvent : Fields → Type 0
  IsEvent r =
      (equals_text_value (get (codes "record_type") r) (codes "ecg_event") ≡ true)
      × (has_hash (sequence_key r) ≡ true)
      × All IsNamed (alerts_in (get (codes "alerts") r))

  sequence_after-windows :
      (config : Option (EcgAlertConfig fs)) (previous : Option ℤ) (current : ℤ)
      (s : LiveSequenceState fs) (r : Fields) (alerts : List Fields)
      → windows py fs n dt (sequence_after py fs n config previous current s r alerts).0
        ≡ windows py fs n dt s
  sequence_after-windows config none current s r alerts = refl
  sequence_after-windows config (some previous) current s r alerts = refl

  sequence_of_value-windows :
      (config : Option (EcgAlertConfig fs)) (number : Option ℤ) (s : LiveSequenceState fs)
      (r : Fields) (alerts : List Fields)
      → windows py fs n dt (sequence_of_value py fs n config number s r alerts).0
        ≡ windows py fs n dt s
  unfolding windows
  sequence_of_value-windows config none s r alerts = refl
  sequence_of_value-windows config (some current) s r alerts =
      sequence_after-windows config (at_key (sequence_key r) s.last_sequence_by_key) current
        (record s { last_sequence_by_key = (sequence_key r, current) ∷ s.last_sequence_by_key }) r
        alerts

  annotate_time-windows :
      (config : Option (EcgAlertConfig fs)) (s : LiveSequenceState fs) (r : Fields)
      (alerts : List Fields)
      → windows py fs n dt (annotate_time py fs n config s r alerts).0 ≡ windows py fs n dt s
  unfolding annotate_time update_time_state windows
  annotate_time-windows none s r alerts = refl
  annotate_time-windows (some c) s r alerts = refl

  -- What a record's step does, by what the check for duplicates finds alone.
  unless_collapsed-IsStepped :
      (config : Option (EcgAlertConfig fs)) (s : LiveSequenceState fs) (r : Fields)
      (call alone : Bool × Step fs)
      → IsChecked py fs n dt s r call alone
      → let before = λ (key : Key). at_key key s.last_sequence_by_key in
        let step = unless_collapsed py fs n dt config call in
        IsStepped py fs n (number_after alone.0 r before) (delta_for alone.0 r before) step
        × (windows py fs n dt step.0 ≡ windows py fs n dt alone.1.0)
  unfolding annotate_sequence
  unless_collapsed-IsStepped config s r (true, (s', r', alerts)) alone c =
      rw (← c.found, ← c.same_record, ← c.numbers)
        (record { last = λ key. refl; same_delta = refl; named = c.named }, c.kept_windows)
  unless_collapsed-IsStepped config s r (false, (s', r', alerts)) alone c =
      rw (← c.found, ← c.same_record, ← c.numbers)
        (
          annotate_time-IsStepped py fs n config _ _ _
              (sequence_of_value-IsStepped py fs n config (number_in r') s' r' alerts c.named),
          annotate_time-windows config _ _ _
              ∙ sequence_of_value-windows config (number_in r') s' r' alerts
              ∙ c.kept_windows,
        )

  annotate_record_lem :
      (config : Option (EcgAlertConfig fs)) (s : LiveSequenceState fs) (r : Fields)
      → IsEvent r
      → let step = stepped py fs n dt config s r in
        annotate_record py fs n dt config s r ≡ (step.0, apply_legacy_alert_fields py step.1 step.2)
  unfolding annotate_record
  annotate_record_lem config s r (event, hashed, named) =
      let hashable : (is_hashed py fs n dt config r && not (has_hash (sequence_key r))) ≡ false =
        ground (arith, hashed) in
      rw (event, hashable) refl

  -- The run of `annotate_records` with these marks: it returns, with these numbers and records.
  pub record IsRun (config : Option (EcgAlertConfig fs)) (marks : List Bool)
      (s : LiveSequenceState fs) (rs : List Fields) (before : Key → Option ℤ)
      (s' : LiveSequenceState fs) (out : List Fields) : Type 0 where
    pub returned : annotate_records py fs n dt config s rs ≡ (s', ok out)
    pub annotated : AreAnnotated marks before rs out
    pub numbers : (key : Key) → at_key key s'.last_sequence_by_key ≡ last_number key marks rs before

  -- One record, and the run behind it.
  IsRun-cons :
      (config : Option (EcgAlertConfig fs)) (mark : Bool) (marks : List Bool)
      (s : LiveSequenceState fs) (r : Fields) (rs : List Fields) (s' : LiveSequenceState fs)
      (d : Fields) (out : List Fields)
      → let before = λ (key : Key). at_key key s.last_sequence_by_key in
        let step = stepped py fs n dt config s r in
        annotate_record py fs n dt config s r ≡ (step.0, ok d)
        → get (codes "sequence_delta") d ≡ delta_for mark r before
        → IsRun config marks step.0 rs (number_after mark r before) s' out
        → IsRun config (mark ∷ marks) s (r ∷ rs) before s' (d ∷ out)
  unfolding annotate_records
  IsRun-cons config mark marks s r rs s' d out returned delta run = record {
    returned = rw (returned, run.returned) refl;
    annotated = (delta, run.annotated);
    numbers = run.numbers;
  }

  annotate_records-windows :
      (config : Option (EcgAlertConfig fs)) (rs : List Fields) (s t : LiveSequenceState fs)
      → windows py fs n dt s ≡ windows py fs n dt t
      → All IsEvent rs
      → (s' : LiveSequenceState fs) × (out : List Fields) × IsRun config
          (collapsed py fs n dt config t rs)
          s
          rs
          (λ key. at_key key s.last_sequence_by_key)
          s'
          out
  unfolding annotate_records collapsed
  annotate_records-windows config [] s t w events =
      (s, [], record { returned = refl; annotated = refl; numbers = λ key. refl })
  annotate_records-windows config (r ∷ rs) s t w (event, events) =
      let step = stepped py fs n dt config s r in
      let alone = apply_duplicate_alert py fs n dt config (windows py fs n dt s) r [] in
      let (h, same) =
        unless_collapsed-IsStepped config s r _ alone
          (apply_duplicate_alert-IsChecked py fs n dt config s r _ event.2) in
      let (d, returned, delta) = apply_legacy_alert_fields-delta py fs n step.1 step.2 h.named in
      let (s', out, run) = annotate_records-windows config rs step.0 alone.1.0 same events in
      rw (← w) (
        s',
        d ∷ out,
        IsRun-cons config alone.0 _ s r rs s' d out
            (annotate_record_lem config s r event ∙ ap (λ a. (step.0, a)) returned)
            (delta ∙ h.same_delta)
            (subst
              (λ before.
                IsRun config (collapsed py fs n dt config alone.1.0 rs) step.0 rs before s' out)
              (fun_ext h.last) run),
      )

  -- `annotate_records` returns on events whose feed has a hash and whose alerts have an id and details,
  -- with any policy. The state then holds for each feed the
  -- sequence number of its last record that has one and is not collapsed as a duplicate; each record
  -- that is not collapsed has the delta modulo 256 to the number before it of the same feed, or none,
  -- and a collapsed one keeps its delta. Which records are collapsed is what the check for duplicates
  -- finds when it runs alone.
  pub annotate_records-last_number :
      (config : Option (EcgAlertConfig fs)) (rs : List Fields) (s : LiveSequenceState fs)
      → All IsEvent rs
      → (s' : LiveSequenceState fs) × (out : List Fields) × IsRun config
          (collapsed py fs n dt config s rs)
          s
          rs
          (λ key. at_key key s.last_sequence_by_key)
          s'
          out
  annotate_records-last_number config rs s events =
      annotate_records-windows config rs s s refl events
