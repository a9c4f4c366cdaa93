-- ===== src/Live/Writer/Sampling.antt =====
-- The sampling of normal records in `_should_emit_record` of oad_parser/live/writer.py.
use oad_parser.Common.{
  ℕ, ◌+◌, ◌-◌, ◌%◌, ◌<◌, ◌≡◌, refl, ap, ap₂, ◌∙◌, arith, Bool, true, false, List, [], ◌∷◌, All,
  ◌==◌, leb,
}
use oad_parser.Common.Text.{codes}
use oad_parser.Common.Value.{Fields, Python, get, equals_text_value}
use oad_parser.Live.Writer.Alerts.{has_actionable_alerts}
use oad_parser.Live.Writer.Output.{System}
use oad_parser.Live.Writer.Writing.{RotatingJsonlWriter, should_emit_record}

module _ (py : Python) (system : System) where
  -- A record before and after it was compacted: an event without an alert that calls for action.
  abbrev pub IsNormal : Fields × Fields → Type 0
  IsNormal (source, encoded) =
      (equals_text_value (get (codes "record_type") source) (codes "ecg_event") ≡ true)
      × (has_actionable_alerts py encoded ≡ false)

  -- The decisions on a run of records.
  abbrev pub decisions : List (Fields × Fields) → RotatingJsonlWriter → List Bool
  decisions [] w = []
  decisions ((source, encoded) ∷ records) w =
      let (emitted, _, w') = should_emit_record py system source encoded w in
      emitted ∷ decisions records w'

  -- Whether each of a run of numbers, one for each record, is a multiple of the rate.
  abbrev pub multiples : ℕ → ℕ → List (Fields × Fields) → List Bool
  multiples rate n [] = []
  multiples rate n (r ∷ records) = (n % rate == 0) ∷ multiples rate (n + 1) records

  sampled :
      (source encoded : Fields) (w : RotatingJsonlWriter)
      → IsNormal (source, encoded)
      → 1 < w.normal_record_sample_rate
      → ((should_emit_record py system source encoded w).0
          ≡ (w.normal_event_counter % w.normal_record_sample_rate == 0))
        × ((should_emit_record py system source encoded w).2
            ≡ record w { normal_event_counter = w.normal_event_counter + 1 })
  unfolding should_emit_record
  sampled source encoded w (event, quiet) rate =
      let many : leb w.normal_record_sample_rate 1 ≡ false = ground arith in
      let back : w.normal_event_counter + 1 - 1 ≡ w.normal_event_counter = omega arith in
      rw (event, quiet, many, back) (ground arith, ground arith)

  -- Of a run of normal records, at a rate above one, exactly those are written whose number, counted on
  -- from the normal records before, is a multiple of the rate: the first and each rate-th after it.
  pub should_emit_record-multiples :
      (records : List (Fields × Fields)) (w : RotatingJsonlWriter)
      → All IsNormal records
      → 1 < w.normal_record_sample_rate
      → decisions records w ≡ multiples w.normal_record_sample_rate w.normal_event_counter records
  should_emit_record-multiples [] w normal rate = refl
  should_emit_record-multiples ((source, encoded) ∷ records) w (first, normal) rate =
      let (decision, next) = sampled source encoded w first rate in
      let w' = record w { normal_event_counter = w.normal_event_counter + 1 } in
      ap₂ (λ b ds. b ∷ ds) decision
        (ap (decisions records) next ∙ should_emit_record-multiples records w' normal rate)
