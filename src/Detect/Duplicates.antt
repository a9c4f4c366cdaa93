-- ===== src/Detect/Duplicates.antt =====
-- The fingerprints that the engine of oad_parser/detectors/state.py remembers over a run of records.
use oad_parser.Common.{
  ◌≡◌, refl, ap, ◌∙◌, Bool, true, false, ◌||◌, Option, none, some, List, [], ◌∷◌, if◌then◌else◌,
}
use oad_parser.Common.Text.{Text}
use oad_parser.Common.Dict.{equals_text, lookup, insert}
use oad_parser.Detect.Record.{Floats, Plot, Finding, DetectionEngine}
use oad_parser.Detect.Rules.{
  or_empty, is_empty_text, duplicate_finding, timestamp_or_now, detect_duplicate_fingerprint,
}
use oad_parser.Detect.Engine.{process_record, process_records}
use oad_parser.Detect.Sequence.{is_nonempty}

abbrev pub is_some {ℓ} : {A : Type ℓ} → Option A → Bool
is_some none = false
is_some (some a) = true

is_some_or {ℓ} :
    {A : Type ℓ} (b : Bool) (a : A) (o : Option A)
    → is_some (if b then some a else o) ≡ (b || is_some o)
is_some_or true a o = refl
is_some_or false a o = refl

or_rotate : (a b c : Bool) → (b || (a || c)) ≡ (a || b || c)
or_rotate true true c = refl
or_rotate true false c = refl
or_rotate false b c = refl

module _ (fs : Floats) where
  -- Some record of the run has the fingerprint.
  abbrev pub occurs : Text → List (Text × Plot fs) → Bool
  occurs key [] = false
  occurs key ((now, plot) ∷ plots) = equals_text (or_empty plot.fingerprint) key || occurs key plots

  -- What the rule leaves for a record with the fingerprint `own`.
  abbrev noted :
      Text → Text → List (Finding fs) → List (Text × Text) → List (Finding fs) × List (Text × Text)
  noted own time findings seen =
      if is_empty_text own then ([], seen) else (findings, insert own time seen)

  remembered_key :
      (own key time : Text) (findings : List (Finding fs)) (seen : List (Text × Text))
      → is_empty_text key ≡ false
      → is_some (lookup key (noted own time findings seen).1)
        ≡ (equals_text own key || is_some (lookup key seen))
  remembered_key [] [] time findings seen full = cc full
  remembered_key [] (c ∷ cs) time findings seen full = refl
  remembered_key (d ∷ ds) key time findings seen full =
      is_some_or (equals_text (d ∷ ds) key) time (lookup key seen)

  remembered_one :
      (now key : Text) (plot : Plot fs) (seen : List (Text × Text))
      → is_empty_text key ≡ false
      → is_some (lookup key (detect_duplicate_fingerprint fs now plot seen).1)
        ≡ (equals_text (or_empty plot.fingerprint) key || is_some (lookup key seen))
  unfolding detect_duplicate_fingerprint
  remembered_one now key plot seen full =
      remembered_key (or_empty plot.fingerprint) key (timestamp_or_now fs now plot.timestamp)
        (duplicate_finding fs (lookup (or_empty plot.fingerprint) seen)) seen full

  remembered :
      (plots : List (Text × Plot fs)) (engine : DetectionEngine fs) (key : Text)
      → is_empty_text key ≡ false
      → is_some (lookup key (process_records fs plots engine).0.fingerprints)
        ≡ (occurs key plots || is_some (lookup key engine.fingerprints))
  unfolding process_records process_record
  remembered [] engine key full = refl
  remembered ((now, plot) ∷ plots) engine key full =
      let ih = remembered plots (process_record fs now engine plot).0 key full in
      ih
      ∙ ap (λ b. occurs key plots || b) (remembered_one now key plot engine.fingerprints full)
      ∙ or_rotate (equals_text (or_empty plot.fingerprint) key) (occurs key plots)
          (is_some (lookup key engine.fingerprints))

  flags_seen :
      (own time : Text) (seen : List (Text × Text))
      → is_empty_text own ≡ false
      → is_nonempty (noted own time (duplicate_finding fs (lookup own seen)) seen).0
        ≡ is_some (lookup own seen)
  flags_seen own time seen full =
      rw (full) (elim (lookup own seen) as (λ o. is_nonempty (duplicate_finding fs o) ≡ is_some o) [
        | none ↦ refl
        | some t ↦ refl
      ])

  or_false : (b : Bool) → (b || false) ≡ b
  or_false true = refl
  or_false false = refl

  -- After any run of records from an engine without fingerprints, a record with a fingerprint is found
  -- to be a duplicate exactly if some record of the run had that fingerprint.
  pub detect_duplicate_fingerprint-occurs :
      (plots : List (Text × Plot fs)) (engine : DetectionEngine fs) (now : Text) (plot : Plot fs)
      → engine.fingerprints ≡ []
      → is_empty_text (or_empty plot.fingerprint) ≡ false
      → is_nonempty
          (detect_duplicate_fingerprint fs now plot
            (process_records fs plots engine).0.fingerprints).0
        ≡ occurs (or_empty plot.fingerprint) plots
  unfolding detect_duplicate_fingerprint
  detect_duplicate_fingerprint-occurs plots engine now plot fresh full =
      flags_seen (or_empty plot.fingerprint) (timestamp_or_now fs now plot.timestamp)
        (process_records fs plots engine).0.fingerprints full
      ∙ remembered plots engine (or_empty plot.fingerprint) full
      ∙ ap
          (λ seen.
            occurs (or_empty plot.fingerprint) plots
            || is_some (lookup (or_empty plot.fingerprint) seen))
          fresh
      ∙ or_false (occurs (or_empty plot.fingerprint) plots)
