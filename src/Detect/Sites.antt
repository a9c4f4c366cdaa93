-- ===== src/Detect/Sites.antt =====
-- The last sequence number that the engine of oad_parser/detectors/state.py keeps for each site.
use oad_parser.Common.{
  ℕ, ◌+◌, ◌≡◌, refl, ap, ap₂, ◌∙◌, false, Option, none, some, List, [], ◌∷◌, if◌then◌else◌,
  Bool-cases, inl, inr,
}
use oad_parser.Common.Int.{ℤ}
use oad_parser.Common.Text.{Text}
use oad_parser.Common.Dict.{equals_text, equals_text→≡, lookup, insert}
use oad_parser.Detect.Record.{Floats, Plot, DetectionConfig, SiteState, DetectionEngine, Finding}
use oad_parser.Detect.Rules.{is_empty_text, detect_sequence}
use oad_parser.Detect.Motion.{detect_legacy_time_delta}
use oad_parser.Detect.Keeps.{sequence_keeps, time_keeps, azimuth_keeps}
use oad_parser.Detect.Engine.{
  updated, update_site_state, new_site, known_site, site_found, site_key_of, detect_site_state,
  process_record, process_records,
}

module _ (fs : Floats) where
  -- The last sequence number of a site that may not be there.
  abbrev pub tracked : Option (SiteState fs) → Option ℤ
  tracked none = none
  tracked (some state) = state.last_sequence

  updated-none : (o : Option ℤ) → o ≡ updated o none
  updated-none none = refl
  updated-none (some z) = refl

  found_tracks :
      (config : DetectionConfig fs) (count : ℕ) (key : Text) (plot : Plot fs)
      (site : Option (SiteState fs))
      → (site_found fs config count key plot site).2.last_sequence
        ≡ updated plot.sequence (tracked site)
  unfolding new_site known_site update_site_state
  found_tracks config count key plot none = updated-none plot.sequence
  found_tracks config count key plot (some state) =
      let sequenced = (detect_sequence fs config plot state).1 in
      let timed = (detect_legacy_time_delta fs config sequenced state).1 in
      ap₂ (λ p q. updated p q)
        (time_keeps fs config sequenced state ∙ sequence_keeps fs config plot state)
        (azimuth_keeps fs config timed state)

  -- The sites after a record of the site `own`.
  abbrev stored :
      DetectionConfig fs
      → ℕ
      → Text
      → Plot fs
      → List (Text × SiteState fs)
      → List (Finding fs) × Plot fs × List (Text × SiteState fs)
  stored config count own plot sites =
      let (findings, written, state) = site_found fs config count own plot (lookup own sites) in
      if is_empty_text own then ([], plot, sites) else (findings, written, insert own state sites)

  -- What a record with the sequence number `now` and the site `own` does to the number of a site.
  abbrev pub next_sequence : Text → Text → Option ℤ → Option ℤ → Option ℤ
  next_sequence own key now last = if equals_text own key then updated now last else last

  stored_tracks :
      (config : DetectionConfig fs) (count : ℕ) (own key : Text) (plot : Plot fs)
      (sites : List (Text × SiteState fs))
      → is_empty_text key ≡ false
      → tracked (lookup key (stored config count own plot sites).2)
        ≡ next_sequence own key plot.sequence (tracked (lookup key sites))
  stored_tracks config count [] [] plot sites full = cc full
  stored_tracks config count [] (c ∷ cs) plot sites full = refl
  stored_tracks config count (d ∷ ds) key plot sites full =
      elim (Bool-cases (equals_text (d ∷ ds) key)) [
        | inl same ↦ rw (same) (
            found_tracks config count (d ∷ ds) plot (lookup (d ∷ ds) sites)
            ∙ ap (λ k. updated plot.sequence (tracked (lookup k sites)))
                (equals_text→≡ (d ∷ ds) key same))
        | inr other ↦ rw (other) refl
      ]

  processed_tracks :
      (now key : Text) (plot : Plot fs) (engine : DetectionEngine fs)
      → is_empty_text key ≡ false
      → tracked (lookup key (process_record fs now engine plot).0.sites)
        ≡ next_sequence (site_key_of fs plot) key plot.sequence (tracked (lookup key engine.sites))
  unfolding process_record detect_site_state
  processed_tracks now key plot engine full =
      stored_tracks engine.config (engine.record_count + 1) (site_key_of fs plot) key plot
        engine.sites full

  -- What the run does to the last sequence number of one site.
  abbrev pub last_sequence_of : Text → List (Text × Plot fs) → Option ℤ → Option ℤ
  last_sequence_of key [] last = last
  last_sequence_of key ((now, plot) ∷ plots) last =
      last_sequence_of key plots (next_sequence (site_key_of fs plot) key plot.sequence last)

  -- After any run of records, the engine knows for each site key the sequence number that the site's
  -- latest record with a number had, or what it knew before: records of other sites and records
  -- without a site change nothing of it.
  pub process_records-last_sequence_of :
      (key : Text) (plots : List (Text × Plot fs)) (engine : DetectionEngine fs)
      → is_empty_text key ≡ false
      → tracked (lookup key (process_records fs plots engine).0.sites)
        ≡ last_sequence_of key plots (tracked (lookup key engine.sites))
  unfolding process_records
  process_records-last_sequence_of key [] engine full = refl
  process_records-last_sequence_of key ((now, plot) ∷ plots) engine full =
      let ih =
        process_records-last_sequence_of key plots (process_record fs now engine plot).0 full in
      ih ∙ ap (λ last. last_sequence_of key plots last) (processed_tracks now key plot engine full)
