-- ===== src/Detect/Engine.antt =====
-- `DetectionEngine` of oad_parser/detectors/state.py: the state that a record changes, and what it
-- writes to the record.
use oad_parser.Common.{ℕ, ◌+◌, Option, none, some, List, [], ◌∷◌, ◌++◌, if◌then◌else◌}
use oad_parser.Common.Int.{pos, ltb_ℤ}
use oad_parser.Common.Text.{Text}
use oad_parser.Common.Dict.{lookup, insert}
use oad_parser.Detect.Record.{
  Floats, Plot, Finding, DetectionConfig, SiteState, DetectionEngine, discovered_after_window,
  site_discovery_rule, new_unknown_site,
}
use oad_parser.Detect.Rules.{
  finding, or_empty, is_empty_text, legacy_site_key, valid_azimuth_or_default, detect_rtqc,
  detect_duplicate_fingerprint, detect_range, detect_sequence,
}
use oad_parser.Detect.Motion.{detect_legacy_time_delta, detect_azimuth}

-- `if value is not None: old = value`
abbrev pub updated {ℓ} : {A : Type ℓ} → Option A → Option A → Option A
updated none old = old
updated (some value) old = some value

module _ (fs : Floats) where
  abbrev pub updated_azimuth : Option fs.Float → Option fs.Float → Option fs.Float
  updated_azimuth none old = old
  updated_azimuth (some value) old = if fs.lt value fs.zero_degrees then old else some value

  unfoldable pub update_site_state : Plot fs → SiteState fs → SiteState fs
  update_site_state plot state = record state {
    last_sequence = updated plot.sequence state.last_sequence;
    last_router_timestamp = updated plot.router_timestamp state.last_router_timestamp;
    last_radar_timestamp = updated plot.radar_timestamp state.last_radar_timestamp;
    last_azimuth_degrees = updated_azimuth plot.azimuth_degrees state.last_azimuth_degrees;
  }

  -- The state of a site that a record is the first of; 360.0 is the circle and 0.0 is zero.
  unfoldable pub new_site : Plot fs → SiteState fs
  new_site plot = record {
    last_sequence = plot.sequence;
    last_router_timestamp = plot.router_timestamp;
    last_radar_timestamp = plot.radar_timestamp;
    last_azimuth_degrees = plot.azimuth_degrees;
    window_start_radar_timestamp = plot.radar_timestamp;
    min_azimuth_degrees = valid_azimuth_or_default fs plot.azimuth_degrees fs.full_circle;
    max_azimuth_degrees = valid_azimuth_or_default fs plot.azimuth_degrees fs.zero_degrees;
  }

  -- The findings on a site that is known, the record and the site's state after them.
  unfoldable pub known_site :
      DetectionConfig fs → Plot fs → SiteState fs → List (Finding fs) × Plot fs × SiteState fs
  known_site config plot state =
      let (on_sequence, sequenced) = detect_sequence fs config plot state in
      let (on_time, timed) = detect_legacy_time_delta fs config sequenced state in
      let (on_azimuth, moved) = detect_azimuth fs config timed state in
      (on_sequence ++ (on_time ++ on_azimuth), timed, update_site_state timed moved)

  abbrev pub discovery_finding : DetectionConfig fs → ℕ → Text → List (Finding fs)
  discovery_finding config record_count site_key =
      if ltb_ℤ config.discovery_window_records (pos record_count)
      then finding fs site_discovery_rule new_unknown_site (discovered_after_window site_key)
      else []

  abbrev pub site_found :
      DetectionConfig fs
      → ℕ
      → Text
      → Plot fs
      → Option (SiteState fs)
      → List (Finding fs) × Plot fs × SiteState fs
  site_found config record_count site_key plot none =
      (discovery_finding config record_count site_key, plot, new_site plot)
  site_found config record_count site_key plot (some state) = known_site config plot state

  abbrev pub site_key_of : Plot fs → Text
  site_key_of plot = legacy_site_key (or_empty plot.artcc) (or_empty plot.site_id) plot.channel

  unfoldable pub detect_site_state :
      DetectionConfig fs
      → ℕ
      → Plot fs
      → List (Text × SiteState fs)
      → List (Finding fs) × Plot fs × List (Text × SiteState fs)
  detect_site_state config record_count plot sites =
      let site_key = site_key_of plot in
      let (findings, written, state) =
        site_found config record_count site_key plot (lookup site_key sites) in
      if is_empty_text site_key
      then ([], plot, sites)
      else (findings, written, insert site_key state sites)

  -- The alert of the first finding, and the details of all.
  unfoldable pub annotated : List (Finding fs) → Plot fs → Plot fs
  annotated [] plot = plot
  annotated (f ∷ fs') plot = record plot { alert = some f.alert; alert_details = f ∷ fs' }

  unfoldable pub process_record : Text → DetectionEngine fs → Plot fs → DetectionEngine fs × Plot fs
  process_record now engine plot =
      let record_count = engine.record_count + 1 in
      let (duplicates, fingerprints) =
        detect_duplicate_fingerprint fs now plot engine.fingerprints in
      let (on_site, written, sites) =
        detect_site_state engine.config record_count plot engine.sites in
      (
        record engine { record_count = record_count; sites = sites; fingerprints = fingerprints },
        annotated
            (detect_rtqc fs plot ++ (duplicates ++ (detect_range fs engine.config plot ++ on_site)))
            written,
      )

  -- `[self.process_record(record) for record in records]`, each with the time it is processed at.
  unfoldable pub process_records :
      List (Text × Plot fs) → DetectionEngine fs → DetectionEngine fs × List (Plot fs)
  process_records [] engine = (engine, [])
  process_records ((now, plot) ∷ plots) engine =
      let (after, written) = process_record now engine plot in
      let (last, rest) = process_records plots after in (last, written ∷ rest)
