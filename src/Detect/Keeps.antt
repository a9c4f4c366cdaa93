-- ===== src/Detect/Keeps.antt =====
-- What the rules of oad_parser/detectors/state.py leave alone: the sequence number of the record and
-- the last one of the site.
use oad_parser.Common.{◌≡◌, refl, Bool, true, false, ◌&&◌, Option, none, some, List, if_intro}
use oad_parser.Common.Int.{ℤ, ◌-ℤ◌}
use oad_parser.Detect.Record.{Floats, Plot, DetectionConfig, SiteState, Finding}
use oad_parser.Detect.Rules.{
  detect_sequence, sequence_between, sequence_from, modular_sequence, min_float, max_float,
}
use oad_parser.Detect.Motion.{
  detect_legacy_time_delta, time_delta_between, detect_azimuth, azimuth_between, azimuth_windowed,
  azimuth_in_window,
}

module _ (fs : Floats) where
  abbrev pub KeepsPlot : Plot fs → List (Finding fs) × Plot fs → Type 0
  KeepsPlot plot r = r.1.sequence ≡ plot.sequence

  abbrev pub KeepsState : SiteState fs → List (Finding fs) × SiteState fs → Type 0
  KeepsState state r = r.1.last_sequence ≡ state.last_sequence

  modular_keeps :
      (limit : Option ℤ) (raw : ℤ) (plot : Plot fs)
      → (modular_sequence fs limit raw plot).1.sequence ≡ plot.sequence
  modular_keeps none raw plot = refl
  modular_keeps (some limit) raw plot = refl

  from_keeps :
      (config : DetectionConfig fs) (raw : ℤ) (plot : Plot fs)
      → (sequence_from fs config raw plot).1.sequence ≡ plot.sequence
  from_keeps config raw plot =
      if_intro (KeepsPlot plot) config.legacy_sequence_delta _ _ (λ _. refl)
        (λ _. modular_keeps config.max_sequence_delta raw plot)

  between_keeps :
      (config : DetectionConfig fs) (current previous : Option ℤ) (plot : Plot fs)
      → (sequence_between fs config current previous plot).1.sequence ≡ plot.sequence
  between_keeps config none previous plot = refl
  between_keeps config (some current) none plot = refl
  between_keeps config (some current) (some previous) plot =
      from_keeps config (current -ℤ previous) plot

  pub sequence_keeps :
      (config : DetectionConfig fs) (plot : Plot fs) (state : SiteState fs)
      → (detect_sequence fs config plot state).1.sequence ≡ plot.sequence
  unfolding detect_sequence
  sequence_keeps config plot state = between_keeps config plot.sequence state.last_sequence plot

  time_between_keeps :
      (router : Bool) (threshold current previous : Option fs.Float) (plot : Plot fs)
      → (time_delta_between fs router threshold current previous plot).1.sequence ≡ plot.sequence
  time_between_keeps router none current previous plot = refl
  time_between_keeps router (some t) none previous plot = refl
  time_between_keeps router (some t) (some c) none plot = refl
  time_between_keeps true (some t) (some c) (some p) plot = refl
  time_between_keeps false (some t) (some c) (some p) plot = refl

  pub time_keeps :
      (config : DetectionConfig fs) (plot : Plot fs) (state : SiteState fs)
      → (detect_legacy_time_delta fs config plot state).1.sequence ≡ plot.sequence
  unfolding detect_legacy_time_delta
  time_keeps config plot state = time_between_keeps _ _ _ _ plot

  windowed_keeps :
      (limit window now started azimuth : fs.Float) (state : SiteState fs)
      → (azimuth_in_window fs limit window now started azimuth state).1.last_sequence
        ≡ state.last_sequence
  windowed_keeps limit window now started azimuth state =
      let low = min_float fs azimuth state.min_azimuth_degrees in
      let high = max_float fs azimuth state.max_azimuth_degrees in
      let delta = fs.sub high low in
      if_intro (KeepsState state) (fs.lt window (fs.sub now started)) _ _ (λ _. refl)
        λ _.
          if_intro (KeepsState state)
            (fs.lt limit delta && fs.lt limit (fs.sub fs.full_circle delta)) _ _ (λ _. refl)
            λ _. refl

  azimuth_windowed_keeps :
      (limit : fs.Float) (window now started : Option fs.Float) (azimuth last : fs.Float)
      (state : SiteState fs)
      → KeepsState state (azimuth_windowed fs limit window now started azimuth last state)
  azimuth_windowed_keeps limit none now started azimuth last state = refl
  azimuth_windowed_keeps limit (some w) none started azimuth last state = refl
  azimuth_windowed_keeps limit (some w) (some n) none azimuth last state = refl
  azimuth_windowed_keeps limit (some w) (some n) (some s) azimuth last state =
      windowed_keeps limit w n s azimuth state

  azimuth_between_keeps :
      (config : DetectionConfig fs) (limit azimuth last now : Option fs.Float)
      (state : SiteState fs)
      → KeepsState state (azimuth_between fs config limit azimuth last now state)
  azimuth_between_keeps config none azimuth last now state = refl
  azimuth_between_keeps config (some l) none last now state = refl
  azimuth_between_keeps config (some l) (some a) none now state = refl
  azimuth_between_keeps config (some l) (some a) (some p) now state =
      if_intro (KeepsState state) (fs.lt a fs.zero_degrees) _ _ (λ _. refl)
        λ _.
          if_intro (KeepsState state) (fs.lt p fs.zero_degrees) _ _ (λ _. refl)
            λ _.
              azimuth_windowed_keeps l config.azimuth_window_seconds now
                state.window_start_radar_timestamp a p state

  pub azimuth_keeps :
      (config : DetectionConfig fs) (plot : Plot fs) (state : SiteState fs)
      → KeepsState state (detect_azimuth fs config plot state)
  unfolding detect_azimuth
  azimuth_keeps config plot state = azimuth_between_keeps config _ _ _ _ state
