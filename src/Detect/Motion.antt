-- ===== src/Detect/Motion.antt =====
-- The rules on time and azimuth of oad_parser/detectors/state.py.
use oad_parser.Common.{Bool, ◌&&◌, Option, some, List, [], if◌then◌else◌}
use oad_parser.Common.Dict.{equals_text}
use oad_parser.Detect.Record.{
  Floats, Plot, Finding, DetectionConfig, SiteState, time_delta_is, azimuth_deltas,
  azimuth_jump_exceeds, time_delta_rule, azimuth_rule, time_delta_too_large, outside_lobe,
  azimuth_jump,
}
use oad_parser.Detect.Rules.{finding, wnn, or_empty, min_float, max_float, circular_degrees_delta}

module _ (fs : Floats) where
  -- The record with the delta, also as the router's where the router's time is used.
  abbrev pub with_time_delta : Bool → fs.Float → Plot fs → Plot fs
  with_time_delta use_router_time delta plot =
      if use_router_time
      then record plot { radar_time_delta = some delta; router_time_delta = some delta }
      else record plot { radar_time_delta = some delta }

  abbrev pub time_delta_between :
      Bool
      → Option fs.Float
      → Option fs.Float
      → Option fs.Float
      → Plot fs
      → List (Finding fs) × Plot fs
  time_delta_between use_router_time (some threshold) (some current) (some previous) plot =
      let delta = fs.sub current previous in
      (
        (if fs.lt threshold delta
            then finding fs time_delta_rule time_delta_too_large (time_delta_is (fs.round_2 delta))
            else []),
        with_time_delta use_router_time delta plot,
      )
  time_delta_between use_router_time _ _ _ plot = ([], plot)

  unfoldable pub detect_legacy_time_delta :
      DetectionConfig fs → Plot fs → SiteState fs → List (Finding fs) × Plot fs
  detect_legacy_time_delta config plot state =
      let use_router_time = equals_text (or_empty plot.artcc) wnn in
      time_delta_between use_router_time config.max_radar_time_delta_seconds
        (if use_router_time then plot.router_timestamp else plot.radar_timestamp)
        (if use_router_time then state.last_router_timestamp else state.last_radar_timestamp) plot

  -- The state with the window started again at the record.
  abbrev pub restarted : fs.Float → fs.Float → SiteState fs → SiteState fs
  restarted radar_timestamp azimuth state = record state {
    window_start_radar_timestamp = some radar_timestamp;
    min_azimuth_degrees = azimuth;
    max_azimuth_degrees = azimuth;
  }

  -- The branch with a window: `started` is where it starts.
  abbrev pub azimuth_in_window :
      fs.Float
      → fs.Float
      → fs.Float
      → fs.Float
      → fs.Float
      → SiteState fs
      → List (Finding fs) × SiteState fs
  azimuth_in_window limit window radar_timestamp started azimuth state =
      let min_azimuth = min_float fs azimuth state.min_azimuth_degrees in
      let max_azimuth = max_float fs azimuth state.max_azimuth_degrees in
      let azimuth_delta = fs.sub max_azimuth min_azimuth in
      let inverse_azimuth_delta = fs.sub fs.full_circle azimuth_delta in
      if fs.lt window (fs.sub radar_timestamp started)
      then ([], restarted radar_timestamp azimuth state)
      else if fs.lt limit azimuth_delta && fs.lt limit inverse_azimuth_delta
      then (
        finding fs azimuth_rule outside_lobe (azimuth_deltas azimuth_delta inverse_azimuth_delta),
        restarted radar_timestamp azimuth state,
      )
      else (
        [],
        record state { min_azimuth_degrees = min_azimuth; max_azimuth_degrees = max_azimuth },
      )

  -- The branch without one.
  abbrev pub azimuth_from_last :
      fs.Float → fs.Float → fs.Float → SiteState fs → List (Finding fs) × SiteState fs
  azimuth_from_last limit azimuth last state =
      let delta = circular_degrees_delta fs azimuth last in
      (
        (if fs.lt limit delta
            then finding fs azimuth_rule azimuth_jump (azimuth_jump_exceeds delta limit)
            else []),
        state,
      )

  abbrev pub azimuth_windowed :
      fs.Float
      → Option fs.Float
      → Option fs.Float
      → Option fs.Float
      → fs.Float
      → fs.Float
      → SiteState fs
      → List (Finding fs) × SiteState fs
  azimuth_windowed limit (some window) (some radar_timestamp) (some started) azimuth last state =
      azimuth_in_window limit window radar_timestamp started azimuth state
  azimuth_windowed limit _ _ _ azimuth last state = azimuth_from_last limit azimuth last state

  abbrev pub azimuth_between :
      DetectionConfig fs
      → Option fs.Float
      → Option fs.Float
      → Option fs.Float
      → Option fs.Float
      → SiteState fs
      → List (Finding fs) × SiteState fs
  azimuth_between config (some limit) (some azimuth) (some last) radar_timestamp state =
      if fs.lt azimuth fs.zero_degrees
      then ([], state)
      else if fs.lt last fs.zero_degrees
      then ([], state)
      else azimuth_windowed limit config.azimuth_window_seconds radar_timestamp
          state.window_start_radar_timestamp azimuth last state
  azimuth_between config _ _ _ radar_timestamp state = ([], state)

  unfoldable pub detect_azimuth :
      DetectionConfig fs → Plot fs → SiteState fs → List (Finding fs) × SiteState fs
  detect_azimuth config plot state =
      azimuth_between config config.max_azimuth_jump_degrees plot.azimuth_degrees
        state.last_azimuth_degrees plot.radar_timestamp state
