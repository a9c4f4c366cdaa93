-- ===== src/Detect/Rules.antt =====
-- The rules of oad_parser/detectors/state.py, one function per method. A rule that writes to the
-- record or to the site's state returns what it leaves there.
use oad_parser.Common.{
  ℕ, Bool, true, false, not, ◌&&◌, ◌||◌, Option, none, some, List, [], ◌∷◌, ◌++◌, if◌then◌else◌,
}
use oad_parser.Common.Int.{ℤ, pos, negsuc, ◌-ℤ◌, ltb_ℤ, leb_ℤ, mod_ℤ}
use oad_parser.Common.Text.{Text, decimal}
use oad_parser.Common.Dict.{equals_text, lookup, insert}
use oad_parser.Ecg.Block.{MessageType, rtqc}
use oad_parser.Detect.Record.{
  Floats, Plot, Details, rtqc_detected, originally_transmitted_at, impossible_range,
  sequence_delta_is, sequence_delta_exceeds, Finding, DetectionConfig, SiteState, Rule, rtqc_rule,
  fingerprint_rule, range_rule, sequence_rule, Alert, rtqc_alert, duplicate_plot_found,
  impossible_range_alert, sequence_too_large, sequence_delta_alert,
}

abbrev pub sequence_number_modulus : ℕ
sequence_number_modulus = 256

abbrev pub legacy_sequence_delta_min : ℕ
legacy_sequence_delta_min = 15

abbrev pub legacy_sequence_delta_max : ℕ
legacy_sequence_delta_max = 240

-- "ZHN" and "WNN", the members of `LEGACY_CHANNEL_SITE_ARTCCS`.
abbrev pub zhn : Text
zhn = 90 ∷ 72 ∷ 78 ∷ []

abbrev pub wnn : Text
wnn = 87 ∷ 78 ∷ 78 ∷ []

-- `text or ""`
abbrev pub or_empty : Option Text → Text
or_empty none = []
or_empty (some t) = t

abbrev pub is_empty_text : Text → Bool
is_empty_text [] = true
is_empty_text (c ∷ cs) = false

-- `str(record.channel)`
abbrev pub channel_text : Option ℕ → Text
channel_text none = 78 ∷ 111 ∷ 110 ∷ 101 ∷ []
channel_text (some channel) = decimal channel

abbrev pub joined : Text → Text → Text
joined a b = a ++ (95 ∷ b)

-- `_legacy_site_key`, from the fields it reads.
unfoldable pub legacy_site_key : Text → Text → Option ℕ → Text
legacy_site_key artcc site_id channel =
    if is_empty_text site_id
    then []
    else if equals_text artcc zhn || equals_text artcc wnn
    then joined (joined artcc site_id) (channel_text channel)
    else if not (is_empty_text artcc)
    then joined artcc site_id
    else site_id

module _ (fs : Floats) where
  -- `_valid_azimuth_or_default`
  unfoldable pub valid_azimuth_or_default : Option fs.Float → fs.Float → fs.Float
  valid_azimuth_or_default none fallback = fallback
  valid_azimuth_or_default (some value) fallback =
      if fs.lt value fs.zero_degrees then fallback else value

  -- Python's `min` and `max`
  abbrev pub min_float : fs.Float → fs.Float → fs.Float
  min_float a b = if fs.lt b a then b else a

  abbrev pub max_float : fs.Float → fs.Float → fs.Float
  max_float a b = if fs.lt a b then b else a

  unfoldable pub circular_degrees_delta : fs.Float → fs.Float → fs.Float
  circular_degrees_delta first second =
      let raw_delta = fs.modulo (fs.abs (fs.sub first second)) fs.full_circle in
      min_float raw_delta (fs.sub fs.full_circle raw_delta)

  abbrev pub finding : Rule → Alert → Details fs → List (Finding fs)
  finding rule alert details = record { rule = rule; alert = alert; details = details } ∷ []

  abbrev pub is_rtqc_type : Option MessageType → Bool
  is_rtqc_type (some rtqc) = true
  is_rtqc_type _ = false

  abbrev pub is_rtqc_alert : Option Alert → Bool
  is_rtqc_alert (some rtqc_alert) = true
  is_rtqc_alert _ = false

  unfoldable pub detect_rtqc : Plot fs → List (Finding fs)
  detect_rtqc plot =
      if is_rtqc_type plot.message_type || is_rtqc_alert plot.alert
      then finding rtqc_rule rtqc_alert rtqc_detected
      else []

  abbrev pub timestamp_or_now : Text → Option Text → Text
  timestamp_or_now now none = now
  timestamp_or_now now (some t) = if is_empty_text t then now else t

  abbrev pub duplicate_finding : Option Text → List (Finding fs)
  duplicate_finding none = []
  duplicate_finding (some first_seen) =
      finding fingerprint_rule duplicate_plot_found (originally_transmitted_at first_seen)

  -- The findings, and the fingerprints seen so far with the time of the latest sighting.
  unfoldable pub detect_duplicate_fingerprint :
      Text → Plot fs → List (Text × Text) → List (Finding fs) × List (Text × Text)
  detect_duplicate_fingerprint now plot fingerprints =
      let key = or_empty plot.fingerprint in
      if is_empty_text key then ([], fingerprints) else (
        duplicate_finding (lookup key fingerprints),
        insert key (timestamp_or_now now plot.timestamp) fingerprints,
      )

  -- `limit is not None and test(limit)`
  abbrev pub exceeds_limit : Option fs.Float → (fs.Float → Bool) → Bool
  exceeds_limit none test = false
  exceeds_limit (some limit) test = test limit

  abbrev pub range_finding : DetectionConfig fs → fs.Float → List (Finding fs)
  range_finding config range =
      if fs.lt range fs.zero_degrees
      then []
      else if exceeds_limit config.min_range_nm (λ limit. fs.le range limit)
      then finding range_rule impossible_range_alert (impossible_range range)
      else if exceeds_limit config.max_range_nm (λ limit. fs.le limit range)
      then finding range_rule impossible_range_alert (impossible_range range)
      else []

  unfoldable pub detect_range : DetectionConfig fs → Plot fs → List (Finding fs)
  detect_range config plot = elim plot.range_nm [
    | none ↦ []
    | some range ↦ range_finding config range
  ]

  abbrev pub is_legacy_gap : ℤ → Bool
  is_legacy_gap raw_delta =
      (leb_ℤ (pos legacy_sequence_delta_min) raw_delta
        && leb_ℤ raw_delta (pos legacy_sequence_delta_max))
      || (leb_ℤ (negsuc 239) raw_delta && leb_ℤ raw_delta (negsuc 14))

  abbrev pub modular_sequence : Option ℤ → ℤ → Plot fs → List (Finding fs) × Plot fs
  modular_sequence none raw_delta plot = ([], plot)
  modular_sequence (some limit) raw_delta plot =
      let delta = pos (mod_ℤ raw_delta sequence_number_modulus) in
      (
        (if ltb_ℤ limit delta
            then finding sequence_rule sequence_delta_alert (sequence_delta_exceeds delta limit)
            else []),
        record plot { sequence_delta = some delta },
      )

  abbrev pub sequence_from : DetectionConfig fs → ℤ → Plot fs → List (Finding fs) × Plot fs
  sequence_from config raw_delta plot =
      if config.legacy_sequence_delta
      then (
        (if is_legacy_gap raw_delta
            then finding sequence_rule sequence_too_large (sequence_delta_is raw_delta)
            else []),
        record plot { sequence_delta = some raw_delta },
      )
      else modular_sequence config.max_sequence_delta raw_delta plot

  abbrev pub sequence_between :
      DetectionConfig fs → Option ℤ → Option ℤ → Plot fs → List (Finding fs) × Plot fs
  sequence_between config (some current) (some previous) plot =
      sequence_from config (current -ℤ previous) plot
  sequence_between config _ _ plot = ([], plot)

  unfoldable pub detect_sequence :
      DetectionConfig fs → Plot fs → SiteState fs → List (Finding fs) × Plot fs
  detect_sequence config plot state = sequence_between config plot.sequence state.last_sequence plot
