-- ===== src/Live/Sequence/Steps.antt =====
-- What the steps of `LiveSequenceState` of oad_parser/live/pipeline.py do to the sequence numbers, the
-- delta and the alerts of a record.
use oad_parser.Common.{
  ◌≡◌, refl, ◌∙◌, false, ◌||◌, ◌&&◌, Option, none, some, List, [], ◌∷◌, if◌then◌else◌, if_intro, ok,
  All,
}
use oad_parser.Common.Int.{ℤ, pos, ltb_ℤ, leb_ℤ, ◌-ℤ◌, mod_ℤ}
use oad_parser.Common.Text.{Text, codes}
use oad_parser.Common.Dict.{equals_text}
use oad_parser.Common.Value.{
  Value, null, integer, sequence, Fields, Python, find, get, put, mappings,
}
use oad_parser.Common.Put.{get-put_other, get-put_same}
use oad_parser.Detect.Record.{Floats}
use oad_parser.Live.Alerts.Taxonomy.{AlertId, make_alert}
use oad_parser.Live.Alerts.Config.{Numbers, EcgAlertConfig}
use oad_parser.Live.Alerts.Rules.{as_float}
use oad_parser.Live.Alerts.Disabled.{All-append}
use oad_parser.Live.Alerts.Evaluate.{select_loop, apply_legacy_alert_fields}
use oad_parser.Live.Alerts.Selected.{IsNamed, IsMostSevere-IsNamed, select_loop-IsMostSevere}
use oad_parser.Live.Sequence.State.{
  Key, equals_tuple, at_key, LiveSequenceState, Step, sequence_key, int_value,
}
use oad_parser.Live.Sequence.Deltas.{
  abs_ℤ, with_deltas, config_delta_alerts, sequence_after, sequence_of_value, annotate_time,
  delta_noted, time_alerts, modulo_alerts, delta_alerts, check_time_delta, update_time_state,
}

abbrev pub number_in : Fields → Option ℤ
number_in r = int_value (get (codes "sequence") r)

-- The delta from the previous number of the feed to the record's own, modulo 256.
abbrev pub delta_of : Option ℤ → Option ℤ → Value
delta_of previous none = null
delta_of none (some current) = null
delta_of (some previous) (some current) = integer (pos (mod_ℤ (current -ℤ previous) 256))

abbrev pub next_number : Key → Key → Option ℤ → Option ℤ → Option ℤ
next_number key own none before = before
next_number key own (some current) before = if equals_tuple own key then some current else before

pub make_alert-IsNamed :
    (id : AlertId) (details : Text) (evidence : Fields) → IsNamed (make_alert id details evidence)
unfolding make_alert find
make_alert-IsNamed id details evidence = ((_, refl), (_, refl))

make_alert-AreNamed :
    (id : AlertId) (details : Text) (evidence : Fields)
    → All IsNamed (make_alert id details evidence ∷ [])
make_alert-AreNamed id details evidence = (make_alert-IsNamed id details evidence, tt)

module _ (py : Python) (fs : Floats) (n : Numbers fs) where
  abbrev pub delta_in : Fields → Value
  delta_in r = get (codes "sequence_delta") r

  with_deltas-delta :
      (delta raw : Value) (r : Fields) → delta_in (with_deltas py fs n delta raw r) ≡ delta
  with_deltas-delta delta raw r =
      rw
        (
          get-put_other (codes "sequence_delta_raw") (codes "sequence_delta") raw
              (put (codes "sequence_delta") delta r) refl,
          get-put_same (codes "sequence_delta") delta r,
        )
        refl

  modulo_alerts-IsNamed :
      (maximum : Option ℤ) (r : Fields) (previous current : ℤ)
      → All IsNamed (modulo_alerts py fs n maximum r previous current)
  modulo_alerts-IsNamed none r previous current = tt
  modulo_alerts-IsNamed (some maximum) r previous current =
      if_intro (All IsNamed) (ltb_ℤ maximum (pos (mod_ℤ (current -ℤ previous) 256))) _ _
        (λ _. make_alert-AreNamed _ _ _) λ _. tt

  delta_alerts-IsNamed :
      (least most maximum : Option ℤ) (r : Fields) (previous current : ℤ)
      → All IsNamed (delta_alerts py fs n least most maximum r previous current)
  delta_alerts-IsNamed none most maximum r previous current =
      modulo_alerts-IsNamed maximum r previous current
  delta_alerts-IsNamed (some least) none maximum r previous current =
      modulo_alerts-IsNamed maximum r previous current
  delta_alerts-IsNamed (some least) (some most) maximum r previous current =
      if_intro (All IsNamed)
        (leb_ℤ least (abs_ℤ (current -ℤ previous)) && leb_ℤ (abs_ℤ (current -ℤ previous)) most) _ _
        (λ _. make_alert-AreNamed _ _ _) λ _. tt

  config_delta_alerts-IsNamed :
      (config : Option (EcgAlertConfig fs)) (r : Fields) (previous current : ℤ)
      → All IsNamed (config_delta_alerts py fs n config r previous current)
  config_delta_alerts-IsNamed none r previous current = tt
  config_delta_alerts-IsNamed (some c) r previous current =
      delta_alerts-IsNamed c.legacy_sequence_delta_min_abs c.legacy_sequence_delta_max_abs
        c.max_sequence_delta r previous current

  -- What a step does to the numbers, the delta and the alerts.
  pub record IsStepped (numbers : Key → Option ℤ) (delta : Value) (step : Step fs) : Type 0 where
    pub last : (key : Key) → at_key key step.0.last_sequence_by_key ≡ numbers key
    pub same_delta : delta_in step.1 ≡ delta
    pub named : All IsNamed step.2

  sequence_after-IsStepped :
      (config : Option (EcgAlertConfig fs)) (previous : Option ℤ) (current : ℤ)
      (s : LiveSequenceState fs) (r : Fields) (alerts : List Fields)
      → All IsNamed alerts
      → IsStepped
          (λ key. at_key key s.last_sequence_by_key)
          (delta_of previous (some current))
          (sequence_after py fs n config previous current s r alerts)
  sequence_after-IsStepped config none current s r alerts named = record {
    last = λ key. refl;
    same_delta = with_deltas-delta null null r;
    named = named;
  }
  sequence_after-IsStepped config (some previous) current s r alerts named = record {
    last = λ key. refl;
    same_delta = with_deltas-delta _ _ r;
    named =
        All-append IsNamed alerts _ named (config_delta_alerts-IsNamed config _ previous current);
  }

  pub sequence_of_value-IsStepped :
      (config : Option (EcgAlertConfig fs)) (number : Option ℤ) (s : LiveSequenceState fs)
      (r : Fields) (alerts : List Fields)
      → All IsNamed alerts
      → IsStepped
          (λ key. next_number key (sequence_key r) number (at_key key s.last_sequence_by_key))
          (delta_of (at_key (sequence_key r) s.last_sequence_by_key) number)
          (sequence_of_value py fs n config number s r alerts)
  sequence_of_value-IsStepped config none s r alerts named = record {
    last = λ key. refl;
    same_delta = with_deltas-delta null null r;
    named = named;
  }
  sequence_of_value-IsStepped config (some current) s r alerts named =
      sequence_after-IsStepped config (at_key (sequence_key r) s.last_sequence_by_key) current
        (record s { last_sequence_by_key = (sequence_key r, current) ∷ s.last_sequence_by_key }) r
        alerts named

  time_alerts-IsNamed :
      (threshold : Option fs.Float) (name : Text) (r : Fields) (previous current : fs.Float)
      → All IsNamed (time_alerts py fs n threshold name r previous current)
  time_alerts-IsNamed none name r previous current = tt
  time_alerts-IsNamed (some threshold) name r previous current =
      if_intro (All IsNamed)
        (fs.lt threshold (fs.sub current previous)
          || fs.lt (fs.sub current previous) fs.zero_degrees)
        _ _ (λ _. make_alert-AreNamed _ _ _) λ _. tt

  -- A record and its alerts behind a check of a time.
  abbrev IsTimed : Fields → Fields × List Fields → Type 0
  IsTimed r (noted, alerts) = (delta_in noted ≡ delta_in r) × All IsNamed alerts

  delta_noted-IsTimed :
      (threshold : Option fs.Float) (name delta_name : Text) (current previous : Option fs.Float)
      (r : Fields) (alerts : List Fields)
      → equals_text delta_name (codes "sequence_delta") ≡ false
      → All IsNamed alerts
      → IsTimed r (delta_noted py fs n threshold name delta_name current previous r alerts)
  delta_noted-IsTimed threshold name delta_name (some current) (some previous) r alerts apart
        named =
      (
        get-put_other delta_name (codes "sequence_delta") _ r apart,
        All-append IsNamed alerts _ named (time_alerts-IsNamed threshold name _ previous current),
      )
  delta_noted-IsTimed threshold name delta_name (some current) none r alerts apart named =
      (refl, named)
  delta_noted-IsTimed threshold name delta_name none previous r alerts apart named = (refl, named)

  pub annotate_time-IsStepped :
      (config : Option (EcgAlertConfig fs)) (numbers : Key → Option ℤ) (delta : Value)
      (step : Step fs)
      → IsStepped numbers delta step
      → IsStepped numbers delta (annotate_time py fs n config step.0 step.1 step.2)
  unfolding annotate_time update_time_state check_time_delta
  annotate_time-IsStepped none numbers delta step h = record {
    last = h.last;
    same_delta = h.same_delta;
    named = h.named;
  }
  annotate_time-IsStepped (some c) numbers delta (s, r, alerts) h =
      let (radar_delta, radar_named) =
        delta_noted-IsTimed c.max_radar_time_delta_seconds (codes "radar_timestamp")
          (codes "radar_time_delta") (as_float py fs n (get (codes "radar_timestamp") r))
          (at_key (sequence_key r) s.last_radar_timestamp_by_key) r alerts refl h.named in
      let (router_delta, router_named) =
        delta_noted-IsTimed c.max_router_time_delta_seconds (codes "router_timestamp")
          (codes "router_time_delta") _ (at_key (sequence_key r) s.last_router_timestamp_by_key) _ _
          refl radar_named in
      record {
        last = h.last;
        same_delta = router_delta ∙ radar_delta ∙ h.same_delta;
        named = router_named;
      }

  stored_delta :
      (r : Fields) (id details : Value) (alerts : List Fields)
      → delta_in (
          put
            (codes "alert_details")
            details
            (put (codes "alert") id (put (codes "alerts") (sequence (mappings alerts)) r)))
        ≡ delta_in r
  stored_delta r id details alerts =
      rw
        (
          get-put_other (codes "alert_details") (codes "sequence_delta") details
              (put (codes "alert") id (put (codes "alerts") (sequence (mappings alerts)) r)) refl,
          get-put_other (codes "alert") (codes "sequence_delta") id
              (put (codes "alerts") (sequence (mappings alerts)) r) refl,
          get-put_other (codes "alerts") (codes "sequence_delta") (sequence (mappings alerts)) r
              refl,
        )
        refl

  pub apply_legacy_alert_fields-delta :
      (r : Fields) (alerts : List Fields)
      → All IsNamed alerts
      → (d : Fields) × (apply_legacy_alert_fields py r alerts ≡ ok d) × (delta_in d ≡ delta_in r)
  unfolding apply_legacy_alert_fields
  apply_legacy_alert_fields-delta r [] named = (_, refl, stored_delta r null null [])
  apply_legacy_alert_fields-delta r (a ∷ alerts) named =
      let best = select_loop py a alerts in
      let ((id, id_found), (details, details_found)) =
        IsMostSevere-IsNamed py best (a ∷ alerts) (select_loop-IsMostSevere py a alerts) named in
      (_, rw (id_found, details_found) refl, stored_delta r id details (a ∷ alerts))
