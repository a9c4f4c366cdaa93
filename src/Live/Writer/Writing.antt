-- ===== src/Live/Writer/Writing.antt =====
-- `RotatingJsonlWriter` of oad_parser/live/writer.py: which records are written and how they are counted.
use oad_parser.Common.{
  ℕ, ◌+◌, ◌-◌, ◌%◌, Bool, true, false, not, ◌&&◌, Option, none, some, List, [], ◌∷◌, ◌++◌, ltb, leb,
  ◌==◌, if◌then◌else◌, Result, ok, err, value_error, raise_if, ◌>>◌,
}
use oad_parser.Common.Int.{ℤ, pos, pos_part, leb_ℤ}
use oad_parser.Common.Text.{Text, codes}
use oad_parser.Common.Value.{
  Value, text, mapping, Fields, end, field, Python, get, put, equals_text_value, text_or_null,
}
use oad_parser.Live.DuplicateKeys.{DuplicateKeyAccounting, new_accounting, register}
use oad_parser.Live.Writer.Alerts.{has_actionable_alerts}
use oad_parser.Live.Writer.Compact.{CompactOptions, compact_live_record}
use oad_parser.Live.Writer.Policy.{
  FieldPolicy, default_field_policy, apply_field_policy, field_policy_controls_order,
}
use oad_parser.Live.Writer.Output.{
  System, OutputSettings, Output, JsonlWriteResult, read_clock, rotate_active_file, write_payload,
}
use oad_parser.Live.Writer.Analysis.{
  analysis_duplicate_key, Accounting, number, apply_analysis_mode_accounting,
}

pub record RotatingJsonlWriter : Type 0 where
  pub settings : OutputSettings
  pub options : CompactOptions
  pub normal_record_sample_rate : ℕ
  pub field_policy : FieldPolicy
  pub normal_event_counter : ℕ
  pub records_seen : ℕ
  pub records_emitted : ℕ
  pub duplicate_suppressed : ℕ
  pub sampled_normal_suppressed : ℕ
  pub duplicate_accounting : DuplicateKeyAccounting
  pub output : Output

-- The numbers that the constructor checks.
pub record Limits : Type 0 where
  pub rotate_seconds : ℤ
  pub rotate_max_bytes : ℤ
  pub normal_record_sample_rate : ℤ

unfoldable pub check_limits : Limits → Result (Unit {0})
check_limits l = do
  raise_if (leb_ℤ l.rotate_seconds (pos 0)) (value_error "rotate_seconds must be > 0")
  raise_if (leb_ℤ l.rotate_max_bytes (pos 0)) (value_error "rotate_max_bytes must be > 0")
  raise_if (leb_ℤ l.normal_record_sample_rate (pos 0))
      (value_error "normal_record_sample_rate must be > 0")

abbrev or_default_policy : Option FieldPolicy → FieldPolicy
or_default_policy none = default_field_policy
or_default_policy (some policy) = policy

module _ (py : Python) (system : System) where
  -- The active file that is there, with the time of its last change.
  abbrev initial_output : Option (List ℕ × ℕ) → List (Text × List ℕ) → Output
  initial_output none closed = record {
    active = none;
    closed = closed;
    clock_reads = 1;
    system_calls = 0;
    active_started_at_utc = system.now 0;
  }
  initial_output (some (bytes, modified)) closed = record {
    active = some bytes;
    closed = closed;
    clock_reads = 0;
    system_calls = 0;
    active_started_at_utc = modified;
  }

  unfoldable pub new_writer :
      Text
      → Limits
      → Bool
      → CompactOptions
      → Option FieldPolicy
      → Option (List ℕ × ℕ)
      → List (Text × List ℕ)
      → Result RotatingJsonlWriter
  unfolding check_limits
  new_writer active_name limits rotation_enabled options policy active closed = do
    check_limits limits
    ok (record {
      settings = record {
        active_name = active_name;
        rotate_seconds = pos_part limits.rotate_seconds;
        rotate_max_bytes = pos_part limits.rotate_max_bytes;
        rotation_enabled = rotation_enabled;
      };
      options = options;
      normal_record_sample_rate = pos_part limits.normal_record_sample_rate;
      field_policy = or_default_policy policy;
      normal_event_counter = 0;
      records_seen = 0;
      records_emitted = 0;
      duplicate_suppressed = 0;
      sampled_normal_suppressed = 0;
      duplicate_accounting = new_accounting;
      output = initial_output active closed;
    })

  abbrev pub Written : Type 0
  Written = RotatingJsonlWriter × Result JsonlWriteResult

  abbrev nothing_written : JsonlWriteResult
  nothing_written = record { bytes_written = 0; rotated_path = none }

  abbrev pub with_output : RotatingJsonlWriter → Output × Result JsonlWriteResult → Written
  with_output w (o, r) = (record w { output = o }, r)

  unfoldable pub payload_of : RotatingJsonlWriter → Fields → List ℕ
  payload_of w encoded =
      py.dumps (not (field_policy_controls_order (some w.field_policy))) (mapping encoded)
      ++ (10 ∷ [])

  unfoldable pub write_encoded_record : RotatingJsonlWriter → Fields → Written
  write_encoded_record w encoded =
      with_output w (write_payload system w.settings (payload_of w encoded) w.output)

  abbrev register_if : Option Text → DuplicateKeyAccounting → DuplicateKeyAccounting × ℕ
  register_if none accounting = (accounting, 0)
  register_if (some key) accounting = register key accounting

  unfoldable pub register_duplicate_observation :
      Option Text → RotatingJsonlWriter → RotatingJsonlWriter × ℕ
  register_duplicate_observation key w =
      let (accounting, count) = register_if key w.duplicate_accounting in
      (record w { duplicate_accounting = accounting }, count)

  -- A further observation of a key is never written.
  abbrev should_emit_duplicate_observation : Fields → ℕ → Bool
  should_emit_duplicate_observation encoded count = false

  abbrev is_suppressed_duplicate : Option Text → Fields → ℕ → Bool
  is_suppressed_duplicate none encoded count = false
  is_suppressed_duplicate (some key) encoded count =
      ltb 1 count && not (should_emit_duplicate_observation encoded count)

  abbrev with_rate : ℕ → Fields → Fields
  with_rate n encoded = put (codes "event.sample.rate") (number n) encoded

  -- Whether the record is written, the record with its sample rate, and the counter of normal events.
  unfoldable pub should_emit_record :
      Fields → Fields → RotatingJsonlWriter → Bool × Fields × RotatingJsonlWriter
  should_emit_record source encoded w =
      let rate = w.normal_record_sample_rate in
      let counter = w.normal_event_counter + 1 in
      let counted = record w { normal_event_counter = counter } in
      if not (equals_text_value (get (codes "record_type") source) (codes "ecg_event"))
      then (true, encoded, w)
      else if has_actionable_alerts py encoded
      then (true, encoded, w)
      else if leb rate 1
      then (true, with_rate 1 encoded, w)
      else if (counter - 1) % rate == 0
      then (true, with_rate rate encoded, counted)
      else (false, encoded, counted)

  abbrev accounting_of : RotatingJsonlWriter → Option Text → ℕ → Accounting
  accounting_of w key count = record {
    duplicate_key = key;
    duplicate_count = count;
    records_seen = w.records_seen;
    records_emitted = w.records_emitted;
    duplicates_suppressed = w.duplicate_suppressed;
    sampled_normals_suppressed = w.sampled_normal_suppressed;
    duplicate_unique_keys_seen = w.duplicate_accounting.unique_keys_seen;
    duplicate_keys_with_duplicates = w.duplicate_accounting.keys_with_duplicates;
    duplicate_max_key_count = w.duplicate_accounting.max_key_count;
  }

  unfoldable pub emit_record : Option Text → ℕ → Fields → RotatingJsonlWriter → Written
  emit_record key count encoded w =
      let emitted = record w { records_emitted = w.records_emitted + 1 } in
      let accounted = apply_analysis_mode_accounting (accounting_of emitted key count) encoded in
      write_encoded_record emitted (apply_field_policy (some w.field_policy) accounted)

  abbrev pub emit_if : Option Text → ℕ → Bool × Fields × RotatingJsonlWriter → Written
  emit_if key count (true, encoded, w) = emit_record key count encoded w
  emit_if key count (false, encoded, w) =
      (record w { sampled_normal_suppressed = w.sampled_normal_suppressed + 1 }, ok nothing_written)

  -- `write_record` behind the duplicate accounting.
  unfoldable pub write_observed : Fields → Fields → Option Text → RotatingJsonlWriter × ℕ → Written
  write_observed source encoded key (w, count) =
      if is_suppressed_duplicate key encoded count
      then (record w { duplicate_suppressed = w.duplicate_suppressed + 1 }, ok nothing_written)
      else emit_if key count (should_emit_record source encoded w)

  unfoldable pub write_compact : Fields → Result (Option Fields) → RotatingJsonlWriter → Written
  write_compact source (err raised) w = (w, err raised)
  write_compact source (ok none) w = (w, ok nothing_written)
  write_compact source (ok (some encoded)) w =
      let key = analysis_duplicate_key py encoded in
      let seen = record w { records_seen = w.records_seen + 1 } in
      write_observed source encoded key (register_duplicate_observation key seen)

  unfoldable pub write_record : Fields → RotatingJsonlWriter → Written
  write_record source w = write_compact source (compact_live_record py w.options source) w

  abbrev snapshot_of : Text → Text → RotatingJsonlWriter → List (Text × Value)
  snapshot_of reason time w =
      let o = w.options in
      let a = w.duplicate_accounting in
      (codes "@timestamp", text time)
      ∷ (codes "event.created", text time)
      ∷ (codes "event.kind", text (codes "metric"))
      ∷ (codes "event.category", text (codes "parser_accounting"))
      ∷ (codes "event.action", text (codes "parser-accounting-snapshot"))
      ∷ (codes "event.dataset", text o.event_dataset)
      ∷ (codes "data_stream.type", text o.data_stream_type)
      ∷ (codes "data_stream.dataset", text o.data_stream_dataset)
      ∷ (codes "service.name", text o.service_name)
      ∷ (codes "record_type", text (codes "parser_accounting"))
      ∷ (codes "parser.analysis.mode", text (codes "mode1_analysis_duplicate_only"))
      ∷ (codes "parser.accounting.snapshot.reason", text reason)
      ∷ (codes "parser.accounting.output.records_seen", number w.records_seen)
      ∷ (codes "parser.accounting.output.records_emitted", number w.records_emitted)
      ∷ (codes "parser.accounting.suppressed.duplicates", number w.duplicate_suppressed)
      ∷ (codes "parser.accounting.suppressed.sampled_normals", number w.sampled_normal_suppressed)
      ∷ (codes "parser.accounting.suppressed.parse_warnings", number 0)
      ∷ (codes "parser.accounting.suppressed.modec_altitude_missing", number 0)
      ∷ (codes "parser.accounting.duplicate.unique_keys_seen", number a.unique_keys_seen)
      ∷ (codes "parser.accounting.duplicate.keys_with_duplicates", number a.keys_with_duplicates)
      ∷ (codes "parser.accounting.duplicate.max_key_count", number a.max_key_count)
      ∷ (codes "parser.accounting.duplicate.observations", number a.observations)
      ∷ (codes "parser.accounting.duplicate.last_key", text_or_null a.last_key)
      ∷ (codes "parser.accounting.duplicate.last_key.count", number a.last_key_count)
      ∷ []

  abbrev pub fields_of : List (Text × Value) → Fields
  fields_of [] = end
  fields_of ((key, value) ∷ entries) = field key value (fields_of entries)

  unfoldable pub write_accounting_snapshot : Text → RotatingJsonlWriter → Written
  write_accounting_snapshot reason w =
      let (read, now) = read_clock system w.settings w.output in
      let timed = record w { output = read } in
      let snapshot = fields_of (snapshot_of reason (system.iso now) w) in
      if w.records_seen == 0
      then (w, ok nothing_written)
      else write_encoded_record timed (apply_field_policy (some w.field_policy) snapshot)

  abbrev with_rotated :
      RotatingJsonlWriter
      → Output × Result (Option Text)
      → RotatingJsonlWriter × Result (Option Text)
  with_rotated w (o, r) = (record w { output = o }, r)

  unfoldable pub rotate_now : RotatingJsonlWriter → RotatingJsonlWriter × Result (Option Text)
  rotate_now w = with_rotated w (rotate_active_file system w.settings none w.output)
