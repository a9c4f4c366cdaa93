-- ===== src/Tests/Writer.antt =====
-- Records, policies and files for oad_parser/live/writer.py.
use oad_parser.Common.{
  err, os_error, ◌==◌, none, ℕ, ◌*◌, ◌≡◌, refl, arith, Bool, true, false, ◌&&◌, ◌||◌, some, [], ◌∷◌,
  leb, replicate, ok,
}
use oad_parser.Common.Text.{codes, contains_char, ends_with, starts_with}
use oad_parser.Common.Int.{pos}
use oad_parser.Common.Value.{
  integer, text, mapping, Fields, end, field, Python, find, get, str, clean_str, contains_text,
  has_key,
}
use oad_parser.Live.DuplicateKeys.{new_accounting}
use oad_parser.Live.Counts.{occurrences}
use oad_parser.Live.Writer.Alerts.{has_actionable_alerts, normal_alerts, any_actionable}
use oad_parser.Live.Writer.Analysis.{analysis_duplicate_key}
use oad_parser.Live.Writer.Compact.{CompactOptions, compact_live_record}
use oad_parser.Live.Writer.Policy.{FieldPolicy, default_field_policy, label_of, apply_field_policy}
use oad_parser.Live.Writer.PolicyCheck.{
  field_policy_from_dict, field_policy_of, known_fields, sorted_difference, keys, allowed_keys,
  string_sequence, string_map, string_entries, validate_field_policy_v2_controls, duplicates,
  sorted_common, check_labels, check_label, check_notes, validate_siem_field_name,
}
use oad_parser.Live.Writer.Fields.{
  siem_known_policy_fields, siem_full_event_fields, siem_event_fields,
  siem_event_fields_before_alerts, siem_debug_only_event_fields, siem_accounting_event_fields,
  siem_accounting_snapshot_only_fields, siem_record_contract_fields, siem_optional_event_fields,
}
use oad_parser.Decoders.Registry.{leb_text}
use oad_parser.Live.Writer.Warnings.{warning_dicts}
use oad_parser.Live.Writer.Output.{
  System, OutputSettings, Output, allocate, write_payload, rotate_active_file, rotate_if_needed,
  next_rotated_path, base_name, first_candidate,
}
use oad_parser.Live.Writer.Writing.{RotatingJsonlWriter, write_record}
use oad_parser.Live.Writer.Balance.{
  IsBalanced, write, snapshot, rotate, call_all, call_all-IsBalanced,
}
use oad_parser.Live.Writer.Duplicates.{
  DuplicateStep, observed_keys, write_all, write_record-duplicate,
}
use oad_parser.Live.Writer.Names.{Allocated, candidates, allocate-Allocated}
use oad_parser.Live.Writer.Flags.{switched_on, compact_live_record-switched_on}
use oad_parser.Live.Writer.Sampling.{IsNormal, decisions, multiples, should_emit_record-multiples}
use oad_parser.Live.Writer.Lossless.{IsRecordOf}
use oad_parser.Live.Writer.Aliases.{apply_field_policy-accepted}

abbrev is_letter : ℕ → Bool
is_letter c = (leb 65 c && leb c 90) || (leb 97 c && leb c 122)

abbrev pub python : Python
python = record {
  repr = λ _. [];
  dumps = λ _ _. 123 ∷ 125 ∷ [];
  sha256_hex = λ _. codes "00";
  is_alpha = is_letter;
  is_alnum = λ c. is_letter c || (leb 48 c && leb c 57);
}

-- One minute from one reading to the next.
abbrev system : System
system = record {
  now = λ n. n * 60000000;
  stamp = λ _. codes "20260617T000000Z";
  iso = λ _. codes "2026-06-17T00:00:00Z";
  faults = λ k. none;
}

-- The fifth call of the file system is a write that fails behind its first byte.
abbrev full_disk : System
full_disk = record system { faults = λ k. elim (k == 4) [ true ↦ some 1 | false ↦ none ] }

abbrev settings : OutputSettings
settings = record {
  active_name = codes "ecg-current.json";
  rotate_seconds = 900;
  rotate_max_bytes = 4;
  rotation_enabled = true;
}

abbrev options : CompactOptions
options = record {
  include_debug_evidence = false;
  emit_parse_warning_alerts = false;
  emit_modec_altitude_missing_alerts = true;
  data_stream_type = codes "logs";
  data_stream_dataset = codes "ecg";
  event_dataset = codes "ecg.events";
  service_name = codes "oad-parser";
}

abbrev output : Output
output = record {
  active = some (1 ∷ 2 ∷ 3 ∷ []);
  closed = [];
  clock_reads = 0;
  system_calls = 0;
  active_started_at_utc = 0;
}

abbrev writer : RotatingJsonlWriter
writer = record {
  settings = settings;
  options = options;
  normal_record_sample_rate = 3;
  field_policy = default_field_policy;
  normal_event_counter = 0;
  records_seen = 0;
  records_emitted = 0;
  duplicate_suppressed = 0;
  sampled_normal_suppressed = 0;
  duplicate_accounting = new_accounting;
  output = output;
}

-- A record that is neither an event nor an error, with a hash.
abbrev hashed : Fields
hashed =
    field (codes "record_type") (text (codes "other"))
      (field (codes "hash.message.sha256") (text (codes "ab")) end)

abbrev event : Fields
event = field (codes "record_type") (text (codes "ecg_event")) end

call_all-IsBalanced_example : IsBalanced (
    call_all python system
      (write hashed ∷ snapshot (codes "end") ∷ rotate ∷ write hashed ∷ [])
      writer)
call_all-IsBalanced_example =
    call_all-IsBalanced python system
      (write hashed ∷ snapshot (codes "end") ∷ rotate ∷ write hashed ∷ []) writer
      (record { balance = refl; observed = omega arith })

hashed-compact : compact_live_record python options hashed ≡ ok (some hashed)
unfolding compact_live_record get find
hashed-compact = refl

hashed-key : analysis_duplicate_key python hashed ≡ some (codes "00")
unfolding analysis_duplicate_key get find
hashed-key = refl

write_record-duplicate_example :
    DuplicateStep python system
      (occurrences (codes "00") (observed_keys python system options (hashed ∷ [])))
      (write_all python system (hashed ∷ []) writer)
      (write_record python system hashed (write_all python system (hashed ∷ []) writer))
write_record-duplicate_example =
    write_record-duplicate python system (hashed ∷ []) hashed hashed (codes "00") writer refl
      hashed-compact hashed-key

allocate-Allocated_example :
    Allocated
      (λ _. true)
      (codes "a" ∷ candidates (λ n. n ∷ []) 9999 1)
      (allocate (λ _. true) (codes "a") (λ n. n ∷ []))
allocate-Allocated_example = allocate-Allocated (λ _. true) (codes "a") (λ n. n ∷ [])

-- Three bytes and two more are above the limit of four, so the file is rotated.
rotated :
    (write_payload system settings (9 ∷ 10 ∷ []) output).0.closed
    ≡ (codes "ecg-current-20260617T000000Z.jsonl", 1 ∷ 2 ∷ 3 ∷ []) ∷ []
unfolding write_payload rotate_if_needed rotate_active_file next_rotated_path base_name
    first_candidate allocate ends_with starts_with
rotated = refl

-- The write behind the rotation fails: the moved file is whole, and one byte of the line is there.
failed :
    let (o, r) = write_payload full_disk settings (9 ∷ 10 ∷ []) output in
    (r ≡ err os_error)
    × (o.active ≡ some (9 ∷ []))
    × (o.closed ≡ (codes "ecg-current-20260617T000000Z.jsonl", 1 ∷ 2 ∷ 3 ∷ []) ∷ [])
unfolding write_payload rotate_if_needed rotate_active_file next_rotated_path base_name
    first_candidate allocate ends_with starts_with
failed = (refl, refl, refl)

compact_live_record-switched_on_example :
    compact_live_record python options event
    ≡ compact_live_record python (switched_on python options) event
compact_live_record-switched_on_example = compact_live_record-switched_on python options event

event-IsNormal : IsNormal python system (event, event)
unfolding get find has_actionable_alerts normal_alerts warning_dicts clean_str any_actionable
event-IsNormal = (refl, refl)

should_emit_record-multiples_example :
    decisions python system (replicate 4 (event, event)) writer
    ≡ multiples python system 3 0 (replicate 4 (event, event))
should_emit_record-multiples_example =
    should_emit_record-multiples python system (replicate 4 (event, event)) writer
      (event-IsNormal, (event-IsNormal, (event-IsNormal, (event-IsNormal, tt)))) (omega arith)

-- A policy that names an optional field anew.
abbrev policy_json : Fields
policy_json = field (codes "schema_version") (text (codes "2026-06-17.field-policy-v2")) (
    field (codes "display_labels")
      (mapping (field (codes "network.bytes") (text (codes "frame.bytes")) end)) end)

abbrev policy : FieldPolicy
policy = record {
  schema_version = codes "2026-06-17.field-policy-v2";
  policy_name = codes "unnamed field policy";
  disabled_fields = [];
  desired_order = [];
  display_labels = (codes "network.bytes", codes "frame.bytes") ∷ [];
  siem_mapping_notes = [];
}

policy_accepted : field_policy_from_dict python (mapping policy_json) ≡ ok policy
unfolding field_policy_from_dict field_policy_of sorted_difference keys contains_text allowed_keys
    get find str string_sequence string_map string_entries validate_field_policy_v2_controls
    duplicates sorted_common check_labels check_label check_notes validate_siem_field_name
    contains_char leb_text siem_known_policy_fields siem_full_event_fields siem_event_fields
    siem_event_fields_before_alerts siem_debug_only_event_fields siem_accounting_event_fields
    siem_accounting_snapshot_only_fields siem_record_contract_fields siem_optional_event_fields
policy_accepted = refl

abbrev measured : Fields
measured = field (codes "network.bytes") (integer (pos 60)) end

measured-IsRecordOf : IsRecordOf (known_fields python) measured
unfolding contains_text has_key siem_known_policy_fields siem_full_event_fields
    siem_event_fields_before_alerts siem_debug_only_event_fields siem_accounting_event_fields
    siem_accounting_snapshot_only_fields siem_record_contract_fields siem_optional_event_fields
measured-IsRecordOf = (refl, refl, tt)

apply_field_policy-accepted_example :
    find
      (label_of policy.display_labels (codes "network.bytes"))
      (apply_field_policy (some policy) measured)
    ≡ find (codes "network.bytes") measured
apply_field_policy-accepted_example =
    apply_field_policy-accepted python (mapping policy_json) policy measured (codes "network.bytes")
      policy_accepted measured-IsRecordOf measured-IsRecordOf.0 (unfold contains_text in refl)
