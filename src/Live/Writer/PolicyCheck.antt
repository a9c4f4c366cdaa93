-- ===== src/Live/Writer/PolicyCheck.antt =====
-- `field_policy_from_dict` of oad_parser/live/writer.py and the checks of a policy.
use oad_parser.Common.{
  ℕ, Bool, true, false, not, ◌&&◌, ◌||◌, List, [], ◌∷◌, ◌++◌, ltb, take, length, if◌then◌else◌,
  Result, ok, err, value_error, value_error_of, raise_if, ◌>>=◌, ◌>>◌,
}
use oad_parser.Common.Text.{Text, codes, join, contains_char}
use oad_parser.Common.Dict.{equals_text}
use oad_parser.Common.Value.{
  Value, null, text, sequence, mapping, Items, done, item, Fields, end, field, Python, get, str,
  is_truthy, contains_text,
}
use oad_parser.Decoders.Registry.{insert_sorted}
use oad_parser.Live.Writer.Fields.{
  siem_event_fields, siem_accounting_event_fields, siem_record_contract_fields,
  siem_optional_event_fields, siem_known_policy_fields,
}
use oad_parser.Live.Writer.Policy.{FieldPolicy, field_policy_v2_schema_version}

-- sorted(set(texts) - set(known))
unfoldable pub sorted_difference : List Text → List Text → List Text
sorted_difference known [] = []
sorted_difference known (t ∷ ts) =
    let rest = sorted_difference known ts in
    if contains_text t known || contains_text t rest then rest else insert_sorted t rest

-- sorted(set(texts) & set(known))
unfoldable pub sorted_common : List Text → List Text → List Text
sorted_common known [] = []
sorted_common known (t ∷ ts) =
    let rest = sorted_common known ts in
    if not (contains_text t known) || contains_text t rest then rest else insert_sorted t rest

-- `_duplicates`: the texts that occur again, sorted.
unfoldable pub duplicates : List Text → List Text
duplicates [] = []
duplicates (t ∷ ts) =
    let rest = duplicates ts in
    if contains_text t ts && not (contains_text t rest) then insert_sorted t rest else rest

abbrev pub raise_names : Text → List Text → Result (Unit {0})
raise_names message [] = ok tt
raise_names message (t ∷ ts) = err (value_error_of (message ++ join (codes ", ") (t ∷ ts)))

-- `raise ValueError(message)`, with a message that is put together
abbrev pub raise_text_if : Bool → Text → Result (Unit {0})
raise_text_if false message = ok tt
raise_text_if true message = err (value_error_of message)

unfoldable pub string_items : Text → Items → Result (List Text)
string_items name done = ok []
string_items name (item (text t) items) = do ts ← string_items name items; ok (t ∷ ts)
string_items name (item _ items) =
    err (value_error_of (name ++ codes " must be an array of strings"))

unfoldable pub string_sequence : Value → Text → Result (List Text)
unfolding string_items
string_sequence null name = ok []
string_sequence (sequence items) name = string_items name items
string_sequence _ name = err (value_error_of (name ++ codes " must be an array of strings"))

unfoldable pub string_entries : Text → Fields → Result (List (Text × Text))
string_entries name end = ok []
string_entries name (field key (text t) d) = do
  entries ← string_entries name d
  ok ((key, t) ∷ entries)
string_entries name (field key _ d) =
    err (value_error_of (name ++ codes " must be an object of strings"))

unfoldable pub string_map : Value → Text → Result (List (Text × Text))
unfolding string_entries
string_map null name = ok []
string_map (mapping d) name = string_entries name d
string_map _ name = err (value_error_of (name ++ codes " must be an object of strings"))

unfoldable pub keys : Fields → List Text
keys end = []
keys (field key value d) = key ∷ keys d

abbrev pub sources : List (Text × Text) → List Text
sources [] = []
sources ((source, target) ∷ entries) = source ∷ sources entries

abbrev pub targets : List (Text × Text) → List Text
targets [] = []
targets ((source, target) ∷ entries) = target ∷ targets entries

abbrev is_any : (ℕ → Bool) → Text → Bool
is_any test [] = false
is_any test (c ∷ t) = test c || is_any test t

-- " \\t\\r\\n/\\\\;&|`$<>'\\"(){}[]*?!", and what is below the space
abbrev is_blocked : ℕ → Bool
is_blocked c =
    ltb c 32
    || contains_char c (
        32 ∷ 9 ∷ 13 ∷ 10 ∷ 47 ∷ 92 ∷ 59 ∷ 38 ∷ 124 ∷ 96 ∷ 36 ∷ 60 ∷ 62 ∷ 39 ∷ 34 ∷ 40 ∷ 41 ∷ 123
        ∷ 125 ∷ 91 ∷ 93 ∷ 42 ∷ 63 ∷ 33 ∷ [])

module _ (py : Python) where
  abbrev is_name_start : Text → Bool
  is_name_start [] = false
  is_name_start (c ∷ t) = py.is_alpha c || contains_char c (codes "_@")

  abbrev is_name_char : ℕ → Bool
  is_name_char c = py.is_alnum c || contains_char c (codes "_.-@")

  unfoldable pub validate_siem_field_name : Text → Text → Result (Unit {0})
  validate_siem_field_name name label = do
    raise_text_if (not (ltb 0 (length name)) || ltb 128 (length name))
        (label ++ codes " must be 1-128 characters")
    raise_text_if (not (is_name_start name))
        (label ++ codes " must start with a letter, underscore, or @")
    raise_text_if (is_any is_blocked name) (label ++ codes " contains unsupported characters")
    raise_text_if (is_any (λ c. not (is_name_char c)) name)
        (label ++ codes " contains unsupported characters")

  -- One round of the loop over the labels, with the names that are taken so far.
  unfoldable pub check_label : List Text → List Text → List Text → Text → Text → Result (Unit {0})
  unfolding validate_siem_field_name
  check_label known disabled taken source alias = do
    validate_siem_field_name alias (codes "display_labels." ++ source)
    raise_text_if (contains_text source disabled)
        (codes "display_labels references disabled field: " ++ source)
    raise_text_if (contains_text alias known && not (equals_text alias source))
        (codes "display_labels alias collides with existing field: " ++ alias)
    raise_text_if (contains_text alias taken && not (equals_text alias source))
        (codes "display_labels creates duplicate output field: " ++ alias)

  unfoldable pub check_labels :
      List Text → List Text → List Text → List (Text × Text) → Result (Unit {0})
  check_labels known disabled taken [] = ok tt
  check_labels known disabled taken ((source, alias) ∷ labels) = do
    check_label known disabled taken source alias
    check_labels known disabled (alias ∷ taken) labels

  unfoldable pub check_notes : List Text → List (Text × Text) → Result (Unit {0})
  check_notes disabled [] = ok tt
  check_notes disabled ((source, target) ∷ notes) = do
    raise_text_if (contains_text source disabled)
        (codes "siem_mapping_notes references disabled field: " ++ source)
    validate_siem_field_name target (codes "siem_mapping_notes." ++ source)
    check_notes disabled notes

  abbrev pub protected_fields : List Text
  protected_fields =
      sorted_difference siem_optional_event_fields siem_event_fields
      ++ (siem_accounting_event_fields ++ siem_record_contract_fields)

  unfoldable pub validate_field_policy_v2_controls :
      List Text
      → List Text
      → List Text
      → List (Text × Text)
      → List (Text × Text)
      → Result (Unit {0})
  validate_field_policy_v2_controls known disabled order labels notes = do
    raise_names (codes "field policy references unknown field(s): ")
        (sorted_difference known (order ++ (sources labels ++ sources notes)))
    raise_names (codes "desired_order contains duplicate field(s): ") (duplicates order)
    raise_names (codes "desired_order references disabled field(s): ")
        (sorted_common disabled order)
    raise_names (codes "protected compact field(s) cannot be renamed: ")
        (sorted_common protected_fields (sources labels))
    check_labels known disabled known labels
    raise_names (codes "display_labels contains duplicate alias output(s): ")
        (duplicates (targets labels))
    check_notes disabled notes

  -- str(value or default)
  abbrev pub str_or : Value → Text → Text
  str_or v default = if is_truthy v then str py v else default

  abbrev pub known_fields : List Text
  known_fields = siem_known_policy_fields ++ siem_optional_event_fields

  unfoldable pub allowed_keys : List Text
  allowed_keys =
      codes "schema_version"
      ∷ codes "policy_name"
      ∷ codes "enabled_fields"
      ∷ codes "required_fields"
      ∷ codes "optional_fields"
      ∷ codes "disabled_fields"
      ∷ codes "display_labels"
      ∷ codes "grouping"
      ∷ codes "desired_order"
      ∷ codes "siem_mapping_notes"
      ∷ codes "compatibility_mode"
      ∷ codes "operator_notes"
      ∷ []

  abbrev pub field_policy_v1_schema_versions : List Text
  field_policy_v1_schema_versions = codes "2026-06-15.phase5a" ∷ codes "2026-06-15.phase5b" ∷ []

  abbrev unsupported_if_any {ℓ} : {A : Type ℓ} → List A → Text → Result (Unit {0})
  unsupported_if_any [] key = ok tt
  unsupported_if_any (x ∷ xs) key =
      err (value_error_of (key ++ codes " is not runtime-supported by field policy v1"))

  -- A policy of the first version has none of the three controls.
  abbrev pub check_v1 : List (Text × Text) → List Text → List (Text × Text) → Result (Unit {0})
  check_v1 labels order notes = do
    unsupported_if_any labels (codes "display_labels")
    unsupported_if_any order (codes "desired_order")
    unsupported_if_any notes (codes "siem_mapping_notes")

  abbrev pub check_controls :
      Text → List Text → List Text → List (Text × Text) → List (Text × Text) → Result (Unit {0})
  check_controls version disabled order labels notes =
      if contains_text version field_policy_v1_schema_versions
      then check_v1 labels order notes
      else validate_field_policy_v2_controls known_fields disabled order labels notes

  unfoldable pub field_policy_of : Fields → Result FieldPolicy
  field_policy_of d = do
    raise_names (codes "field policy has unknown keys: ") (sorted_difference allowed_keys (keys d))
    let version = str_or (get (codes "schema_version") d) (codes "2026-06-15.phase5b")
    raise_if
        (not (
          contains_text version (field_policy_v2_schema_version ∷ field_policy_v1_schema_versions)))
        (value_error "field policy schema_version is not supported")
    disabled ← string_sequence (get (codes "disabled_fields") d) (codes "disabled_fields")
    raise_names (codes "field policy references unknown field(s): ")
        (sorted_difference known_fields disabled)
    order ← string_sequence (get (codes "desired_order") d) (codes "desired_order")
    labels ← string_map (get (codes "display_labels") d) (codes "display_labels")
    notes ← string_map (get (codes "siem_mapping_notes") d) (codes "siem_mapping_notes")
    check_controls version disabled order labels notes
    ok (record {
      schema_version = version;
      policy_name = take 120 (str_or (get (codes "policy_name") d) (codes "unnamed field policy"));
      disabled_fields = disabled;
      desired_order = order;
      display_labels = labels;
      siem_mapping_notes = notes;
    })

  unfoldable pub field_policy_from_dict : Value → Result FieldPolicy
  unfolding field_policy_of
  field_policy_from_dict (mapping d) = field_policy_of d
  field_policy_from_dict _ = err (value_error "field policy must be a JSON object")
