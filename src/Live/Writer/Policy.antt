-- ===== src/Live/Writer/Policy.antt =====
-- `FieldPolicy` of oad_parser/live/writer.py and what it does to a record.
use oad_parser.Common.{
  Bool, true, false, not, ◌&&◌, Option, none, some, List, [], ◌∷◌, if◌then◌else◌,
}
use oad_parser.Common.Text.{Text, codes}
use oad_parser.Common.Dict.{equals_text, lookup}
use oad_parser.Common.Value.{Value, Fields, end, field, put, pop, find, contains_text}
use oad_parser.Live.Writer.Fields.{siem_default_disabled_event_fields}

pub record FieldPolicy : Type 0 where
  pub schema_version : Text
  pub policy_name : Text
  pub disabled_fields : List Text
  pub desired_order : List Text
  pub display_labels : List (Text × Text)
  pub siem_mapping_notes : List (Text × Text)

abbrev pub field_policy_v2_schema_version : Text
field_policy_v2_schema_version = codes "2026-06-17.field-policy-v2"

unfoldable pub default_field_policy : FieldPolicy
default_field_policy = record {
  schema_version = field_policy_v2_schema_version;
  policy_name = codes "default SIEM-managed data stream fields";
  disabled_fields = siem_default_disabled_event_fields;
  desired_order = [];
  display_labels = [];
  siem_mapping_notes = [];
}

unfoldable pub pop_all : List Text → Fields → Fields
pop_all [] d = d
pop_all (key ∷ keys) d = pop_all keys (pop key d)

abbrev pub or_self : Text → Option Text → Text
or_self key none = key
or_self key (some label) = label

-- labels.get(field_name, field_name)
unfoldable pub label_of : List (Text × Text) → Text → Text
label_of labels key = or_self key (lookup key labels)

-- What the first loop leaves: the ordered fields, and the names it has emitted.
abbrev pub Emission : Type 0
Emission = Fields × List Text

abbrev pub emit_found : List (Text × Text) → Text → Option Value → Emission → Emission
emit_found labels key none o = o
emit_found labels key (some value) (ordered, emitted) =
    if contains_text key emitted
    then (ordered, emitted)
    else (put (label_of labels key) value ordered, key ∷ emitted)

unfoldable pub emit_desired : List (Text × Text) → List Text → Fields → Emission → Emission
emit_desired labels [] record' o = o
emit_desired labels (key ∷ keys) record' o =
    emit_desired labels keys record' (emit_found labels key (find key record') o)

unfoldable pub emit_rest : List (Text × Text) → List Text → Fields → Fields → Fields
emit_rest labels emitted end ordered = ordered
emit_rest labels emitted (field key value d) ordered =
    emit_rest labels emitted d
      (if contains_text key emitted then ordered else put (label_of labels key) value ordered)

abbrev pub is_empty {ℓ} : {A : Type ℓ} → List A → Bool
is_empty [] = true
is_empty (x ∷ xs) = false

unfoldable pub reordered : FieldPolicy → Fields → Fields
unfolding emit_desired emit_rest
reordered policy record' =
    let (ordered, emitted) =
      emit_desired policy.display_labels policy.desired_order record' (end, []) in
    emit_rest policy.display_labels emitted record' ordered

unfoldable pub apply_field_policy : Option FieldPolicy → Fields → Fields
unfolding pop_all reordered
apply_field_policy none record' = record'
apply_field_policy (some policy) record' =
    let enabled = pop_all policy.disabled_fields record' in
    if is_empty policy.desired_order && is_empty policy.display_labels
    then enabled
    else reordered policy enabled

unfoldable pub field_policy_controls_order : Option FieldPolicy → Bool
field_policy_controls_order none = false
field_policy_controls_order (some policy) =
    equals_text policy.schema_version field_policy_v2_schema_version
    && not (is_empty policy.desired_order)
