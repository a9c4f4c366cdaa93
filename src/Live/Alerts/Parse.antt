-- ===== src/Live/Alerts/Parse.antt =====
-- The values of a policy file in oad_parser/live/alerts.py: sets, numbers and overrides.
use oad_parser.Common.{
  Option, none, some, List, [], ◌∷◌, ◌++◌, Bool, true, false, not, ◌&&◌, if◌then◌else◌, map, Result,
  ok, err, value_error_of, ◌>>=◌, ◌>>◌,
}
use oad_parser.Common.Int.{ℤ}
use oad_parser.Common.Text.{Text, codes, join, strip}
use oad_parser.Common.Dict.{equals_text}
use oad_parser.Common.Value.{
  Value, null, boolean, integer, floating, text, sequence, mapping, Items, done, item, Fields, end,
  field, is_null, get, contains_text,
}
use oad_parser.Decoders.Registry.{leb_text}
use oad_parser.Detect.Record.{Floats}
use oad_parser.Live.Writer.PolicyCheck.{keys, sorted_difference, raise_names, raise_text_if}
use oad_parser.Live.Alerts.Taxonomy.{
  ecg_cd2_001, ecg_cd2_002, ecg_cd2_003, ecg_cd2_004, ecg_cd2_005, ecg_cd2_006, ecg_cd2_007,
  oad_ecg_003, oad_ecg_005, oad_ecg_006, oad_ecg_007, oad_ecg_008, id_text,
}
use oad_parser.Live.Alerts.Config.{Numbers, AlertOverride}

abbrev pub alert_policy_v2_schema_version : Text
alert_policy_v2_schema_version = codes "2026-06-17.alert-policy-v2"

unfoldable pub required_int : Value → Text → Result ℤ
required_int (integer n) name = ok n
required_int _ name = err (value_error_of (name ++ codes " must be an integer"))

unfoldable pub optional_int : Value → Text → Result (Option ℤ)
unfolding required_int
optional_int null name = ok none
optional_int v name = do n ← required_int v name; ok (some n)

unfoldable pub optional_bool : Value → Text → Result Bool
optional_bool (boolean b) name = ok b
optional_bool _ name = err (value_error_of (name ++ codes " must be boolean"))

abbrev pub is_blank : Text → Bool
is_blank [] = true
is_blank (c ∷ t) = false

unfoldable pub string_items : Text → Items → Result (List Text)
string_items name done = ok []
string_items name (item (text t) items) = do
  raise_text_if (is_blank (strip t)) (name ++ codes " entries must be non-empty strings")
  ts ← string_items name items
  ok (strip t ∷ ts)
string_items name (item _ items) =
    err (value_error_of (name ++ codes " entries must be non-empty strings"))

unfoldable pub string_set : Value → Text → Result (List Text)
unfolding string_items
string_set null name = ok []
string_set (sequence items) name = string_items name items
string_set _ name = err (value_error_of (name ++ codes " must be a list"))

unfoldable pub int_items : Text → Items → Result (List ℤ)
unfolding required_int
int_items name done = ok []
int_items name (item v items) = do
  n ← required_int v (name ++ codes " entry")
  ns ← int_items name items
  ok (n ∷ ns)

unfoldable pub int_set : Value → Text → Result (List ℤ)
unfolding int_items
int_set null name = ok []
int_set (sequence items) name = int_items name items
int_set _ name = err (value_error_of (name ++ codes " must be a list"))

-- The entries of an object, each read as a set.
abbrev set_entries {ℓ} :
    {A : Type ℓ} → (Value → Text → Result A) → Text → Fields → Result (List (Text × A))
set_entries read name end = ok []
set_entries read name (field key v d) = do
  a ← read v (name ++ (codes "." ++ key))
  entries ← set_entries read name d
  ok ((key, a) ∷ entries)

abbrev set_map {ℓ} :
    {A : Type ℓ} → (Value → Text → Result A) → Value → Text → Result (List (Text × A))
set_map read null name = ok []
set_map read (mapping d) name = set_entries read name d
set_map read _ name = err (value_error_of (name ++ codes " must be an object"))

unfoldable pub string_set_map : Value → Text → Result (List (Text × List Text))
unfolding string_set
string_set_map v name = set_map string_set v name

unfoldable pub int_set_map : Value → Text → Result (List (Text × List ℤ))
unfolding int_set
int_set_map v name = set_map int_set v name

-- `float(value)` of an int or a float
module _ (fs : Floats) (n : Numbers fs) where
  abbrev float_or_raise : Option fs.Float → Text → Result (Option fs.Float)
  float_or_raise (some x) name = ok (some x)
  float_or_raise none name = err (value_error_of (name ++ codes " is too large for a float"))

  unfoldable pub optional_float : Value → Text → Result (Option fs.Float)
  optional_float null name = ok none
  optional_float (integer i) name = float_or_raise (n.float_of (integer i)) name
  optional_float (floating whole repr) name = float_or_raise (n.float_of (floating whole repr)) name
  optional_float _ name = err (value_error_of (name ++ codes " must be numeric"))

unfoldable pub known_alert_ids : List Text
unfolding id_text
known_alert_ids = map id_text (
    ecg_cd2_001 ∷ ecg_cd2_002 ∷ ecg_cd2_003 ∷ ecg_cd2_004 ∷ ecg_cd2_005 ∷ ecg_cd2_006 ∷ ecg_cd2_007
    ∷ oad_ecg_003 ∷ oad_ecg_005 ∷ oad_ecg_006 ∷ oad_ecg_007 ∷ oad_ecg_008 ∷ [])

-- The keys of `SEVERITY_RANK`, sorted.
abbrev pub severities : List Text
severities = codes "critical" ∷ codes "high" ∷ codes "low" ∷ codes "medium" ∷ []

abbrev pub is_severity : Value → Bool
is_severity (text t) = contains_text t severities
is_severity _ = false

abbrev supported_override_keys : List Text
supported_override_keys = codes "enabled" ∷ codes "severity" ∷ []

abbrev unsupported_override_keys : List Text
unsupported_override_keys =
    codes "cooldown"
    ∷ codes "cooldown_seconds"
    ∷ codes "evidence"
    ∷ codes "evidence_fields"
    ∷ codes "evidence_mutation"
    ∷ codes "suppression_seconds"
    ∷ codes "suppression_window_seconds"
    ∷ []

abbrev only_in : List Text → List Text → List Text
only_in known [] = []
only_in known (t ∷ ts) =
    let rest = only_in known ts in if contains_text t known then t ∷ rest else rest

abbrev is_boolean_or_null : Value → Bool
is_boolean_or_null null = true
is_boolean_or_null (boolean b) = true
is_boolean_or_null _ = false

abbrev bool_of : Value → Option Bool
bool_of (boolean b) = some b
bool_of _ = none

abbrev pub text_in : Value → Option Text
text_in (text t) = some t
text_in _ = none

-- The checks of one override, whose messages start with its path.
unfoldable pub read_override : Text → Fields → Result AlertOverride
read_override path d = do
  let unknown = sorted_difference supported_override_keys (keys d)
  let enabled = get (codes "enabled") d
  let severity = get (codes "severity") d
  raise_names (path ++ codes " has unsupported override key(s): ")
      (only_in unsupported_override_keys unknown)
  raise_names (path ++ codes " has unknown override key(s): ") unknown
  raise_text_if (not (is_boolean_or_null enabled)) (path ++ codes ".enabled must be boolean")
  raise_text_if (not (is_null severity) && not (is_severity severity))
      (path ++ (codes ".severity must be one of: " ++ join (codes ", ") severities))
  ok (record { enabled = bool_of enabled; severity = text_in severity })

abbrev override_of : Text → Value → Result AlertOverride
override_of path (mapping d) = read_override path d
override_of path _ = err (value_error_of (path ++ codes " must be an object"))

abbrev pub insert_entry : Text → Value → List (Text × Value) → List (Text × Value)
insert_entry key v [] = (key, v) ∷ []
insert_entry key v ((k, w) ∷ entries) =
    let rest = insert_entry key v entries in
    if leb_text key k then (key, v) ∷ (k, w) ∷ entries else (k, w) ∷ rest

-- `sorted(value.items())`
abbrev pub sorted_entries : Fields → List (Text × Value)
sorted_entries end = []
sorted_entries (field key v d) = insert_entry key v (sorted_entries d)

unfoldable pub read_overrides : List (Text × Value) → Result (List (Text × AlertOverride))
unfolding known_alert_ids read_override
read_overrides [] = ok []
read_overrides ((alert_id, v) ∷ entries) = do
  raise_text_if (not (contains_text alert_id known_alert_ids))
      (codes "Unknown alert ID in desired_alert_overrides: " ++ alert_id)
  override ← override_of (codes "desired_alert_overrides." ++ alert_id) v
  overrides ← read_overrides entries
  ok ((alert_id, override) ∷ overrides)

abbrev has_fields : Fields → Bool
has_fields end = false
has_fields (field key v d) = true

unfoldable pub alert_override_map : Value → Text → Result (List (Text × AlertOverride))
unfolding read_overrides
alert_override_map null schema_version = ok []
alert_override_map (mapping d) schema_version = do
  raise_text_if (has_fields d && not (equals_text schema_version alert_policy_v2_schema_version))
      (codes "desired_alert_overrides require schema_version " ++ alert_policy_v2_schema_version)
  read_overrides (sorted_entries d)
alert_override_map _ schema_version =
    err (value_error_of (codes "desired_alert_overrides must be an object keyed by alert ID"))
