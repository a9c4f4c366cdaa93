-- ===== src/Live/Alerts/RuleFile.antt =====
-- The custom rules of a policy file in oad_parser/live/alerts.py.
use oad_parser.Common.{
  ℕ, ◌+◌, ◌-◌, Option, none, some, List, [], ◌∷◌, ◌++◌, Bool, true, false, not, ◌&&◌, ◌||◌, ◌==◌,
  leb, length, take, if◌then◌else◌, map, Result, ok, err, value_error, value_error_of, ◌>>=◌, ◌>>◌,
}
use oad_parser.Common.Text.{Text, codes, decimal, join, lower, strip}
use oad_parser.Common.Dict.{equals_text}
use oad_parser.Common.Value.{
  Value, null, boolean, text, sequence, mapping, Items, done, item, Fields, Python, find, get,
  has_key, str, is_truthy, contains_text,
}
use oad_parser.Live.Writer.PolicyCheck.{keys, sorted_difference, raise_names, raise_text_if}
use oad_parser.Live.Alerts.Config.{
  CustomOperator, equals, not_equals, greater_than, greater_than_or_equal, less_than,
  less_than_or_equal, contains, does_not_contain, exists, does_not_exist, in_list, not_in_list,
  CustomAlertCondition, Logic, all_of, any_of, CustomAlertRule,
}
use oad_parser.Live.Alerts.Rules.{operator_name}
use oad_parser.Live.Alerts.Parse.{alert_policy_v2_schema_version, is_blank, severities, is_severity}

abbrev is_letter_or_digit : ℕ → Bool
is_letter_or_digit c = (leb 48 c && leb c 57) || (leb 65 c && leb c 90) || (leb 97 c && leb c 122)

-- [A-Za-z0-9_.:-]
abbrev is_id_char : ℕ → Bool
is_id_char c = is_letter_or_digit c || c == 95 || c == 46 || c == 58 || c == 45

abbrev all_chars : (ℕ → Bool) → Text → Bool
all_chars test [] = true
all_chars test (c ∷ t) = test c && all_chars test t

-- `CUSTOM_ALERT_ID_RE` and `CUSTOM_ALERT_FIELD_RE` on a text without spaces at its ends
unfoldable pub matches_id : Text → Bool
matches_id t = leb 1 (length t) && leb (length t) 80 && all_chars is_id_char t

unfoldable pub matches_field : Text → Bool
matches_field t =
    leb 1 (length t) && leb (length t) 128 && all_chars (λ c. is_id_char c || c == 64) t

abbrev underscored : Text → Text
underscored [] = []
underscored (c ∷ t) = (if c == 32 || c == 45 then 95 else c) ∷ underscored t

unfoldable pub normalize_custom_operator : Text → Text
normalize_custom_operator t = underscored (lower (strip t))

abbrev custom_operators : List CustomOperator
custom_operators =
    equals ∷ not_equals ∷ greater_than ∷ greater_than_or_equal ∷ less_than ∷ less_than_or_equal
    ∷ contains ∷ does_not_contain ∷ exists ∷ does_not_exist ∷ in_list ∷ not_in_list ∷ []

abbrev operator_named : Text → List CustomOperator → Option CustomOperator
operator_named t [] = none
operator_named t (o ∷ os) =
    let rest = operator_named t os in if equals_text (operator_name o) t then some o else rest

abbrev wants_value : CustomOperator → Bool
wants_value exists = false
wants_value does_not_exist = false
wants_value _ = true

abbrev wants_list : CustomOperator → Bool
wants_list in_list = true
wants_list not_in_list = true
wants_list _ = false

abbrev is_list : Value → Bool
is_list (sequence items) = true
is_list _ = false

abbrev is_container : Value → Bool
is_container (sequence items) = true
is_container (mapping d) = true
is_container _ = false

-- The text, or the error where the value is none.
abbrev pub text_or : Value → Text → Result Text
text_or (text t) message = ok t
text_or _ message = err (value_error_of message)

abbrev pub some_or {ℓ} : {A : Type ℓ} → Option A → Text → Result A
some_or (some a) message = ok a
some_or none message = err (value_error_of message)

unfoldable pub read_condition : Text → Fields → Result CustomAlertCondition
unfolding matches_field normalize_custom_operator
read_condition path d = do
  raise_names (path ++ codes " has unknown key(s): ")
      (sorted_difference (codes "field" ∷ codes "operator" ∷ codes "value" ∷ []) (keys d))
  name ← text_or (get (codes "field") d) (path ++ codes ".field is invalid")
  raise_text_if (not (matches_field (strip name))) (path ++ codes ".field is invalid")
  written ← text_or (get (codes "operator") d) (path ++ codes ".operator is required")
  operator ←
      some_or (operator_named (normalize_custom_operator written) custom_operators)
        (path ++ codes ".operator is not supported")
  raise_text_if (wants_value operator && not (has_key (codes "value") d))
      (path ++ codes ".value is required")
  let value = get (codes "value") d
  raise_text_if (wants_list operator && not (is_list value)) (path ++ codes ".value must be a list")
  raise_text_if (not (wants_list operator) && is_container value)
      (path ++ codes ".value must be a scalar")
  ok (record { field_name = strip name; operator = operator; value = value })

abbrev pub indexed : Text → ℕ → Text
indexed name index = name ++ (codes "[" ++ (decimal index ++ codes "]"))

abbrev pub condition_of : Text → Value → Result CustomAlertCondition
condition_of path (mapping d) = read_condition path d
condition_of path _ = err (value_error_of (path ++ codes " must be an object"))

unfoldable pub condition_loop : Text → ℕ → Items → Result (List CustomAlertCondition)
unfolding read_condition
condition_loop path index done = ok []
condition_loop path index (item v items) = do
  condition ← condition_of (indexed path index) v
  conditions ← condition_loop path (index + 1) items
  ok (condition ∷ conditions)

unfoldable pub custom_conditions : Text → Value → Result (List CustomAlertCondition)
unfolding condition_loop
custom_conditions path (sequence (item v items)) = condition_loop path 0 (item v items)
custom_conditions path _ = err (value_error_of (path ++ codes " must be a non-empty list"))

unfoldable pub custom_rule_name : Text → Value → Result Text
custom_rule_name path (text t) = do
  raise_text_if (is_blank (strip t)) (path ++ codes ".name is required")
  ok (take 120 (strip t))
custom_rule_name path _ = err (value_error_of (path ++ codes ".name is required"))

abbrev upper_char : ℕ → ℕ
upper_char c = if leb 97 c && leb c 122 then c - 32 else c

-- `text.upper()`, as far as ASCII goes
abbrev pub upper : Text → Text
upper t = map upper_char t

abbrev pub logic_of : Text → Option Logic
logic_of t =
    if equals_text t (codes "ALL")
    then some all_of
    else if equals_text t (codes "ANY")
    then some any_of
    else none

-- `a or b`
abbrev pub or_value : Value → Value → Value
or_value a b = if is_truthy a then a else b

-- `d.get(key, default)`
abbrev pub get_or : Text → Value → Fields → Value
get_or key default d = elim (find key d) [ none ↦ default | some v ↦ v ]

abbrev pub bool_or : Value → Text → Result Bool
bool_or (boolean b) message = ok b
bool_or _ message = err (value_error_of message)

abbrev pub empty_for_null : Value → Value
empty_for_null null = text []
empty_for_null v = v

-- `hashlib.sha1(name.encode("utf-8")).hexdigest()` is a parameter.
module _ (py : Python) (sha1_hex : Text → Text) where
  abbrev pub id_of_value : Value → Text → Result Text
  id_of_value (text t) name = do
    raise_text_if (not (matches_id (strip t))) (
        codes
          "custom rule id/code must contain only letters, numbers, dots, underscores, colons, or dashes")
    ok (strip t)
  id_of_value _ name = err (
      value_error
        "custom rule id/code must contain only letters, numbers, dots, underscores, colons, or dashes")

  unfoldable pub custom_rule_id : Fields → Text → Result Text
  custom_rule_id d name =
      let raw = or_value (get (codes "id") d) (get (codes "code") d) in
      if is_truthy raw
      then id_of_value raw name
      else ok (codes "OAD-CUSTOM-" ++ upper (take 10 (sha1_hex name)))

  abbrev pub rule_keys : List Text
  rule_keys =
      codes "id"
      ∷ codes "code"
      ∷ codes "name"
      ∷ codes "enabled"
      ∷ codes "severity"
      ∷ codes "description"
      ∷ codes "logic"
      ∷ codes "conditions"
      ∷ []

  -- One rule, behind the ids that were read before it.
  unfoldable pub read_rule : Text → List Text → Fields → Result CustomAlertRule
  unfolding custom_rule_name custom_conditions
  read_rule path seen_ids d = do
    raise_names (path ++ codes " has unknown key(s): ") (sorted_difference rule_keys (keys d))
    name ← custom_rule_name path (get (codes "name") d)
    rule_id ← custom_rule_id d name
    raise_text_if (contains_text rule_id seen_ids)
        (codes "custom_rules has duplicate id: " ++ rule_id)
    enabled ←
        bool_or (get_or (codes "enabled") (boolean true) d)
          (path ++ codes ".enabled must be boolean")
    let written = get_or (codes "severity") (text (codes "medium")) d
    raise_text_if (not (is_severity written))
        (path ++ (codes ".severity must be one of: " ++ join (codes ", ") severities))
    severity ← text_or written path
    description ←
        text_or (empty_for_null (get_or (codes "description") (text []) d))
          (path ++ codes ".description must be a string")
    logic ←
        some_or (logic_of (upper (str py (or_value (get (codes "logic") d) (text (codes "ALL"))))))
          (path ++ codes ".logic must be ALL or ANY")
    conditions ← custom_conditions (path ++ codes ".conditions") (get (codes "conditions") d)
    ok (record {
      id = rule_id;
      name = name;
      enabled = enabled;
      severity = severity;
      description = take 500 description;
      logic = logic;
      conditions = conditions;
    })

  abbrev pub rule_of : Text → List Text → Value → Result CustomAlertRule
  rule_of path seen_ids (mapping d) = read_rule path seen_ids d
  rule_of path seen_ids _ = err (value_error_of (path ++ codes " must be an object"))

  unfoldable pub rule_loop : List Text → ℕ → Items → Result (List CustomAlertRule)
  rule_loop seen_ids index done = ok []
  rule_loop seen_ids index (item v items) = do
    rule ← rule_of (indexed (codes "custom_rules") index) seen_ids v
    rules ← rule_loop (rule.id ∷ seen_ids) (index + 1) items
    ok (rule ∷ rules)

  abbrev pub rules_in : Value → Result (List CustomAlertRule)
  rules_in (sequence items) = rule_loop [] 0 items
  rules_in _ = err (value_error "custom_rules must be a list")

  unfoldable pub custom_alert_rules : Value → Text → Result (List CustomAlertRule)
  custom_alert_rules null schema_version = ok []
  custom_alert_rules v schema_version = do
    raise_text_if (not (equals_text schema_version alert_policy_v2_schema_version))
        (codes "custom_rules require schema_version " ++ alert_policy_v2_schema_version)
    rules_in v
