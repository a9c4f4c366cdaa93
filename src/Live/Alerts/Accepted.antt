-- ===== src/Live/Alerts/Accepted.antt =====
-- What the custom rules satisfy that `_custom_alert_rules` of oad_parser/live/alerts.py accepts.
use oad_parser.Common.{
  ℕ, ◌+◌, ◌≡◌, ◌≢◌, refl, subst, ap, Bool, true, false, not, List, [], ◌∷◌, ◌++◌, Result, ok, err,
  ◌>>◌, >>=-eq-ok,
}
use oad_parser.Common.Text.{Text, codes, join}
use oad_parser.Common.Dict.{equals_text}
use oad_parser.Common.Value.{
  Value, null, boolean, integer, floating, text, binary, sequence, mapping, Items, done, item,
  Fields, Python, get, str, contains_text,
}
use oad_parser.Live.Writer.PolicyCheck.{keys, sorted_difference, raise_names, raise_text_if}
use oad_parser.Live.Writer.Labels.{raise_text_if-eq-ok}
use oad_parser.Live.Alerts.Config.{CustomAlertCondition, CustomAlertRule}
use oad_parser.Live.Alerts.Parse.{alert_policy_v2_schema_version, severities, is_severity}
use oad_parser.Live.Alerts.RuleFile.{
  get_or, or_value, bool_or, text_or, some_or, logic_of, upper, rule_keys, empty_for_null, indexed,
  rule_of, rules_in, condition_of, condition_loop, custom_conditions, custom_rule_name,
  custom_rule_id, read_rule, rule_loop, custom_alert_rules,
}

-- Behind some ids: each rule has a new id, one of the severities and a condition.
abbrev pub AreAcceptable : List Text → List CustomAlertRule → Type 0
AreAcceptable seen [] = Unit
AreAcceptable seen (r ∷ rules) =
    (contains_text r.id seen ≡ false)
    × (contains_text r.severity severities ≡ true)
    × (r.conditions ≢ [])
    × AreAcceptable (r.id ∷ seen) rules

abbrev value_in {ℓ} : {A : Type ℓ} → A → Result A → A
value_in a (ok b) = b
value_in a (err raised) = a

true_of_not : (b : Bool) → not b ≡ false → b ≡ true
true_of_not true e = refl
true_of_not false e = cc e

severity_text :
    (v : Value) (path t : Text)
    → is_severity v ≡ true
    → text_or v path ≡ ok t
    → contains_text t severities ≡ true
severity_text (text s) path t known e =
    let same : s ≡ t = cc e in subst (λ u. contains_text u severities ≡ true) same known
severity_text null path t known e = absurd (cc known)
severity_text (boolean b) path t known e = absurd (cc known)
severity_text (integer n) path t known e = absurd (cc known)
severity_text (floating w r) path t known e = absurd (cc known)
severity_text (binary bs) path t known e = absurd (cc known)
severity_text (sequence items) path t known e = absurd (cc known)
severity_text (mapping d) path t known e = absurd (cc known)

condition_loop-ne-nil :
    (path : Text) (index : ℕ) (v : Value) (items : Items) (conditions : List CustomAlertCondition)
    → condition_loop path index (item v items) ≡ ok conditions
    → conditions ≢ []
unfolding condition_loop
condition_loop-ne-nil path index v items conditions e empty =
    let (c, _, e1) = >>=-eq-ok (condition_of (indexed path index) v) _ e in
    let (cs, _, e2) = >>=-eq-ok (condition_loop path (index + 1) items) _ e1 in cc (e2, empty)

custom_conditions-ne-nil :
    (path : Text) (v : Value) (conditions : List CustomAlertCondition)
    → custom_conditions path v ≡ ok conditions
    → conditions ≢ []
unfolding custom_conditions
custom_conditions-ne-nil path (sequence (item v items)) conditions e =
    condition_loop-ne-nil path 0 v items conditions e
custom_conditions-ne-nil path (sequence done) conditions e = absurd (cc e)
custom_conditions-ne-nil path null conditions e = absurd (cc e)
custom_conditions-ne-nil path (boolean b) conditions e = absurd (cc e)
custom_conditions-ne-nil path (integer n) conditions e = absurd (cc e)
custom_conditions-ne-nil path (floating w r) conditions e = absurd (cc e)
custom_conditions-ne-nil path (text t) conditions e = absurd (cc e)
custom_conditions-ne-nil path (binary bs) conditions e = absurd (cc e)
custom_conditions-ne-nil path (mapping d) conditions e = absurd (cc e)

module _ (py : Python) (sha1_hex : Text → Text) where
  -- One rule by itself.
  record IsAcceptable (seen : List Text) (r : CustomAlertRule) : Type 0 where
    new_id : contains_text r.id seen ≡ false
    known : contains_text r.severity severities ≡ true
    nonempty : r.conditions ≢ []

  read_rule-IsAcceptable :
      (path : Text) (seen : List Text) (d : Fields) (r : CustomAlertRule)
      → read_rule py sha1_hex path seen d ≡ ok r
      → IsAcceptable seen r
  unfolding read_rule
  read_rule-IsAcceptable path seen d r e =
      let written = get_or (codes "severity") (text (codes "medium")) d in
      let (_, _, e1) =
        >>=-eq-ok
          (raise_names (path ++ codes " has unknown key(s): ")
            (sorted_difference (rule_keys py sha1_hex) (keys d)))
          _ e in
      let (name, _, e2) = >>=-eq-ok (custom_rule_name path (get (codes "name") d)) _ e1 in
      let (rule_id, _, e3) = >>=-eq-ok (custom_rule_id py sha1_hex d name) _ e2 in
      let (u, new, e4) =
        >>=-eq-ok
          (raise_text_if (contains_text rule_id seen)
            (codes "custom_rules has duplicate id: " ++ rule_id))
          _ e3 in
      let (enabled, _, e5) =
        >>=-eq-ok
          (bool_or (get_or (codes "enabled") (boolean true) d)
            (path ++ codes ".enabled must be boolean"))
          _ e4 in
      let (v, checked, e6) =
        >>=-eq-ok
          (raise_text_if (not (is_severity written))
            (path ++ (codes ".severity must be one of: " ++ join (codes ", ") severities)))
          _ e5 in
      let (severity, is_text, e7) = >>=-eq-ok (text_or written path) _ e6 in
      let (description, _, e8) =
        >>=-eq-ok
          (text_or (empty_for_null (get_or (codes "description") (text []) d))
            (path ++ codes ".description must be a string"))
          _ e7 in
      let (logic, _, e9) =
        >>=-eq-ok
          (some_or
            (logic_of (upper (str py (or_value (get (codes "logic") d) (text (codes "ALL"))))))
            (path ++ codes ".logic must be ALL or ANY"))
          _ e8 in
      let (conditions, read, last) =
        >>=-eq-ok (custom_conditions (path ++ codes ".conditions") (get (codes "conditions") d)) _
          e9 in
      let same_id : rule_id ≡ r.id = ap (λ x. (value_in r x).id) last in
      let same_severity : severity ≡ r.severity = ap (λ x. (value_in r x).severity) last in
      let same_conditions : conditions ≡ r.conditions = ap (λ x. (value_in r x).conditions) last in
      record {
        new_id = subst (λ t. contains_text t seen ≡ false) same_id (raise_text_if-eq-ok _ _ u new);
        known =
            subst (λ t. contains_text t severities ≡ true) same_severity
              (severity_text written path severity
                (true_of_not _ (raise_text_if-eq-ok _ _ v checked)) is_text);
        nonempty =
            subst (λ cs. cs ≢ []) same_conditions
              (custom_conditions-ne-nil _ (get (codes "conditions") d) conditions read);
      }

  rule_of-IsAcceptable :
      (path : Text) (seen : List Text) (v : Value) (r : CustomAlertRule)
      → rule_of py sha1_hex path seen v ≡ ok r
      → IsAcceptable seen r
  rule_of-IsAcceptable path seen (mapping d) r e = read_rule-IsAcceptable path seen d r e
  rule_of-IsAcceptable path seen null r e = absurd (cc e)
  rule_of-IsAcceptable path seen (boolean b) r e = absurd (cc e)
  rule_of-IsAcceptable path seen (integer n) r e = absurd (cc e)
  rule_of-IsAcceptable path seen (floating w t) r e = absurd (cc e)
  rule_of-IsAcceptable path seen (text t) r e = absurd (cc e)
  rule_of-IsAcceptable path seen (binary bs) r e = absurd (cc e)
  rule_of-IsAcceptable path seen (sequence items) r e = absurd (cc e)

  rule_loop-AreAcceptable :
      (seen : List Text) (index : ℕ) (items : Items) (rules : List CustomAlertRule)
      → rule_loop py sha1_hex seen index items ≡ ok rules
      → AreAcceptable seen rules
  unfolding rule_loop
  rule_loop-AreAcceptable seen index done rules e =
      let same : [] ≡ rules = cc e in subst (AreAcceptable seen) same tt
  rule_loop-AreAcceptable seen index (item v items) rules e =
      let (r, read, e1) =
        >>=-eq-ok (rule_of py sha1_hex (indexed (codes "custom_rules") index) seen v) _ e in
      let (rs, rest, e2) = >>=-eq-ok (rule_loop py sha1_hex (r.id ∷ seen) (index + 1) items) _ e1 in
      let same : (r ∷ rs) ≡ rules = cc e2 in
      let ok_rule = rule_of-IsAcceptable (indexed (codes "custom_rules") index) seen v r read in
      subst (AreAcceptable seen) same (
        ok_rule.new_id,
        ok_rule.known,
        ok_rule.nonempty,
        rule_loop-AreAcceptable (r.id ∷ seen) (index + 1) items rs rest,
      )

  rules_in-AreAcceptable :
      (v : Value) (rules : List CustomAlertRule)
      → rules_in py sha1_hex v ≡ ok rules
      → AreAcceptable [] rules
  rules_in-AreAcceptable (sequence items) rules e = rule_loop-AreAcceptable [] 0 items rules e
  rules_in-AreAcceptable null rules e = absurd (cc e)
  rules_in-AreAcceptable (boolean b) rules e = absurd (cc e)
  rules_in-AreAcceptable (integer n) rules e = absurd (cc e)
  rules_in-AreAcceptable (floating w t) rules e = absurd (cc e)
  rules_in-AreAcceptable (text t) rules e = absurd (cc e)
  rules_in-AreAcceptable (binary bs) rules e = absurd (cc e)
  rules_in-AreAcceptable (mapping d) rules e = absurd (cc e)

  behind_version :
      (v : Value) (schema_version : Text) (rules : List CustomAlertRule)
      → (raise_text_if
            (not (equals_text schema_version alert_policy_v2_schema_version))
            (codes "custom_rules require schema_version " ++ alert_policy_v2_schema_version)
          >> rules_in py sha1_hex v)
        ≡ ok rules
      → AreAcceptable [] rules
  behind_version v schema_version rules e =
      let (_, _, read) =
        >>=-eq-ok
          (raise_text_if (not (equals_text schema_version alert_policy_v2_schema_version))
            (codes "custom_rules require schema_version " ++ alert_policy_v2_schema_version))
          _ e in
      rules_in-AreAcceptable v rules read

  -- The custom rules that a policy file is accepted with have different ids, a severity that has a
  -- rank, and at least one condition each.
  pub custom_alert_rules-AreAcceptable :
      (v : Value) (schema_version : Text) (rules : List CustomAlertRule)
      → custom_alert_rules py sha1_hex v schema_version ≡ ok rules
      → AreAcceptable [] rules
  unfolding custom_alert_rules
  custom_alert_rules-AreAcceptable null schema_version rules e =
      let same : [] ≡ rules = cc e in subst (AreAcceptable []) same tt
  custom_alert_rules-AreAcceptable (boolean b) schema_version rules e =
      behind_version (boolean b) schema_version rules e
  custom_alert_rules-AreAcceptable (integer n) schema_version rules e =
      behind_version (integer n) schema_version rules e
  custom_alert_rules-AreAcceptable (floating w t) schema_version rules e =
      behind_version (floating w t) schema_version rules e
  custom_alert_rules-AreAcceptable (text t) schema_version rules e =
      behind_version (text t) schema_version rules e
  custom_alert_rules-AreAcceptable (binary bs) schema_version rules e =
      behind_version (binary bs) schema_version rules e
  custom_alert_rules-AreAcceptable (sequence items) schema_version rules e =
      behind_version (sequence items) schema_version rules e
  custom_alert_rules-AreAcceptable (mapping d) schema_version rules e =
      behind_version (mapping d) schema_version rules e
