-- ===== src/Tests/RuleFile.antt =====
-- A custom rule of a policy file for oad_parser/live/alerts.py.
use oad_parser.Common.{refl, Result, ok, List, [], String}
use oad_parser.Common.Int.{pos}
use oad_parser.Common.Text.{
  Text, codes, decimal, digits_of, digit_codes, join, lower, strip, drop_spaces, is_space,
}
use oad_parser.Common.Value.{
  Value, integer, text, sequence, mapping, done, item, end, field, Fields, find, get, has_key, str,
  contains_text,
}
use oad_parser.Tests.Writer.{python}
use oad_parser.Decoders.Registry.{leb_text}
use oad_parser.Live.Writer.PolicyCheck.{keys, sorted_difference}
use oad_parser.Live.Alerts.Config.{CustomAlertRule}
use oad_parser.Live.Alerts.RuleFile.{
  matches_id, matches_field, normalize_custom_operator, read_condition, condition_loop,
  custom_conditions, custom_rule_name, custom_rule_id, read_rule, rule_loop, custom_alert_rules,
}
use oad_parser.Live.Alerts.Parse.{alert_policy_v2_schema_version}
use oad_parser.Live.Alerts.Accepted.{AreAcceptable, custom_alert_rules-AreAcceptable}

abbrev sha1 : Text → Text
sha1 name = codes "0123456789abcdef"

abbrev entry : String → Value → Fields → Fields
entry key v d = field (codes key) v d

abbrev condition : Value
condition = mapping (
    entry "field" (text (codes "cd2.channel"))
      (entry "operator" (text (codes "Greater than")) (entry "value" (integer (pos 3)) end)))

-- A rule without an id, which takes it from the hash of its name.
abbrev written_rules : Value
written_rules = sequence (
    item
      (mapping (
        entry "name" (text (codes "Channel")) (
          entry "severity" (text (codes "high"))
            (entry "conditions" (sequence (item condition done)) end))))
      done)

abbrev read_rules : Result (List CustomAlertRule)
read_rules = custom_alert_rules python sha1 written_rules alert_policy_v2_schema_version

abbrev rules_read : Result (List CustomAlertRule) → List CustomAlertRule
rules_read (ok rules) = rules
rules_read _ = []

custom_alert_rules-AreAcceptable_example : AreAcceptable [] (rules_read read_rules)
unfolding custom_alert_rules rule_loop read_rule custom_rule_id custom_rule_name custom_conditions
    condition_loop read_condition normalize_custom_operator matches_field matches_id keys
    sorted_difference contains_text find get has_key str leb_text decimal digits_of digit_codes join
    lower strip drop_spaces is_space
custom_alert_rules-AreAcceptable_example =
    custom_alert_rules-AreAcceptable python sha1 written_rules alert_policy_v2_schema_version
      (rules_read read_rules) refl
