-- ===== src/Live/Alerts/Disabled.antt =====
-- An alert that the policy of oad_parser/live/alerts.py switches off is not reported.
use oad_parser.Common.{
  ◌≡◌, refl, subst, true, false, Option, none, some, List, [], ◌∷◌, ◌++◌, ℕ, if◌then◌else◌,
  if_intro, case_intro, Bool-cases, inl, inr, All,
}
use oad_parser.Common.Text.{Text, codes}
use oad_parser.Common.Dict.{equals_text, equals_text→≡, lookup}
use oad_parser.Common.Value.{text, Fields, Python, find, get, put, str}
use oad_parser.Common.Put.{get-put_other}
use oad_parser.Detect.Record.{Floats}
use oad_parser.Live.Alerts.Taxonomy.{alert_fields}
use oad_parser.Live.Alerts.Config.{Numbers, AlertOverride, CustomAlertRule, EcgAlertConfig}
use oad_parser.Live.Alerts.Rules.{rule_alerts, rule_applies, custom_rule_alerts}
use oad_parser.Live.Alerts.Checks.{is_nonempty}
use oad_parser.Live.Alerts.Evaluate.{
  alert_key, is_seen, deduplicate_loop, deduplicate_alerts, is_disabled, with_severity, overridden,
  override_key, override_loop, apply_alert_overrides, evaluate_ecg_record_alerts,
}

pub All-append {ℓ} :
    {A : Type ℓ} (P : A → Type 0) (xs ys : List A) → All P xs → All P ys → All P (xs ++ ys)
All-append P [] ys h k = k
All-append P (x ∷ xs) ys (first, h) k = (first, All-append P xs ys h k)

module _ (py : Python) where
  deduplicate_loop-All :
      (P : Fields → Type 0) (seen : List (Text × Text)) (alerts : List Fields)
      → All P alerts
      → All P (deduplicate_loop py seen alerts)
  unfolding deduplicate_loop
  deduplicate_loop-All P seen [] h = tt
  deduplicate_loop-All P seen (a ∷ alerts) (first, h) =
      case_intro (All P) (is_seen (alert_key py a) seen) _ _
        (λ _. deduplicate_loop-All P seen alerts h)
        λ _. (first, deduplicate_loop-All P (alert_key py a ∷ seen) alerts h)

  module _ (fs : Floats) (n : Numbers fs) where
    abbrev pub IsOther : Text → Fields → Type 0
    IsOther id a = equals_text (override_key py fs n a) id ≡ false

    override_key-severity :
        (severity : Option Text) (a : Fields)
        → override_key py fs n (with_severity py fs n severity a) ≡ override_key py fs n a
    override_key-severity none a = refl
    override_key-severity (some []) a = refl
    override_key-severity (some (c ∷ t)) a =
        rw
          (
            get-put_other (codes "event.severity") (codes "id") (text (c ∷ t))
                (put (codes "severity") (text (c ∷ t)) a) refl,
            get-put_other (codes "severity") (codes "id") (text (c ∷ t)) a refl,
          )
          refl

    override_key-overridden :
        (o : Option AlertOverride) (a : Fields)
        → override_key py fs n (overridden py fs n o a) ≡ override_key py fs n a
    override_key-overridden none a = refl
    override_key-overridden (some o) a = override_key-severity o.severity a

    -- What is not switched off has another id.
    enabled-IsOther :
        (id : Text) (overrides : List (Text × AlertOverride)) (key : Text)
        → is_disabled py fs n (lookup id overrides) ≡ true
        → is_disabled py fs n (lookup key overrides) ≡ false
        → equals_text key id ≡ false
    enabled-IsOther id overrides key off on = elim (Bool-cases (equals_text key id)) [
      | inl same ↦ absurd (
          cc (
            off,
            subst (λ k. is_disabled py fs n (lookup k overrides) ≡ false)
                (equals_text→≡ key id same) on,
          ))
      | inr other ↦ other
    ]

    override_loop-AreOthers :
        (id : Text) (overrides : List (Text × AlertOverride)) (alerts : List Fields)
        → is_disabled py fs n (lookup id overrides) ≡ true
        → All (IsOther id) (override_loop py fs n overrides alerts)
    unfolding override_loop
    override_loop-AreOthers id overrides [] off = tt
    override_loop-AreOthers id overrides (a ∷ alerts) off =
        let o = lookup (override_key py fs n a) overrides in
        if_intro (All (IsOther id)) (is_disabled py fs n o) _ _
          (λ _. override_loop-AreOthers id overrides alerts off)
          λ on. (
            rw (override_key-overridden o a)
                (enabled-IsOther id overrides (override_key py fs n a) off on),
            override_loop-AreOthers id overrides alerts off,
          )

    overrides-AreOthers :
        (id : Text) (overrides : List (Text × AlertOverride)) (alerts : List Fields)
        → is_disabled py fs n (lookup id overrides) ≡ true
        → All
            (IsOther id)
            (if is_nonempty overrides then override_loop py fs n overrides alerts else alerts)
    overrides-AreOthers id [] alerts off = absurd (cc off)
    overrides-AreOthers id (o ∷ overrides) alerts off =
        override_loop-AreOthers id (o ∷ overrides) alerts off

    -- No custom rule has the id.
    abbrev pub NoRule : Text → List CustomAlertRule → Type 0
    NoRule id rules = All (λ r. equals_text r.id id ≡ false) rules

    override_key-rule :
        (id name severity category details : Text) (evidence rest : Fields)
        → override_key py fs n (alert_fields id name severity category details evidence rest) ≡ id
    unfolding get find str
    override_key-rule [] name severity category details evidence rest = refl
    override_key-rule (c ∷ t) name severity category details evidence rest = refl

    rule_alerts-AreOthers :
        (id : Text) (record' : Fields) (rules : List CustomAlertRule)
        → NoRule id rules
        → All (IsOther id) (rule_alerts py fs n record' rules)
    unfolding rule_alerts
    rule_alerts-AreOthers id record' [] h = tt
    rule_alerts-AreOthers id record' (r ∷ rules) (first, h) =
        if_intro (All (IsOther id)) (rule_applies py fs n record' r) _ _
          (λ _. (
            rw (override_key-rule r.id _ _ _ _ _ _) first,
            rule_alerts-AreOthers id record' rules h,
          ))
          λ _. rule_alerts-AreOthers id record' rules h

    -- An alert whose id the policy switches off is not among those that `evaluate_ecg_record_alerts`
    -- reports of a record, unless a custom rule has that id. The alerts that live/pipeline.py adds from
    -- earlier records are not among these.
    pub evaluate_ecg_record_alerts-disabled :
        (id : Text) (record' : Fields) (data_words : List ℕ) (config : EcgAlertConfig fs)
        → is_disabled py fs n (lookup id config.desired_alert_overrides) ≡ true
        → NoRule id config.custom_rules
        → All (IsOther id) (evaluate_ecg_record_alerts py fs n record' data_words (some config))
    unfolding evaluate_ecg_record_alerts deduplicate_alerts apply_alert_overrides custom_rule_alerts
    evaluate_ecg_record_alerts-disabled id record' data_words config off none_named =
        deduplicate_loop-All (IsOther id) [] _ (
          All-append (IsOther id) _ (rule_alerts py fs n record' config.custom_rules)
            (overrides-AreOthers id config.desired_alert_overrides _ off)
            (rule_alerts-AreOthers id record' config.custom_rules none_named))
