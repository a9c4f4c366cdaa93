-- ===== src/Live/Alerts/Distinct.antt =====
-- The alerts that oad_parser/live/alerts.py reports differ in their keys, and every key is reported.
use oad_parser.Common.{
  ◌≡◌, refl, arith, Bool, true, false, ◌||◌, Option, List, [], ◌∷◌, ◌++◌, map, ℕ, case_intro, All,
}
use oad_parser.Common.Text.{Text}
use oad_parser.Common.Dict.{equals_text_refl}
use oad_parser.Common.Value.{Fields, Python}
use oad_parser.Detect.Record.{Floats}
use oad_parser.Live.Alerts.Config.{Numbers, EcgAlertConfig}
use oad_parser.Live.Alerts.Checks.{missing_required_word_alerts, checksum_alerts, configured_alerts}
use oad_parser.Live.Alerts.Evaluate.{
  alert_key, equals_alert_key, is_seen, deduplicate_loop, deduplicate_alerts, apply_alert_overrides,
  rules_of, evaluate_ecg_record_alerts,
}

equals_alert_key_refl : (k : Text × Text) → equals_alert_key k k ≡ true
equals_alert_key_refl (id, details) = rw (equals_text_refl id, equals_text_refl details) refl

All-weaken {ℓ} :
    {A : Type ℓ} (P Q : A → Type 0) (xs : List A) → ((x : A) → P x → Q x) → All P xs → All Q xs
All-weaken P Q [] f h = tt
All-weaken P Q (x ∷ xs) f (first, h) = (f x first, All-weaken P Q xs f h)

module _ (py : Python) where
  abbrev keys : List Fields → List (Text × Text)
  keys alerts = map (alert_key py) alerts

  -- No key of the list is seen, and no two alerts have the same key.
  abbrev AreUnseen : List (Text × Text) → List Fields → Type 0
  AreUnseen seen alerts = All (λ a. is_seen (alert_key py a) seen ≡ false) alerts

  abbrev pub AreDistinct : List Fields → Type 0
  AreDistinct [] = Unit
  AreDistinct (a ∷ alerts) =
      All (λ b. equals_alert_key (alert_key py a) (alert_key py b) ≡ false) alerts
      × AreDistinct alerts

  abbrev pub AreReported : List Fields → List Fields → Type 0
  AreReported reported alerts = All (λ a. is_seen (alert_key py a) (keys reported) ≡ true) alerts

  abbrev IsKnown : List (Text × Text) → List Fields → Fields → Type 0
  IsKnown seen reported a =
      (is_seen (alert_key py a) (keys reported) || is_seen (alert_key py a) seen) ≡ true

  deduplicate_loop-AreUnseen :
      (seen : List (Text × Text)) (alerts : List Fields)
      → AreUnseen seen (deduplicate_loop py seen alerts)
  unfolding deduplicate_loop
  deduplicate_loop-AreUnseen seen [] = tt
  deduplicate_loop-AreUnseen seen (a ∷ alerts) =
      case_intro (AreUnseen seen) (is_seen (alert_key py a) seen) _ _
        (λ _. deduplicate_loop-AreUnseen seen alerts)
        λ unseen. (
          unseen,
          All-weaken _ _ (deduplicate_loop py (alert_key py a ∷ seen) alerts)
              (λ b h. ground (arith, h))
              (deduplicate_loop-AreUnseen (alert_key py a ∷ seen) alerts),
        )

  deduplicate_loop-AreDistinct :
      (seen : List (Text × Text)) (alerts : List Fields)
      → AreDistinct (deduplicate_loop py seen alerts)
  unfolding deduplicate_loop
  deduplicate_loop-AreDistinct seen [] = tt
  deduplicate_loop-AreDistinct seen (a ∷ alerts) =
      case_intro AreDistinct (is_seen (alert_key py a) seen) _ _
        (λ _. deduplicate_loop-AreDistinct seen alerts)
        λ unseen. (
          All-weaken _ _ (deduplicate_loop py (alert_key py a ∷ seen) alerts)
              (λ b h. ground (arith, h))
              (deduplicate_loop-AreUnseen (alert_key py a ∷ seen) alerts),
          deduplicate_loop-AreDistinct (alert_key py a ∷ seen) alerts,
        )

  either : (b c : Bool) → c ≡ true → (b || c) ≡ true
  either true c h = refl
  either false c h = h

  moved : (x b c : Bool) → (b || (x || c)) ≡ true → ((x || b) || c) ≡ true
  moved true b c h = refl
  moved false b c h = h

  deduplicate_loop-IsKnown :
      (seen : List (Text × Text)) (alerts : List Fields)
      → All (IsKnown seen (deduplicate_loop py seen alerts)) alerts
  unfolding deduplicate_loop
  deduplicate_loop-IsKnown seen [] = tt
  deduplicate_loop-IsKnown seen (a ∷ alerts) =
      let kept = deduplicate_loop py (alert_key py a ∷ seen) alerts in
      case_intro (λ (r : List Fields). All (IsKnown seen r) (a ∷ alerts))
        (is_seen (alert_key py a) seen) _ _
        (λ known. (
          either (is_seen (alert_key py a) (keys (deduplicate_loop py seen alerts))) _ known,
          deduplicate_loop-IsKnown seen alerts,
        ))
        λ unseen. (
          rw (equals_alert_key_refl (alert_key py a)) refl,
          All-weaken _ _ alerts
              (λ b h.
                moved (equals_alert_key (alert_key py a) (alert_key py b)) (is_seen _ (keys kept)) _
                  h)
              (deduplicate_loop-IsKnown (alert_key py a ∷ seen) alerts),
        )

  pub deduplicate_alerts-AreReported :
      (alerts : List Fields) → AreReported (deduplicate_alerts py alerts) alerts
  unfolding deduplicate_alerts
  deduplicate_alerts-AreReported alerts =
      All-weaken _ _ alerts (λ b h. ground (arith, h)) (deduplicate_loop-IsKnown [] alerts)

  pub deduplicate_alerts-AreDistinct :
      (alerts : List Fields) → AreDistinct (deduplicate_alerts py alerts)
  unfolding deduplicate_alerts
  deduplicate_alerts-AreDistinct alerts = deduplicate_loop-AreDistinct [] alerts

  module _ (fs : Floats) (n : Numbers fs) where
    abbrev pub raised_alerts : Fields → List ℕ → Option (EcgAlertConfig fs) → List Fields
    raised_alerts record' data_words config =
        apply_alert_overrides py fs n
          (missing_required_word_alerts py record' data_words
            ++ checksum_alerts py fs n record' config
            ++ configured_alerts py fs n record' config)
          config
        ++ rules_of py fs n record' config

    -- The evaluation of a record reports no two alerts with the same id and details, and every alert
    -- that the checks and the rules raise, after the overrides, is reported under its id and details.
    pub evaluate_ecg_record_alerts-AreDistinct :
        (record' : Fields) (data_words : List ℕ) (config : Option (EcgAlertConfig fs))
        → AreDistinct (evaluate_ecg_record_alerts py fs n record' data_words config)
          × AreReported
              (evaluate_ecg_record_alerts py fs n record' data_words config)
              (raised_alerts record' data_words config)
    unfolding evaluate_ecg_record_alerts
    evaluate_ecg_record_alerts-AreDistinct record' data_words config = (
      deduplicate_alerts-AreDistinct (raised_alerts record' data_words config),
      deduplicate_alerts-AreReported (raised_alerts record' data_words config),
    )
