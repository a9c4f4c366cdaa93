-- ===== src/Live/Writer/Aliases.antt =====
-- A field policy that `field_policy_from_dict` of oad_parser/live/writer.py accepts loses no field.
use oad_parser.Common.{
  ◌≡◌, refl, ap, ◌∙◌, true, false, not, ◌&&◌, some, List, [], ◌∷◌, ◌++◌, Bool-cases, inl, inr,
  if_intro, subst, ok, raise_if, value_error, >>=-eq-ok,
}
use oad_parser.Common.Text.{Text, codes}
use oad_parser.Common.Value.{
  Value, null, boolean, integer, floating, text, binary, sequence, mapping, Fields, Python, find,
  get, contains_text,
}
use oad_parser.Live.Writer.Policy.{
  FieldPolicy, field_policy_v2_schema_version, label_of, apply_field_policy, is_empty, pop_all,
}
use oad_parser.Live.Writer.PolicyCheck.{
  allowed_keys, keys, str_or, string_sequence, string_map, field_policy_of, field_policy_from_dict,
  duplicates, targets, check_labels, check_controls, validate_field_policy_v2_controls,
  known_fields, protected_fields, field_policy_v1_schema_versions, sorted_difference, sorted_common,
  sources, raise_names,
}
use oad_parser.Live.Writer.Lossless.{IsRecordOf, IsRecordOf-pop_all, find-pop_all, find-reordered}
use oad_parser.Live.Writer.Labels.{
  duplicates-IsDistinct, IsAliasing, raise_names-eq-ok, check_labels-IsAliasing,
  IsAliasing-IsRenaming,
}

module _ (py : Python) where
  validate-IsAliasing :
      (known disabled order : List Text) (labels notes : List (Text × Text)) (u : Unit {0})
      → validate_field_policy_v2_controls py known disabled order labels notes ≡ ok u
      → IsAliasing known labels
  unfolding validate_field_policy_v2_controls
  validate-IsAliasing known disabled order labels notes u e =
      let (_, _, e1) =
        >>=-eq-ok
          (raise_names (codes "field policy references unknown field(s): ")
            (sorted_difference known (order ++ (sources labels ++ sources notes))))
          _ e in
      let (_, _, e2) =
        >>=-eq-ok
          (raise_names (codes "desired_order contains duplicate field(s): ") (duplicates order)) _
          e1 in
      let (_, _, e3) =
        >>=-eq-ok
          (raise_names (codes "desired_order references disabled field(s): ")
            (sorted_common disabled order))
          _ e2 in
      let (_, _, e4) =
        >>=-eq-ok
          (raise_names (codes "protected compact field(s) cannot be renamed: ")
            (sorted_common (protected_fields py) (sources labels)))
          _ e3 in
      let (v, checked, e5) = >>=-eq-ok (check_labels py known disabled known labels) _ e4 in
      let (v', once, _) =
        >>=-eq-ok
          (raise_names (codes "display_labels contains duplicate alias output(s): ")
            (duplicates (targets labels)))
          _ e5 in
      check_labels-IsAliasing py known disabled known labels v checked (
        duplicates-IsDistinct (targets labels) (
          raise_names-eq-ok (codes "display_labels contains duplicate alias output(s): ")
            (duplicates (targets labels)) v' once))

  check_controls-IsAliasing :
      (version : Text) (disabled order : List Text) (labels notes : List (Text × Text))
      (u : Unit {0})
      → check_controls py version disabled order labels notes ≡ ok u
      → IsAliasing (known_fields py) labels
  check_controls-IsAliasing version disabled order [] notes u e = tt
  check_controls-IsAliasing version disabled order (l ∷ labels) notes u e =
      elim (Bool-cases (contains_text version (field_policy_v1_schema_versions py))) [
        | inl v1 ↦ absurd (cc (rw v1 at e))
        | inr v2 ↦
            validate-IsAliasing (known_fields py) disabled order (l ∷ labels) notes u (rw v2 at e)
      ]

  field_policy_of-IsAliasing :
      (d : Fields) (policy : FieldPolicy)
      → field_policy_of py d ≡ ok policy
      → IsAliasing (known_fields py) policy.display_labels
  unfolding field_policy_of
  field_policy_of-IsAliasing d policy e =
      let version = str_or py (get (codes "schema_version") d) (codes "2026-06-15.phase5b") in
      let (_, _, e1) =
        >>=-eq-ok
          (raise_names (codes "field policy has unknown keys: ")
            (sorted_difference (allowed_keys py) (keys d)))
          _ e in
      let (_, _, e2) =
        >>=-eq-ok
          (raise_if
            (not (
              contains_text version
                (field_policy_v2_schema_version ∷ field_policy_v1_schema_versions py)))
            (value_error "field policy schema_version is not supported"))
          _ e1 in
      let (disabled, _, e3) =
        >>=-eq-ok (string_sequence (get (codes "disabled_fields") d) (codes "disabled_fields")) _
          e2 in
      let (_, _, e4) =
        >>=-eq-ok
          (raise_names (codes "field policy references unknown field(s): ")
            (sorted_difference (known_fields py) disabled))
          _ e3 in
      let (order, _, e5) =
        >>=-eq-ok (string_sequence (get (codes "desired_order") d) (codes "desired_order")) _ e4 in
      let (labels, _, e6) =
        >>=-eq-ok (string_map (get (codes "display_labels") d) (codes "display_labels")) _ e5 in
      let (notes, _, e7) =
        >>=-eq-ok (string_map (get (codes "siem_mapping_notes") d) (codes "siem_mapping_notes")) _
          e6 in
      let (u, checked, last) =
        >>=-eq-ok (check_controls py version disabled order labels notes) _ e7 in
      let same : labels ≡ policy.display_labels = cc last in
      subst (IsAliasing (known_fields py)) same
        (check_controls-IsAliasing version disabled order labels notes u checked)

  field_policy_from_dict-IsAliasing :
      (v : Value) (policy : FieldPolicy)
      → field_policy_from_dict py v ≡ ok policy
      → IsAliasing (known_fields py) policy.display_labels
  unfolding field_policy_from_dict
  field_policy_from_dict-IsAliasing (mapping d) policy e = field_policy_of-IsAliasing d policy e
  field_policy_from_dict-IsAliasing null policy e = absurd (cc e)
  field_policy_from_dict-IsAliasing (boolean b) policy e = absurd (cc e)
  field_policy_from_dict-IsAliasing (integer n) policy e = absurd (cc e)
  field_policy_from_dict-IsAliasing (floating w r) policy e = absurd (cc e)
  field_policy_from_dict-IsAliasing (text t) policy e = absurd (cc e)
  field_policy_from_dict-IsAliasing (binary bs) policy e = absurd (cc e)
  field_policy_from_dict-IsAliasing (sequence items) policy e = absurd (cc e)

  unordered :
      (order : List Text) (labels : List (Text × Text)) (k : Text)
      → (is_empty order && is_empty labels) ≡ true
      → label_of labels k ≡ k
  unfolding label_of
  unordered order [] k h = refl
  unordered [] (l ∷ labels) k h = absurd (cc h)
  unordered (o ∷ order) (l ∷ labels) k h = absurd (cc h)

  -- A policy that `field_policy_from_dict` accepts loses no field of a record whose fields are known,
  -- each once: a field that is not disabled has its value after the policy was applied, under its label
  -- if it has one and else under its own name. So no two fields meet under one name.
  pub apply_field_policy-accepted :
      (v : Value) (policy : FieldPolicy) (d : Fields) (k : Text)
      → field_policy_from_dict py v ≡ ok policy
      → IsRecordOf (known_fields py) d
      → contains_text k (known_fields py) ≡ true
      → contains_text k policy.disabled_fields ≡ false
      → find (label_of policy.display_labels k) (apply_field_policy (some policy) d) ≡ find k d
  unfolding apply_field_policy
  apply_field_policy-accepted v policy d k accepted r known enabled =
      let labels = policy.display_labels in
      let kept = pop_all policy.disabled_fields d in
      let kept_k = find-pop_all policy.disabled_fields k d enabled in
      let renaming =
        IsAliasing-IsRenaming (known_fields py) labels
          (field_policy_from_dict-IsAliasing v policy accepted) in
      if_intro (λ (f : Fields). find (label_of labels k) f ≡ find k d)
        (is_empty policy.desired_order && is_empty labels) _ _
        (λ h. ap (λ t. find t kept) (unordered policy.desired_order labels k h) ∙ kept_k)
        λ _.
          find-reordered labels (known_fields py) renaming policy kept k refl
            (IsRecordOf-pop_all (known_fields py) policy.disabled_fields d r) known
          ∙ kept_k
