-- ===== src/Live/Writer/Labels.antt =====
-- Aliases that `_validate_field_policy_v2_controls` of oad_parser/live/writer.py lets pass keep fields apart.
use oad_parser.Common.{
  ◌≡◌, ◌≢◌, refl, sym, ap, ◌∙◌, arith, Bool, true, false, not, ◌&&◌, Option, none, some, List, [],
  ◌∷◌, if◌then◌else◌, Bool-cases, inl, inr, subst, ok, >>=-eq-ok,
}
use oad_parser.Common.Text.{Text}
use oad_parser.Common.Dict.{equals_text, equals_text_refl, equals_text→≡, equals_text_comm, lookup}
use oad_parser.Common.Value.{Python, contains_text}
use oad_parser.Decoders.Registry.{insert_sorted}
use oad_parser.Live.Writer.Policy.{label_of, or_self}
use oad_parser.Live.Writer.PolicyCheck.{
  duplicates, targets, check_label, check_labels, raise_text_if, raise_names,
}
use oad_parser.Live.Writer.Lossless.{IsRenaming}

insert_sorted-ne-nil : (t : Text) (ts : List Text) → insert_sorted t ts ≢ []
insert_sorted-ne-nil t [] e = cc e
insert_sorted-ne-nil t (u ∷ us) e = ground (arith, e)

-- No text stands twice.
abbrev IsDistinct : List Text → Type 0
IsDistinct [] = Unit
IsDistinct (t ∷ ts) = (contains_text t ts ≡ false) × IsDistinct ts

split_duplicates :
    (t : Text) (twice : Bool) (rest : List Text)
    → (if twice && not (contains_text t rest) then insert_sorted t rest else rest) ≡ []
    → (rest ≡ []) × (twice ≡ false)
unfolding contains_text
split_duplicates t true [] e = absurd (insert_sorted-ne-nil t [] e)
split_duplicates t true (u ∷ us) e = ground (arith, insert_sorted-ne-nil t (u ∷ us))
split_duplicates t false rest e = (e, refl)

pub duplicates-IsDistinct : (ts : List Text) → duplicates ts ≡ [] → IsDistinct ts
unfolding duplicates
duplicates-IsDistinct [] e = tt
duplicates-IsDistinct (t ∷ ts) e =
    let (rest, once) = split_duplicates t (contains_text t ts) (duplicates ts) e in
    (once, duplicates-IsDistinct ts rest)

-- Each alias is a new name or its field's own, and stands once.
abbrev pub IsAliasing : List Text → List (Text × Text) → Type 0
IsAliasing known [] = Unit
IsAliasing known ((source, alias) ∷ labels) =
    ((contains_text alias known && not (equals_text alias source)) ≡ false)
    × (contains_text alias (targets labels) ≡ false)
    × IsAliasing known labels

pub raise_text_if-eq-ok :
    (test : Bool) (message : Text) (u : Unit {0}) → raise_text_if test message ≡ ok u → test ≡ false
raise_text_if-eq-ok true message u e = cc e
raise_text_if-eq-ok false message u e = refl

pub raise_names-eq-ok :
    (message : Text) (names : List Text) (u : Unit {0})
    → raise_names message names ≡ ok u
    → names ≡ []
raise_names-eq-ok message [] u e = refl
raise_names-eq-ok message (n ∷ names) u e = cc e

module _ (py : Python) where
  check_label-eq-ok :
      (known disabled taken : List Text) (source alias : Text) (u : Unit {0})
      → check_label py known disabled taken source alias ≡ ok u
      → (contains_text alias known && not (equals_text alias source)) ≡ false
  unfolding check_label
  check_label-eq-ok known disabled taken source alias u e = ground arith

  pub check_labels-IsAliasing :
      (known disabled taken : List Text) (labels : List (Text × Text)) (u : Unit {0})
      → check_labels py known disabled taken labels ≡ ok u
      → IsDistinct (targets labels)
      → IsAliasing known labels
  unfolding check_labels
  check_labels-IsAliasing known disabled taken [] u e d = tt
  check_labels-IsAliasing known disabled taken ((source, alias) ∷ labels) u e (once, d) =
      let (v, first, rest) = >>=-eq-ok (check_label py known disabled taken source alias) _ e in
      (
        check_label-eq-ok known disabled taken source alias v first,
        once,
        check_labels-IsAliasing known disabled (alias ∷ taken) labels u rest d,
      )

-- What a lookup of a label finds.
lookup-IsAliasing :
    (known : List Text) (labels : List (Text × Text)) (k a : Text)
    → IsAliasing known labels
    → lookup k labels ≡ some a
    → ((contains_text a known && not (equals_text a k)) ≡ false)
      × (contains_text a (targets labels) ≡ true)
unfolding contains_text
lookup-IsAliasing known [] k a h e = cc e
lookup-IsAliasing known ((source, alias) ∷ labels) k a (free, once, h) e =
    elim (Bool-cases (equals_text source k)) [
      | inl same ↦
          let at_k : some alias ≡ some a = rw same at e in
          let own =
            subst (λ t. (contains_text alias known && not (equals_text alias t)) ≡ false)
              (equals_text→≡ source k same) free in
          let same_alias : alias ≡ a = cc at_k in
          let found = subst (λ t. equals_text alias t ≡ true) same_alias (equals_text_refl alias) in
          (
            subst (λ t. (contains_text t known && not (equals_text t k)) ≡ false) same_alias own,
            rw found refl,
          )
      | inr differ ↦
          let (own, there) = lookup-IsAliasing known labels k a h (rw differ at e) in
          (own, ground (arith, there))
    ]

taken_twice :
    (known : List Text) (labels : List (Text × Text)) (alias a k : Text)
    → IsAliasing known labels
    → contains_text alias (targets labels) ≡ false
    → some alias ≡ some a
    → lookup k labels ≡ some a
    → ⊥
taken_twice known labels alias a k h once e found =
    let same_alias : alias ≡ a = cc e in
    let there = (lookup-IsAliasing known labels k a h found).1 in
    cc (sym (subst (λ t. contains_text t (targets labels) ≡ false) same_alias once) ∙ there)

-- No two fields have one alias.
lookup-apart :
    (known : List Text) (labels : List (Text × Text)) (k k' a : Text)
    → IsAliasing known labels
    → lookup k labels ≡ some a
    → lookup k' labels ≡ some a
    → equals_text k k' ≡ true
lookup-apart known [] k k' a h e e' = cc e
lookup-apart known ((source, alias) ∷ labels) k k' a (free, once, h) e e' =
    elim (Bool-cases (equals_text source k)) [
      | inl same ↦ elim (Bool-cases (equals_text source k')) [
        | inl same' ↦ subst (λ t. equals_text t k' ≡ true) (equals_text→≡ source k same) same'
        | inr differ' ↦
            absurd (taken_twice known labels alias a k' h once (rw same at e) (rw differ' at e'))
      ]
      | inr differ ↦ elim (Bool-cases (equals_text source k')) [
        | inl same' ↦
            absurd (taken_twice known labels alias a k h once (rw same' at e') (rw differ at e))
        | inr differ' ↦ lookup-apart known labels k k' a h (rw differ at e) (rw differ' at e')
      ]
    ]

-- A known name with an alias, and one without: the alias is no other known name.
alias_apart :
    (known : List Text) (labels : List (Text × Text)) (k k' a : Text)
    → IsAliasing known labels
    → lookup k labels ≡ some a
    → contains_text k' known ≡ true
    → equals_text a k' ≡ true
    → equals_text k k' ≡ true
alias_apart known labels k k' a h e known' same =
    let (own, _) = lookup-IsAliasing known labels k a h e in
    let a_k' = equals_text→≡ a k' same in
    let own' = subst (λ t. (contains_text t known && not (equals_text t k)) ≡ false) a_k' own in
    equals_text_comm k k' ∙ ground arith

equals_of : (b c : Bool) → (b ≡ true → c ≡ true) → (c ≡ true → b ≡ true) → b ≡ c
equals_of true c f g = sym (f refl)
equals_of false true f g = g refl
equals_of false false f g = refl

labels_apart :
    (known : List Text) (labels : List (Text × Text)) (k k' : Text)
    → IsAliasing known labels
    → contains_text k known ≡ true
    → contains_text k' known ≡ true
    → (o o' : Option Text) → lookup k labels ≡ o
    → lookup k' labels ≡ o'
    → equals_text (or_self k o) (or_self k' o') ≡ true
    → equals_text k k' ≡ true
labels_apart known labels k k' h kn kn' none none e e' same = same
labels_apart known labels k k' h kn kn' (some a) none e e' same =
    alias_apart known labels k k' a h e kn' same
labels_apart known labels k k' h kn kn' none (some a) e e' same =
    equals_text_comm k k' ∙ alias_apart known labels k' k a h e' kn (equals_text_comm a k ∙ same)
labels_apart known labels k k' h kn kn' (some a) (some a') e e' same =
    lookup-apart known labels k k' a h e (e' ∙ ap some (sym (equals_text→≡ a a' same)))

pub IsAliasing-IsRenaming :
    (known : List Text) (labels : List (Text × Text))
    → IsAliasing known labels
    → IsRenaming labels known
unfolding label_of
IsAliasing-IsRenaming known labels h k k' k_known k'_known =
    equals_of _ _
      (λ same.
        labels_apart known labels k k' h k_known k'_known (lookup k labels) (lookup k' labels) refl
          refl same)
      λ same.
        subst (λ t. equals_text (label_of labels k) (label_of labels t) ≡ true)
          (equals_text→≡ k k' same) (equals_text_refl (label_of labels k))
