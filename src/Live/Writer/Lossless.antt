-- ===== src/Live/Writer/Lossless.antt =====
-- What `_apply_field_policy` of oad_parser/live/writer.py does to a record when its labels send
-- different fields to different names.
use oad_parser.Common.{
  ◌≡◌, ◌⊎◌, refl, sym, ap, ◌∙◌, arith, Bool, true, false, not, ◌||◌, Option, none, some, List, [],
  ◌∷◌, if◌then◌else◌, Bool-cases, inl, inr, if_intro, subst,
}
use oad_parser.Common.Text.{Text}
use oad_parser.Common.Dict.{equals_text, equals_text→≡}
use oad_parser.Common.Value.{Value, Fields, end, field, put, pop, find, has_key, contains_text}
use oad_parser.Common.Put.{find-put}
use oad_parser.Live.Writer.Policy.{
  FieldPolicy, label_of, pop_all, emit_desired, emit_found, emit_rest, reordered, Emission,
}

-- Every key of the record is one of the names, and none stands twice.
abbrev pub IsRecordOf : List Text → Fields → Type 0
IsRecordOf names end = Unit
IsRecordOf names (field key value d) =
    (contains_text key names ≡ true) × (has_key key d ≡ false) × IsRecordOf names d

has_key-pop :
    (key other : Text) (d : Fields) → has_key other d ≡ false → has_key other (pop key d) ≡ false
unfolding has_key pop
has_key-pop key other end h = refl
has_key-pop key other (field k v d) h = ground (arith, has_key-pop key other d)

IsRecordOf-pop :
    (names : List Text) (key : Text) (d : Fields)
    → IsRecordOf names d
    → IsRecordOf names (pop key d)
unfolding pop
IsRecordOf-pop names key end r = tt
IsRecordOf-pop names key (field k v d) (known, new, r) =
    if_intro (IsRecordOf names) (equals_text k key) _ _ (λ _. r)
      λ _. (known, has_key-pop key k d new, IsRecordOf-pop names key d r)

find-pop :
    (key other : Text) (d : Fields)
    → equals_text key other ≡ false
    → find other (pop key d) ≡ find other d
unfolding find pop
find-pop key other end h = refl
find-pop key other (field k v d) h = elim (Bool-cases (equals_text k key)) [
  | inl same ↦
      rw (same, subst (λ t. equals_text t other ≡ false) (sym (equals_text→≡ k key same)) h) refl
  | inr differ ↦ rw differ (ground (arith, find-pop key other d h))
]

pub IsRecordOf-pop_all :
    (names keys : List Text) (d : Fields) → IsRecordOf names d → IsRecordOf names (pop_all keys d)
unfolding pop_all
IsRecordOf-pop_all names [] d r = r
IsRecordOf-pop_all names (key ∷ keys) d r =
    IsRecordOf-pop_all names keys (pop key d) (IsRecordOf-pop names key d r)

or_false : (a b : Bool) → (a || b) ≡ false → (a ≡ false) × (b ≡ false)
or_false a b h = ground arith

pub find-pop_all :
    (keys : List Text) (other : Text) (d : Fields)
    → contains_text other keys ≡ false
    → find other (pop_all keys d) ≡ find other d
unfolding pop_all contains_text
find-pop_all [] other d h = refl
find-pop_all (key ∷ keys) other d h =
    let (differs, rest) = or_false (equals_text key other) (contains_text other keys) h in
    find-pop_all keys other (pop key d) rest ∙ find-pop key other d differs

find-has_key : (key : Text) (d : Fields) → has_key key d ≡ false → find key d ≡ none
unfolding find has_key
find-has_key key end h = refl
find-has_key key (field k v d) h = ground (arith, find-has_key key d)

find-known :
    (names : List Text) (key : Text) (d : Fields)
    → IsRecordOf names d
    → (find key d ≡ none) ⊎ (contains_text key names ≡ true)
unfolding find
find-known names key end r = inl refl
find-known names key (field k v d) (known, new, r) = elim (Bool-cases (equals_text k key)) [
  | inl same ↦ inr (subst (λ t. contains_text t names ≡ true) (equals_text→≡ k key same) known)
  | inr differ ↦ rw differ (find-known names key d r)
]

-- The emitted values once one more key is emitted.
added :
    (key k : Text) (v : Value) (emitted : List Text) (d : Fields)
    → find key d ≡ some v
    → (if equals_text key k then some v else (if contains_text k emitted then find k d else none))
      ≡ (if equals_text key k || contains_text k emitted then find k d else none)
added key k v emitted d f = elim (Bool-cases (equals_text key k)) [
  | inl same ↦ rw same (sym f ∙ ap (λ t. find t d) (equals_text→≡ key k same))
  | inr differ ↦ rw differ refl
]

module _ (labels : List (Text × Text)) (names : List Text) where
  -- Different names have different labels.
  abbrev pub IsRenaming : Type 0
  IsRenaming =
      (k k' : Text)
      → contains_text k names ≡ true
      → contains_text k' names ≡ true
      → equals_text (label_of labels k) (label_of labels k') ≡ equals_text k k'

  abbrev emitted_value : List Text → Text → Option Value → Option Value
  emitted_value emitted k v = if contains_text k emitted then v else none

  -- The ordered fields hold exactly the emitted ones, under their labels.
  abbrev IsEmission : Fields → Emission → Type 0
  IsEmission d (ordered, emitted) =
      (k : Text)
      → contains_text k names ≡ true
      → find (label_of labels k) ordered ≡ emitted_value emitted k (find k d)

  module _ (renaming : IsRenaming) where
    emit_found-IsEmission :
        (key : Text) (d : Fields) (o : Emission) (value : Option Value)
        → (value ≡ none) ⊎ (contains_text key names ≡ true)
        → find key d ≡ value
        → IsEmission d o
        → IsEmission d (emit_found labels key value o)
    unfolding contains_text
    emit_found-IsEmission key d (ordered, emitted) none known f e = e
    emit_found-IsEmission key d (ordered, emitted) (some v) (inl no_value) f e = cc no_value
    emit_found-IsEmission key d (ordered, emitted) (some v) (inr known) f e =
        if_intro (IsEmission d) (contains_text key emitted) _ _ (λ _. e)
          λ new k k_known.
            find-put (label_of labels key) (label_of labels k) v ordered
            ∙ rw (renaming key k known k_known, e k k_known) (added key k v emitted d f)

    emit_desired-IsEmission :
        (keys : List Text) (d : Fields) (o : Emission)
        → IsRecordOf names d
        → IsEmission d o
        → IsEmission d (emit_desired labels keys d o)
    unfolding emit_desired
    emit_desired-IsEmission [] d o r e = e
    emit_desired-IsEmission (key ∷ keys) d o r e =
        emit_desired-IsEmission keys d (emit_found labels key (find key d) o) r
          (emit_found-IsEmission key d o (find key d) (find-known names key d r) refl e)

    find-emit_rest :
        (emitted : List Text) (d ordered : Fields) (k : Text)
        → IsRecordOf names d
        → contains_text k names ≡ true
        → find (label_of labels k) (emit_rest labels emitted d ordered) ≡ (
            if contains_text k emitted || not (has_key k d)
            then find (label_of labels k) ordered
            else find k d)
    unfolding emit_rest find has_key
    find-emit_rest emitted end ordered k r k_known = ground arith
    find-emit_rest emitted (field key v d) ordered k (known, new, r) k_known =
        let ih = λ (o : Fields). find-emit_rest emitted d o k r k_known in
        let written = put (label_of labels key) v ordered in
        let put_one : find (label_of labels k) written
            ≡ (if equals_text key k then some v else find (label_of labels k) ordered) =
          find-put (label_of labels key) (label_of labels k) v ordered
          ∙ rw (renaming key k known k_known) refl in
        elim (Bool-cases (equals_text key k)) [
          | inl same ↦
              let e = equals_text→≡ key k same in
              let absent = subst (λ t. has_key t d ≡ false) e new in
              let emitted_same = ap (λ t. contains_text t emitted) e in
              elim (Bool-cases (contains_text key emitted)) [
                | inl old ↦
                    let k_old = sym emitted_same ∙ old in rw (old, same, ih ordered, k_old) refl
                | inr fresh ↦
                    let k_fresh = sym emitted_same ∙ fresh in
                    rw (fresh, same, ih written, k_fresh, absent, put_one, same) refl
              ]
          | inr differ ↦ elim (Bool-cases (contains_text key emitted)) [
            | inl old ↦ rw (old, differ, ih ordered) refl
            | inr fresh ↦ rw (fresh, differ, ih written, put_one, differ) refl
          ]
        ]

    -- Every field is there under its label.
    pub find-reordered :
        (policy : FieldPolicy) (d : Fields) (k : Text)
        → policy.display_labels ≡ labels
        → IsRecordOf names d
        → contains_text k names ≡ true
        → find (label_of labels k) (reordered policy d) ≡ find k d
    unfolding reordered
    find-reordered policy d k l r k_known =
        let start : IsEmission d (end, []) = λ k _. unfold find contains_text in refl in
        let o = emit_desired labels policy.desired_order d (end, []) in
        let e = emit_desired-IsEmission policy.desired_order d (end, []) r start k k_known in
        let absent = find-has_key k d in
        rw l (find-emit_rest o.1 d o.0 k r k_known ∙ rw e (ground (arith, absent)))
