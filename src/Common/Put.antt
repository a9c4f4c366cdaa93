-- ===== src/Common/Put.antt =====
-- What is under the keys of a dictionary after `d[key] = value`.
use mathlib.Core.Path.{◌≡◌, refl, subst, ◌∙◌}
use mathlib.Core.Bool.{true, false}
use mathlib.Core.Logic.{inl, inr}
use mathlib.Core.Option.{some}
use native.Mathlib.Omega.{arith}
use oad_parser.Common.Tests.{if◌then◌else◌, Bool-cases}
use oad_parser.Common.Text.{Text}
use oad_parser.Common.Dict.{equals_text, equals_text_refl, equals_text→≡, equals_text_comm}
use oad_parser.Common.Value.{Value, Fields, end, field, find, get, put}

-- A text that equals the first of two different texts differs from the second.
pub apart :
    (k key other : Text)
    → equals_text k key ≡ false
    → equals_text k other ≡ true
    → equals_text key other ≡ false
apart k key other differ same =
    equals_text_comm key other
    ∙ subst (λ t. equals_text t key ≡ false) (equals_text→≡ k other same) differ

pub find-put :
    (key other : Text) (value : Value) (d : Fields)
    → find other (put key value d) ≡ (if equals_text key other then some value else find other d)
unfolding find put
find-put key other value end = refl
find-put key other value (field k v d) = elim (Bool-cases (equals_text k key)) [
  | inl same ↦ rw same (let e = equals_text→≡ k key same in rw e (ground arith))
  | inr differ ↦ rw differ (ground (arith, find-put key other value d, apart k key other differ))
]

pub get-put_other :
    (key other : Text) (v : Value) (d : Fields)
    → equals_text key other ≡ false
    → get other (put key v d) ≡ get other d
unfolding get
get-put_other key other v d differs = rw (find-put key other v d, differs) refl

pub get-put_same : (key : Text) (v : Value) (d : Fields) → get key (put key v d) ≡ v
unfolding get
get-put_same key v d = rw (find-put key key v d, equals_text_refl key) refl
