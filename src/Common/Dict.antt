-- ===== src/Common/Dict.antt =====
-- Dictionaries whose keys are texts, as lists of entries, the last written first.
use mathlib.Core.Path.{◌≡◌, refl, ap₂}
use mathlib.Core.Bool.{Bool, true, false, ◌&&◌}
use mathlib.Core.Option.{Option, none, some}
use mathlib.Core.List.{List, [], ◌∷◌}
use native.Mathlib.Omega.{arith}
use Prim.Native.Nat.{ℕ}
use oad_parser.Common.Tests.{◌==◌, if◌then◌else◌, ==_refl}
use oad_parser.Common.Text.{Text}

abbrev pub equals_text : Text → Text → Bool
equals_text [] [] = true
equals_text [] (d ∷ ds) = false
equals_text (c ∷ cs) [] = false
equals_text (c ∷ cs) (d ∷ ds) = (c == d) && equals_text cs ds

-- `d.get(key)`
abbrev pub lookup {ℓ} : {A : Type ℓ} → Text → List (Text × A) → Option A
lookup key [] = none
lookup key ((k, a) ∷ entries) =
    let rest = lookup key entries in if equals_text k key then some a else rest

-- `d[key] = value`
abbrev pub insert {ℓ} : {A : Type ℓ} → Text → A → List (Text × A) → List (Text × A)
insert key a entries = (key, a) ∷ entries

pub equals_text_refl : (t : Text) → equals_text t t ≡ true
equals_text_refl [] = refl
equals_text_refl (c ∷ cs) = rw (==_refl c, equals_text_refl cs) refl

same_head : (c d : ℕ) (b : Bool) → ((c == d) && b) ≡ true → (c ≡ d) × (b ≡ true)
same_head c d true h = (ground arith, refl)
same_head c d false h = (ground arith, ground arith)

pub equals_text→≡ : (s t : Text) → equals_text s t ≡ true → s ≡ t
equals_text→≡ [] [] h = refl
equals_text→≡ [] (d ∷ ds) h = cc h
equals_text→≡ (c ∷ cs) [] h = cc h
equals_text→≡ (c ∷ cs) (d ∷ ds) h =
    let (head, tail) = same_head c d (equals_text cs ds) h in
    let rest = equals_text→≡ cs ds tail in ap₂ (λ x xs. x ∷ xs) head rest

pub lookup-insert {ℓ} :
    {A : Type ℓ} (key : Text) (a : A) (entries : List (Text × A))
    → lookup key (insert key a entries) ≡ some a
lookup-insert key a entries = rw (equals_text_refl key) refl

pub lookup-insert_other {ℓ} :
    {A : Type ℓ} (key other : Text) (a : A) (entries : List (Text × A))
    → equals_text key other ≡ false
    → lookup other (insert key a entries) ≡ lookup other entries
lookup-insert_other key other a entries h = rw (h) refl

pub equals_text_comm : (s t : Text) → equals_text s t ≡ equals_text t s
equals_text_comm [] [] = refl
equals_text_comm [] (d ∷ ds) = refl
equals_text_comm (c ∷ cs) [] = refl
equals_text_comm (c ∷ cs) (d ∷ ds) = ground (arith, equals_text_comm cs ds)
