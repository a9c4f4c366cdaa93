-- ===== src/Live/Counts.antt =====
-- The counts that `_DuplicateKeyAccounting` of oad_parser/live/writer.py keeps are exact.
use oad_parser.Common.{
  ℕ, ◌+◌, ◌≤◌, ◌≡◌, refl, sym, ap, ◌∙◌, arith, false, Option, none, some, List, [], ◌∷◌, ltb,
  length, if◌then◌else◌, Bool-cases, inl, inr,
}
use oad_parser.Common.Text.{Text}
use oad_parser.Common.Dict.{equals_text, equals_text→≡, equals_text_refl, lookup}
use oad_parser.Live.DuplicateKeys.{
  DuplicateKeyAccounting, new_accounting, next_count, register, register_all,
}

abbrev pub or_zero : Option ℕ → ℕ
or_zero none = 0
or_zero (some n) = n

abbrev pub count_of : Text → DuplicateKeyAccounting → ℕ
count_of key s = or_zero (lookup key s.duplicate_key_counts)

-- How often a key is in the list.
abbrev pub occurrences : Text → List Text → ℕ
occurrences key [] = 0
occurrences key (k ∷ keys) = (if equals_text k key then 1 else 0) + occurrences key keys

next_count-or_zero : (row : Option ℕ) → next_count row ≡ 1 + or_zero row
next_count-or_zero none = refl
next_count-or_zero (some n) = omega arith

count_of-register :
    (own key : Text) (s : DuplicateKeyAccounting)
    → count_of key (register own s).0 ≡ (if equals_text own key then 1 else 0) + count_of key s
unfolding register
count_of-register own key s = elim (Bool-cases (equals_text own key)) [
  | inl same ↦ rw (same) (
      next_count-or_zero (lookup own s.duplicate_key_counts)
      ∙ ap (λ k. 1 + or_zero (lookup k s.duplicate_key_counts)) (equals_text→≡ own key same))
  | inr other ↦ rw (other) (omega arith)
]

count_of-register_all :
    (key : Text) (keys : List Text) (s : DuplicateKeyAccounting)
    → count_of key (register_all keys s) ≡ occurrences key keys + count_of key s
unfolding register_all
count_of-register_all key [] s = omega arith
count_of-register_all key (k ∷ keys) s =
    let ih = count_of-register_all key keys (register k s).0 in
    let one = count_of-register k key s in omega (arith, ih, one)

-- No count is above the maximum, and the maximum is some key's count.
abbrev IsMaximum : DuplicateKeyAccounting → Type 0
IsMaximum s =
    ((key : Text) → count_of key s ≤ s.max_key_count)
    × ((key : Text) × (count_of key s ≡ s.max_key_count))

max_step :
    (own key : Text) (s : DuplicateKeyAccounting)
    → IsMaximum s
    → count_of key (register own s).0 ≤ (register own s).0.max_key_count
unfolding register
max_step own key s (below, _) =
    let count = next_count (lookup own s.duplicate_key_counts) in
    let one = next_count-or_zero (lookup own s.duplicate_key_counts) in
    let bound = below key in
    elim (Bool-cases (equals_text own key)) [
      | inl same ↦ rw (same) (ground arith)
      | inr other ↦ rw (other) (ground (arith, bound))
    ]

over_maximum :
    (most count before : ℕ) → ltb most count ≡ false → count ≡ 1 + before → before ≡ most → ⊥
over_maximum most count before no_more one reached = ground arith

attained_step :
    (own : Text) (s : DuplicateKeyAccounting)
    → IsMaximum s
    → (key : Text) × (count_of key (register own s).0 ≡ (register own s).0.max_key_count)
unfolding register
attained_step own s (below, (key, reached)) =
    let count = next_count (lookup own s.duplicate_key_counts) in
    let one = next_count-or_zero (lookup own s.duplicate_key_counts) in
    elim (Bool-cases (ltb s.max_key_count count)) [
      | inl more ↦ (own, rw (more, equals_text_refl own) refl)
      | inr no_more ↦ elim (Bool-cases (equals_text own key)) [
        | inl same ↦ absurd (
            over_maximum s.max_key_count count (count_of own s) no_more one
              (ap (λ k. count_of k s) (equals_text→≡ own key same) ∙ reached))
        | inr other ↦ (key, rw (no_more, other) reached)
      ]
    ]

IsMaximum-register_all :
    (keys : List Text) (s : DuplicateKeyAccounting) → IsMaximum s → IsMaximum (register_all keys s)
unfolding register_all
IsMaximum-register_all [] s h = h
IsMaximum-register_all (k ∷ keys) s h =
    IsMaximum-register_all keys (register k s).0 ((λ key. max_step k key s h), attained_step k s h)

observations-register_all :
    (keys : List Text) (s : DuplicateKeyAccounting)
    → (register_all keys s).observations ≡ length keys + s.observations
unfolding register_all register
observations-register_all [] s = omega arith
observations-register_all (k ∷ keys) s =
    let ih = observations-register_all keys (register k s).0 in omega (arith, ih)

-- After any keys were registered from the start, for each key: its stored count is how often it
-- occurred, registering it once more returns one more than that, the observations are all calls, no
-- key occurred more often than the maximum says, and some key occurred that often.
pub register_all-occurrences :
    (keys : List Text) (key : Text)
    → (count_of key (register_all keys new_accounting) ≡ occurrences key keys)
      × ((register key (register_all keys new_accounting)).1 ≡ occurrences key keys + 1)
      × ((register_all keys new_accounting).observations ≡ length keys)
      × (occurrences key keys ≤ (register_all keys new_accounting).max_key_count)
      × (top : Text) × (occurrences top keys ≡ (register_all keys new_accounting).max_key_count)
unfolding register
register_all-occurrences keys key =
    let counted : (k : Text) → count_of k (register_all keys new_accounting) ≡ occurrences k keys =
      λ k. count_of-register_all k keys new_accounting ∙ omega arith in
    let (below, (top, reached)) =
      IsMaximum-register_all keys new_accounting ((λ _. omega arith), ([], refl)) in
    let row = lookup key (register_all keys new_accounting).duplicate_key_counts in
    let here = counted key in
    let bound = below key in
    let returned = next_count-or_zero row in
    (
      here,
      omega (arith, returned, here),
      observations-register_all keys new_accounting ∙ omega arith,
      omega (arith, here, bound),
      top,
      sym (counted top) ∙ reached,
    )
