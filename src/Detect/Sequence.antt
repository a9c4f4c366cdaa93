-- ===== src/Detect/Sequence.antt =====
-- The sequence rule of oad_parser/detectors/state.py as arithmetic modulo 256.
use oad_parser.Common.{
  ℕ, ◌+◌, ◌%◌, ◌<◌, ◌≡◌, ◌↔◌, refl, sym, subst, ap, ap₂, ◌∙◌, arith, Bool, true, false, some, List,
  [], ◌∷◌, ltb, leb, if◌then◌else◌, if_intro,
}
use oad_parser.Common.Int.{ℤ, pos, sub_ℕ, ◌-ℤ◌, ltb_ℤ, mod_ℤ}
use oad_parser.Detect.Record.{
  Floats, Plot, DetectionConfig, SiteState, sequence_rule, sequence_too_large, sequence_delta_is,
}
use oad_parser.Detect.Rules.{
  detect_sequence, modular_sequence, sequence_between, is_legacy_gap, finding,
}

-- Where the sequence number went from `previous` to `current`, the remainder is how many steps
-- of a byte counter lie between.
mod_sub :
    (current previous : ℕ)
    → current < 256
    → previous < 256
    → (mod_ℤ (sub_ℕ current previous) 256 < 256)
      × ((previous + mod_ℤ (sub_ℕ current previous) 256) % 256 ≡ current)
mod_sub current previous h k =
    if_intro (λ z. (mod_ℤ z 256 < 256) × ((previous + mod_ℤ z 256) % 256 ≡ current))
      (leb previous current) _ _ (λ le. (omega arith, ground arith))
      (λ gt. (omega arith, ground arith))

mod_ℤ-difference :
    (current previous : ℕ)
    → mod_ℤ (pos current -ℤ pos previous) 256 ≡ mod_ℤ (sub_ℕ current previous) 256
unfolding ◌-ℤ◌
mod_ℤ-difference current previous =
    let left : current + 0 ≡ current = omega arith in
    let right : 0 + previous ≡ previous = omega arith in
    ap₂ (λ x y. mod_ℤ (sub_ℕ x y) 256) left right

abbrev pub is_nonempty {ℓ} : {A : Type ℓ} → List A → Bool
is_nonempty [] = false
is_nonempty (x ∷ xs) = true

beyond : (limit delta : ℕ) → ltb (limit + 0) (delta + 0) ≡ false → limit < delta → true ≡ false
beyond limit delta t lt = ground arith

flag_iff {ℓ} :
    {A : Type ℓ} (x : A) (limit delta : ℕ)
    → (is_nonempty (if ltb_ℤ (pos limit) (pos delta) then x ∷ [] else []) ≡ true) ↔ (limit < delta)
flag_iff {A = A} x limit delta =
    if_intro (λ xs. (is_nonempty {A = A} xs ≡ true) ↔ (limit < delta)) (ltb (limit + 0) (delta + 0))
      _ _ (λ t. ((λ _. ground arith), λ _. refl))
      (λ t. ((λ e. cc e), λ lt. cc (beyond limit delta t lt)))

module _ (fs : Floats) where
  modular_rule :
      (config : DetectionConfig fs) (plot : Plot fs) (state : SiteState fs)
      (limit current previous : ℤ)
      → config.legacy_sequence_delta ≡ false
      → config.max_sequence_delta ≡ some limit
      → plot.sequence ≡ some current
      → state.last_sequence ≡ some previous
      → detect_sequence fs config plot state
        ≡ modular_sequence fs (some limit) (current -ℤ previous) plot
  unfolding detect_sequence
  modular_rule config plot state limit current previous modern limited here last =
      ap₂ (λ c p. sequence_between fs config c p plot) here last
      ∙ ap₂
          (λ legacy max.
            if legacy
            then (
              (if is_legacy_gap fs (current -ℤ previous)
                  then finding fs sequence_rule sequence_too_large
                      (sequence_delta_is (current -ℤ previous))
                  else []),
              record plot { sequence_delta = some (current -ℤ previous) },
            )
            else modular_sequence fs max (current -ℤ previous) plot)
          modern limited

  -- With the modular rule and a limit, for a record and a site whose sequence numbers are bytes: the
  -- record gets the number of steps that a byte counter makes from the site's number to its own, and
  -- there is a finding exactly if that is above the limit.
  pub detect_sequence-delta :
      (config : DetectionConfig fs) (plot : Plot fs) (state : SiteState fs)
      (limit current previous : ℕ)
      → config.legacy_sequence_delta ≡ false
      → config.max_sequence_delta ≡ some (pos limit)
      → plot.sequence ≡ some (pos current)
      → state.last_sequence ≡ some (pos previous)
      → current < 256
      → previous < 256
      → (delta : ℕ) × (delta < 256)
        × ((previous + delta) % 256 ≡ current)
        × ((detect_sequence fs config plot state).1.sequence_delta ≡ some (pos delta))
        × ((is_nonempty (detect_sequence fs config plot state).0 ≡ true) ↔ (limit < delta))
  detect_sequence-delta config plot state limit current previous modern limited here last h k =
      let (small, lands) = mod_sub current previous h k in
      let same = mod_ℤ-difference current previous in
      let e =
        modular_rule config plot state (pos limit) (pos current) (pos previous) modern limited here
          last in
      (
        mod_ℤ (pos current -ℤ pos previous) 256,
        subst (λ d. d < 256) (sym same) small,
        subst (λ d. (previous + d) % 256 ≡ current) (sym same) lands,
        ap (λ r. r.1.sequence_delta) e,
        subst (λ r. (is_nonempty r.0 ≡ true) ↔ (limit < mod_ℤ (pos current -ℤ pos previous) 256))
            (sym e) (flag_iff _ limit (mod_ℤ (pos current -ℤ pos previous) 256)),
      )
