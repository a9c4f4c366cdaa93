-- ===== src/Decoders/Legacy.antt =====
-- The beacon decoder of oad_parser/decoders/cd2_radar.py against oad_parser/parsers/ecg.py, and its
-- list of missing fields against the fields it has.
use oad_parser.Common.{
  ℕ, zero, suc, ◌*◌, ◌/◌, ◌%◌, ◌^◌, bit_and, ◌≡◌, refl, sym, ap, ap₂, ◌∙◌, arith, not, Option, none,
  some, List, [], ◌∷◌, ◌++◌, ◌==◌, leb, length, get_elem?, if◌then◌else◌,
}
use native.Mathlib.Nat.{pow-suc, mul_assoc, div-div-eq-div-mul}
use oad_parser.Common.Bits.{bit_and_step, bit_and_mask}
use oad_parser.Cd2.Frame.{FrameError}
use oad_parser.Ecg.Plot.{altitude_of}
use oad_parser.Decoders.Radar.{
  BeaconCandidate, InputBasis, Field, range_field, azimuth_field, mode_3_field, altitude_field,
  field_of, missing, candidate_altitude, decode_beacon_candidate_words,
}

and_even : (a b : ℕ) → bit_and a (b * 2) ≡ bit_and (a / 2) b * 2
and_even a b = let e : b * 2 / 2 ≡ b = omega arith in bit_and_step a (b * 2) ∙ rw (e) (omega arith)

-- One bit of a number.
bit_and_power : (k a : ℕ) → bit_and a (2 ^ k) ≡ a / 2 ^ k % 2 * 2 ^ k
bit_and_power zero a = bit_and_mask 1 a ∙ omega arith
bit_and_power (suc k) a =
    ap (λ p. bit_and a p) (pow-suc 2 k)
    ∙ and_even a (2 ^ k)
    ∙ ap (λ x. x * 2) (bit_and_power k (a / 2))
    ∙ ap (λ q. q % 2 * 2 ^ k * 2) (div-div-eq-div-mul a 2 (2 ^ k))
    ∙ ap (λ p. a / p % 2 * 2 ^ k * 2)
        (let e : 2 * 2 ^ k ≡ 2 ^ suc k = omega (arith, pow-suc 2 k) in e)
    ∙ mul_assoc (a / 2 ^ suc k % 2) (2 ^ k) 2
    ∙ ap (λ p. a / 2 ^ suc k % 2 * p) (sym (pow-suc 2 k))

same_sign : (w : ℕ) → not (bit_and (bit_and w 0xfff) 0x800 == 0) ≡ (bit_and w 0x800 / 2 ^ 11 == 1)
same_sign w =
    ground (arith, bit_and_mask 12 w, bit_and_power 11 (bit_and w 0xfff), bit_and_power 11 w)

same_size : (w : ℕ) → bit_and (bit_and w 0xfff) 0x7ff ≡ bit_and w 0x7ff
same_size w = omega (arith, bit_and_mask 12 w, bit_and_mask 11 (bit_and w 0xfff), bit_and_mask 11 w)

-- The beacon decoder and the plot parser read the same altitude from every word, though the one tests
-- the sign bit after it cut the word to twelve bits and the other shifts it down.
pub candidate_altitude-altitude_of : (w : ℕ) → candidate_altitude w ≡ altitude_of w
unfolding candidate_altitude altitude_of
candidate_altitude-altitude_of w = rw (same_sign w, same_size w) refl

abbrev pub absent {ℓ} : {A : Type ℓ} → Field → Option A → List Field
absent field none = field ∷ []
absent field (some a) = []

missing-absent {ℓ} :
    {A : Type ℓ} (f : ℕ → A) (field : Field) (words : List ℕ) (index : ℕ)
    → missing field words index ≡ absent field (field_of f (get_elem? words index))
missing-absent f field [] index = ground arith
missing-absent f field (w ∷ words) zero = ground arith
missing-absent f field (w ∷ words) (suc index) =
    ap (λ b. if b then field ∷ [] else [])
      (let e : leb (suc (length words)) (suc index) ≡ leb (length words) index = ground arith in e)
    ∙ missing-absent f field words index

-- What the result says of the fields that it does not have.
pub record ListsAbsent (r : BeaconCandidate) : Type 0 where
  pub listed :
      r.missing_fields
      ≡ absent range_field r.range_nm
        ++ (absent azimuth_field r.azimuth_degrees
            ++ (absent mode_3_field r.mode_3_code ++ absent altitude_field r.altitude_feet))
  pub with_azimuth : absent azimuth_field r.acp ≡ absent azimuth_field r.azimuth_degrees

-- The missing fields are exactly those of the range, the azimuth, the mode 3 code and the altitude that
-- the result does not have, in this order. The one optional field that is never listed, `acp`, is absent
-- exactly if the azimuth is.
pub decode_beacon_candidate_words-absent :
    (words : List ℕ) (status : ℕ) (errors : List FrameError) (basis : InputBasis)
    → ListsAbsent (decode_beacon_candidate_words words status errors basis)
unfolding decode_beacon_candidate_words
decode_beacon_candidate_words-absent words status errors basis = record {
  listed =
      ap₂ (λ a b. a ++ b) (missing-absent _ range_field words 1)
        (ap₂ (λ a b. a ++ b) (missing-absent _ azimuth_field words 2)
          (ap₂ (λ a b. a ++ b) (missing-absent _ mode_3_field words 4)
            (missing-absent _ altitude_field words 6)));
  with_azimuth =
      sym (missing-absent (λ word. bit_and word 0xfff) azimuth_field words 2)
      ∙ missing-absent (λ word. bit_and word 0xfff) azimuth_field words 2;
}
