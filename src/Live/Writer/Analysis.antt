-- ===== src/Live/Writer/Analysis.antt =====
-- The duplicate key and the accounting fields that oad_parser/live/writer.py puts into a record.
use oad_parser.Common.{ℕ, true, not, ◌&&◌, Option, none, some, List, [], ◌∷◌, if◌then◌else◌}
use oad_parser.Common.Int.{pos}
use oad_parser.Common.Text.{Text, codes}
use oad_parser.Common.Value.{
  Value, integer, text, sequence, Items, done, item, Fields, Python, get, put, has_key, set_default,
  is_truthy, text_or_null,
}

unfoldable pub duplicate_key_fields : List Text
duplicate_key_fields =
    codes "source.ip"
    ∷ codes "destination.ip"
    ∷ codes "source.port"
    ∷ codes "destination.port"
    ∷ codes "udp.length"
    ∷ codes "udp.payload.length"
    ∷ codes "udp.checksum.value_hex"
    ∷ codes "ecg.frame.length.claimed"
    ∷ codes "ecg.frame.length.expected"
    ∷ codes "ecg.artcc"
    ∷ codes "cd2.site.id"
    ∷ codes "cd2.message.code"
    ∷ codes "cd2.message.name"
    ∷ codes "cd2.sequence"
    ∷ codes "cd2.channel"
    ∷ codes "cd2.channel_raw_byte"
    ∷ codes "ecg.router.timestamp_sec"
    ∷ codes "cd2.radar.timestamp_sec"
    ∷ codes "radar.range_nm"
    ∷ codes "radar.acp"
    ∷ codes "radar.azimuth_degrees"
    ∷ codes "radar.mode_3_code"
    ∷ codes "radar.altitude_feet"
    ∷ codes "hash.payload.sha256"
    ∷ codes "hash.message.sha256"
    ∷ codes "ecg.fingerprint"
    ∷ []

-- The pairs of names and values that the key is the hash of.
unfoldable pub material_of : List Text → Fields → Items
material_of [] record' = done
material_of (key ∷ keys) record' =
    item (sequence (item (text key) (item (get key record') done))) (material_of keys record')

unfoldable pub analysis_duplicate_key : Python → Fields → Option Text
unfolding material_of duplicate_key_fields
analysis_duplicate_key py record' =
    if not (is_truthy (get (codes "hash.message.sha256") record'))
      && not (is_truthy (get (codes "hash.payload.sha256") record'))
      && not (is_truthy (get (codes "ecg.fingerprint") record'))
    then none
    else some (py.sha256_hex (py.dumps true (sequence (material_of duplicate_key_fields record'))))

-- The keyword arguments of `_apply_analysis_mode_accounting`.
pub record Accounting : Type 0 where
  pub duplicate_key : Option Text
  pub duplicate_count : ℕ
  pub records_seen : ℕ
  pub records_emitted : ℕ
  pub duplicates_suppressed : ℕ
  pub sampled_normals_suppressed : ℕ
  pub duplicate_unique_keys_seen : ℕ
  pub duplicate_keys_with_duplicates : ℕ
  pub duplicate_max_key_count : ℕ

abbrev pub number : ℕ → Value
number n = integer (pos n)

abbrev count_or_zero : Option Text → ℕ → ℕ
count_or_zero none n = 0
count_or_zero (some key) n = n

abbrev accounting_values : Accounting → List (Text × ℕ)
accounting_values a =
    (codes "parser.accounting.output.records_seen", a.records_seen)
    ∷ (codes "parser.accounting.output.records_emitted", a.records_emitted)
    ∷ (codes "parser.accounting.suppressed.duplicates", a.duplicates_suppressed)
    ∷ (codes "parser.accounting.suppressed.sampled_normals", a.sampled_normals_suppressed)
    ∷ (codes "parser.accounting.suppressed.parse_warnings", 0)
    ∷ (codes "parser.accounting.suppressed.modec_altitude_missing", 0)
    ∷ (codes "parser.accounting.duplicate.unique_keys_seen", a.duplicate_unique_keys_seen)
    ∷ (codes "parser.accounting.duplicate.keys_with_duplicates", a.duplicate_keys_with_duplicates)
    ∷ (codes "parser.accounting.duplicate.max_key_count", a.duplicate_max_key_count)
    ∷ []

-- Only the accounting fields that the record has are set.
unfoldable pub put_present : List (Text × ℕ) → Fields → Fields
put_present [] record' = record'
put_present ((key, n) ∷ values) record' =
    put_present values (if has_key key record' then put key (number n) record' else record')

unfoldable pub apply_analysis_mode_accounting : Accounting → Fields → Fields
unfolding put_present
apply_analysis_mode_accounting a record' =
    let rated = set_default (codes "event.sample.rate") (number 1) record' in
    let moded =
      put (codes "parser.analysis.mode") (text (codes "mode1_analysis_duplicate_only")) rated in
    let keyed = put (codes "parser.duplicate.key") (text_or_null a.duplicate_key) moded in
    let counted =
      put (codes "parser.duplicate.count")
        (number (count_or_zero a.duplicate_key a.duplicate_count)) keyed in
    put_present (accounting_values a) (put (codes "parser.duplicate.suppressed") (number 0) counted)
