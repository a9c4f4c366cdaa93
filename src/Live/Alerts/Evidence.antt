-- ===== src/Live/Alerts/Evidence.antt =====
-- The keys and the evidence of the alerts of oad_parser/live/alerts.py.
use oad_parser.Common.{Option, none, List, [], ◌∷◌, Bool, false, ◌||◌, map}
use oad_parser.Common.Int.{ℤ}
use oad_parser.Common.Text.{Text, codes, strip, join}
use oad_parser.Common.Value.{Value, null, text, Fields, end, field, Python, get, str, equals_int}

abbrev or_unknown : Text → Text
or_unknown [] = codes "unknown"
or_unknown (c ∷ t) = c ∷ t

unfoldable pub as_str : Python → Value → Text
as_str py null = codes "unknown"
as_str py v = or_unknown (strip (str py v))

unfoldable pub as_int : (Value → Option ℤ) → Value → Option ℤ
as_int int_of null = none
as_int int_of v = int_of v

unfoldable pub tuple_part : Python → Value → Text
tuple_part py null = []
tuple_part py v = strip (str py v)

abbrev pub contains_int : ℤ → List ℤ → Bool
contains_int n [] = false
contains_int n (m ∷ ms) = equals_int m n || contains_int n ms

-- The dictionary of the record's values under some keys, with the keys renamed.
abbrev pub picked : List (Text × Text) → Fields → Fields → Fields
picked [] record' rest = rest
picked ((key, source) ∷ keys) record' rest =
    field key (get source record') (picked keys record' rest)

abbrev pub same : List Text → List (Text × Text)
same keys = map (λ k. (k, k)) keys

module _ (py : Python) where
  abbrev tuple_key : List Text → Fields → Text
  tuple_key keys record' = join (codes "|") (map (λ key. tuple_part py (get key record')) keys)

  unfoldable pub source_tuple_key : Fields → Text
  source_tuple_key record' =
      tuple_key
        (codes "source_ip"
          ∷ codes "destination_ip"
          ∷ codes "source_port"
          ∷ codes "destination_port"
          ∷ codes "artcc"
          ∷ codes "site_id"
          ∷ codes "channel"
          ∷ codes "message_code"
          ∷ codes "message"
          ∷ [])
        record'

  unfoldable pub site_artcc_channel_tuple_key : Fields → Text
  site_artcc_channel_tuple_key record' =
      tuple_key
        (codes "source_ip"
          ∷ codes "destination_ip"
          ∷ codes "artcc"
          ∷ codes "site_id"
          ∷ codes "channel"
          ∷ codes "message_code"
          ∷ codes "message"
          ∷ [])
        record'

  unfoldable pub source_tuple_evidence : Fields → Text → Fields
  source_tuple_evidence record' allowlist_result =
      picked
        (same (
          codes "source_ip"
          ∷ codes "source_port"
          ∷ codes "destination_ip"
          ∷ codes "destination_port"
          ∷ codes "artcc"
          ∷ codes "site_id"
          ∷ codes "channel"
          ∷ codes "message_code"
          ∷ []))
        record'
        (field (codes "message_name") (get (codes "message") record') (
          field (codes "allowlist_result") (text allowlist_result)
            (field (codes "observed_tuple") (text (source_tuple_key record')) end)))

  unfoldable pub site_tuple_evidence : Fields → Text → Fields
  site_tuple_evidence record' baseline_result =
      picked
        (same (
          codes "source_ip"
          ∷ codes "destination_ip"
          ∷ codes "artcc"
          ∷ codes "site_id"
          ∷ codes "channel"
          ∷ codes "message_code"
          ∷ []))
        record'
        (field (codes "message_name") (get (codes "message") record') (
          field (codes "baseline_result") (text baseline_result)
            (field (codes "observed_tuple") (text (site_artcc_channel_tuple_key record')) end)))

unfoldable pub checksum_evidence : Fields → Text → Fields
checksum_evidence record' result =
    picked
      ((codes "udp.checksum.valid", codes "udp_checksum_valid")
        ∷ (codes "udp.checksum.value_hex", codes "udp_checksum_hex")
        ∷ same (
            codes "source_ip"
            ∷ codes "source_port"
            ∷ codes "destination_ip"
            ∷ codes "destination_port"
            ∷ codes "udp_payload_length"
            ∷ []))
      record' (field (codes "checksum_policy_result") (text result) end)

unfoldable pub malformed_evidence : Fields → Text → Text → Text → Fields
malformed_evidence record' error_code error_message parser_stage =
    picked
      ((codes "network_bytes", codes "network_bytes")
        ∷ (codes "udp_length", codes "udp_length")
        ∷ (codes "udp_payload_length", codes "udp_payload_length")
        ∷ (codes "claimed_ecg_length", codes "ecg_frame_length_claimed")
        ∷ (codes "expected_ecg_length", codes "ecg_frame_length_expected")
        ∷ (codes "ecg_frame_length_valid", codes "ecg_frame_length_valid")
        ∷ [])
      record'
      (field (codes "inner_message_offset") null (
        field (codes "inner_message_length") (get (codes "message_data_length") record') (
          field (codes "parser_drop_reason") (text error_code) (
            field (codes "error_message") (text error_message)
              (field (codes "parser_stage") (text parser_stage) end)))))
