-- ===== src/Live/Alerts/Checks.antt =====
-- The checks of oad_parser/live/alerts.py on one record, each with its alerts.
use oad_parser.Common.{
  ℕ, Option, none, some, List, [], ◌∷◌, ◌++◌, Bool, true, false, not, ◌&&◌, ◌||◌, leb, length, map,
  if◌then◌else◌,
}
use oad_parser.Common.Int.{ℤ, pos, ltb_ℤ}
use oad_parser.Common.Text.{Text, codes}
use oad_parser.Common.Dict.{equals_text, lookup}
use oad_parser.Common.Value.{
  Value, boolean, integer, text, sequence, Fields, end, field, Python, get, put, equals_int,
  contains_text, sequence_of,
}
use oad_parser.Decoders.Registry.{leb_text}
use oad_parser.Detect.Record.{Floats}
use oad_parser.Live.Alerts.Taxonomy.{ecg_cd2_001, ecg_cd2_003, ecg_cd2_007, oad_ecg_007, make_alert}
use oad_parser.Live.Alerts.Config.{Numbers, EcgAlertConfig}
use oad_parser.Live.Alerts.Evidence.{
  as_str, as_int, contains_int, source_tuple_key, site_artcc_channel_tuple_key,
  source_tuple_evidence, site_tuple_evidence, checksum_evidence,
}

abbrev insert_sorted {ℓ} : {A : Type ℓ} → (A → A → Bool) → A → List A → List A
insert_sorted before a [] = a ∷ []
insert_sorted before a (b ∷ bs) =
    let rest = insert_sorted before a bs in if before a b then a ∷ b ∷ bs else b ∷ rest

-- `sorted` of a set
abbrev pub sorted {ℓ} : {A : Type ℓ} → (A → A → Bool) → List A → List A
sorted before [] = []
sorted before (a ∷ as') = insert_sorted before a (sorted before as')

abbrev sorted_texts : List Text → Value
sorted_texts ts = sequence (sequence_of (map text (sorted leb_text ts)))

abbrev sorted_ints : List ℤ → Value
sorted_ints ns = sequence (sequence_of (map integer (sorted ltb_ℤ ns)))

abbrev pub is_nonempty {ℓ} : {A : Type ℓ} → List A → Bool
is_nonempty [] = false
is_nonempty (a ∷ as') = true

-- `map.get(site) or default`
abbrev of_site {ℓ} : {A : Type ℓ} → Option (List A) → List A → List A
of_site (some (a ∷ as')) default = a ∷ as'
of_site (some []) default = default
of_site none default = default

abbrev or_none {ℓ} : {A : Type ℓ} → Option (List A) → List A
or_none none = []
or_none (some as') = as'

abbrev is_listed_int : Option ℤ → List ℤ → Bool
is_listed_int none ns = false
is_listed_int (some n) ns = contains_int n ns

abbrev is_there {ℓ} : {A : Type ℓ} → Option A → Bool
is_there none = false
is_there (some a) = true

abbrev pub alert_if : Bool → Fields → List Fields
alert_if test alert = if test then alert ∷ [] else []

-- The words of a radar message that its row of data words is too short for.
abbrev missing_words : Text → ℕ → List Text
missing_words message_type count =
    (if leb count 1 then codes "range_word" ∷ [] else [])
    ++ (if leb count 2 then codes "acp_word" ∷ [] else [])
    ++ (if equals_text message_type (codes "beacon") && leb count 4
        then codes "mode_3_word" ∷ []
        else [])

unfoldable pub projectable_radar_messages : List Text
projectable_radar_messages = codes "cd-2" ∷ codes "cd-asr" ∷ codes "mar" ∷ []

unfoldable pub projectable_radar_message_types : List Text
projectable_radar_message_types = codes "beacon" ∷ codes "search" ∷ []

abbrev missing_word_alert : Text → Text → ℕ → Fields
missing_word_alert message message_type count =
    make_alert oad_ecg_007
      (codes "Required radar words are missing from a projectable ECG message.")
      (field (codes "message") (text message) (
        field (codes "message_type") (text message_type) (
          field (codes "missing_words")
            (sequence (sequence_of (map text (missing_words message_type count))))
            (field (codes "data_word_count") (integer (pos count)) end))))

abbrev is_false : Value → Bool
is_false (boolean false) = true
is_false _ = false

abbrev is_zero : Option ℤ → Bool
is_zero none = false
is_zero (some n) = equals_int n (pos 0)

module _ (py : Python) where
  unfoldable pub missing_required_word_alerts : Fields → List ℕ → List Fields
  unfolding projectable_radar_messages projectable_radar_message_types
  missing_required_word_alerts record' data_words =
      let message = as_str py (get (codes "message") record') in
      let message_type = as_str py (get (codes "message_type") record') in
      let count = length data_words in
      if not (contains_text message projectable_radar_messages)
        || not (contains_text message_type projectable_radar_message_types)
      then []
      else alert_if (is_nonempty (missing_words message_type count))
          (missing_word_alert message message_type count)

  module _ (fs : Floats) (n : Numbers fs) where
    abbrev zero_allowed : Option (EcgAlertConfig fs) → Bool
    zero_allowed none = true
    zero_allowed (some config) = config.udp_zero_checksum_allowed

    unfoldable pub checksum_alerts : Fields → Option (EcgAlertConfig fs) → List Fields
    checksum_alerts record' config =
        if is_false (get (codes "udp_checksum_valid") record')
        then make_alert ecg_cd2_003
            (codes
              "UDP checksum is invalid; validate capture/NIC offload path before treating as malicious.")
            (checksum_evidence record' (codes "invalid"))
          ∷ []
        else alert_if
            (is_zero (as_int n.int_of (get (codes "udp_checksum") record'))
              && not (zero_allowed config))
            (make_alert ecg_cd2_003
              (codes
                "UDP checksum is zero while policy expects a nonzero checksum; account for IPv4 zero-checksum and checksum-offload behavior.")
              (checksum_evidence record' (codes "zero_unexpected")))

    -- The tests of `_configured_alerts` on tuples, sites and message types, with their alerts.
    unfoldable pub baseline_alerts : Fields → EcgAlertConfig fs → Text → Text → List Fields
    baseline_alerts record' config message_type site_id =
        let allowed_types =
          of_site (lookup site_id config.allowed_message_types_by_site)
            config.allowed_message_types in
        let expected_channels =
          of_site (lookup site_id config.expected_channels_by_site) config.expected_channels in
        let channel = as_int n.int_of (get (codes "channel") record') in
        alert_if
          (is_nonempty config.allowed_source_tuples
            && not (contains_text (source_tuple_key py record') config.allowed_source_tuples))
          (make_alert ecg_cd2_001
            (codes
              "Source/destination/feed/message tuple is not in the configured ECG/CD2 allowlist.")
            (source_tuple_evidence py record' (codes "miss")))
        ++ alert_if
            (is_nonempty config.allowed_site_artcc_channel_tuples
              && not (
                  contains_text (site_artcc_channel_tuple_key py record')
                    config.allowed_site_artcc_channel_tuples))
            (make_alert ecg_cd2_007
              (codes
                "ARTCC/site/channel/message/source tuple is new or not approved by the configured baseline.")
              (site_tuple_evidence py record' (codes "miss")))
        ++ alert_if
            (config.emit_unknown_site_alerts
              && is_nonempty config.known_sites
              && (equals_text site_id (codes "unknown")
                  || not (contains_text site_id config.known_sites)))
            (make_alert ecg_cd2_007
              (codes "Site identity is not in the configured approved-site baseline.")
              (site_tuple_evidence py record' (codes "known_site_miss")))
        ++ alert_if (is_nonempty allowed_types && not (contains_text message_type allowed_types)) (
            make_alert ecg_cd2_007
              (codes "ECG message type is not allowed by explicit site/feed/message baseline.")
              (put (codes "operator.subtype.detail") (text (codes "unexpected_message_type")) (
                put (codes "allowed_message_types") (sorted_texts allowed_types) (
                  put (codes "message_type") (text message_type)
                    (site_tuple_evidence py record' (codes "message_type_miss"))))))
        ++ alert_if
            (is_nonempty expected_channels
              && is_there channel
              && not (is_listed_int channel expected_channels))
            (make_alert ecg_cd2_007 (codes "Channel is not expected for this site/radar baseline.")
              (put (codes "expected_channels") (sorted_ints expected_channels)
                (site_tuple_evidence py record' (codes "channel_miss"))))

    -- The tests of `_configured_alerts` on addresses and ports, with their alerts.
    unfoldable pub endpoint_alerts : Fields → EcgAlertConfig fs → Text → List Fields
    endpoint_alerts record' config site_id =
        let source_ip = as_str py (get (codes "source_ip") record') in
        let destination_ip = as_str py (get (codes "destination_ip") record') in
        let source_port = as_int n.int_of (get (codes "source_port") record') in
        let destination_port = as_int n.int_of (get (codes "destination_port") record') in
        let allowed_sources_for_site = or_none (lookup site_id config.site_source_ips) in
        alert_if
          (is_nonempty config.authorized_source_ips
            && not (contains_text source_ip config.authorized_source_ips))
          (make_alert ecg_cd2_001
            (codes "Source IP is not in the authorized ECG/CD2 source register.")
            (put (codes "authorized_source_ips") (sorted_texts config.authorized_source_ips)
              (source_tuple_evidence py record' (codes "source_ip_miss"))))
        ++ alert_if
            (is_nonempty config.authorized_destination_ips
              && not (contains_text destination_ip config.authorized_destination_ips))
            (make_alert ecg_cd2_001
              (codes "Destination IP is not in the authorized ECG/CD2 destination register.")
              (put (codes "authorized_destination_ips")
                (sorted_texts config.authorized_destination_ips)
                (source_tuple_evidence py record' (codes "destination_ip_miss"))))
        ++ alert_if
            (is_nonempty allowed_sources_for_site
              && not (contains_text source_ip allowed_sources_for_site))
            (make_alert ecg_cd2_001
              (codes "Site identity was observed from an unexpected ECG/CD2 source IP.")
              (put (codes "allowed_source_ips") (sorted_texts allowed_sources_for_site)
                (source_tuple_evidence py record' (codes "site_source_miss"))))
        ++ alert_if
            (is_nonempty config.allowed_radar_ports
              && not (is_listed_int source_port config.allowed_radar_ports)
              && not (is_listed_int destination_port config.allowed_radar_ports))
            (make_alert ecg_cd2_001
              (codes "Neither source nor destination port is in the allowed ECG/CD2 port register.")
              (put (codes "allowed_radar_ports") (sorted_ints config.allowed_radar_ports)
                (source_tuple_evidence py record' (codes "port_miss"))))

    unfoldable pub configured_alerts : Fields → Option (EcgAlertConfig fs) → List Fields
    configured_alerts record' none = []
    configured_alerts record' (some config) =
        let message_type = as_str py (get (codes "message_type") record') in
        let site_id = as_str py (get (codes "site_id") record') in
        baseline_alerts record' config message_type site_id
        ++ endpoint_alerts record' config site_id
