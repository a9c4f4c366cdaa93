-- ===== src/Live/Writer/Fields.antt =====
-- The field tables of oad_parser/live/writer.py.
use oad_parser.Common.{List, [], ◌∷◌, ◌++◌}
use oad_parser.Common.Text.{Text, codes}

unfoldable pub siem_event_fields_before_alerts : List Text
siem_event_fields_before_alerts =
    codes "@timestamp"
    ∷ codes "event.created"
    ∷ codes "record_type"
    ∷ codes "event.dataset"
    ∷ codes "data_stream.type"
    ∷ codes "data_stream.dataset"
    ∷ codes "service.name"
    ∷ codes "observer.ingress.interface"
    ∷ codes "source.ip"
    ∷ codes "destination.ip"
    ∷ codes "source.port"
    ∷ codes "destination.port"
    ∷ codes "udp.payload.length"
    ∷ codes "udp.checksum.valid"
    ∷ codes "udp.checksum.value_hex"
    ∷ codes "ecg.frame.length_valid"
    ∷ codes "ecg.artcc"
    ∷ codes "ecg.outer_message.code"
    ∷ codes "ecg.outer_message.name"
    ∷ codes "cd2.site.id"
    ∷ codes "cd2.message.code"
    ∷ codes "cd2.message.name"
    ∷ codes "cd2.message.description"
    ∷ codes "cd2.sequence"
    ∷ codes "cd2.channel"
    ∷ codes "cd2.channel_raw_byte"
    ∷ codes "ecg.router.timestamp_sec"
    ∷ codes "cd2.radar.timestamp_sec"
    ∷ codes "radar.subtypes"
    ∷ codes "radar.range_nm"
    ∷ codes "radar.acp"
    ∷ codes "radar.azimuth_degrees"
    ∷ codes "radar.mode_3_code"
    ∷ codes "radar.altitude_feet"
    ∷ codes "hash.payload.sha256"
    ∷ codes "hash.message.sha256"
    ∷ codes "ecg.fingerprint"
    ∷ codes "parser.validation.accepted"
    ∷ codes "parser.validation.drop_reason"
    ∷ codes "parser.validation.warnings"
    ∷ codes "security.sequence.delta"
    ∷ codes "parser.analysis.mode"
    ∷ codes "parser.duplicate.key"
    ∷ codes "parser.duplicate.count"
    ∷ codes "parser.duplicate.suppressed"
    ∷ []

unfoldable pub siem_event_fields : List Text
unfolding siem_event_fields_before_alerts
siem_event_fields = siem_event_fields_before_alerts ++ (codes "alerts" ∷ [])

unfoldable pub siem_debug_only_event_fields : List Text
siem_debug_only_event_fields =
    codes "network.bytes"
    ∷ codes "udp.length"
    ∷ codes "ecg.frame.length.claimed"
    ∷ codes "ecg.frame.length.expected"
    ∷ []

unfoldable pub siem_accounting_event_fields : List Text
siem_accounting_event_fields =
    codes "parser.accounting.output.records_seen"
    ∷ codes "parser.accounting.output.records_emitted"
    ∷ codes "parser.accounting.suppressed.duplicates"
    ∷ codes "parser.accounting.suppressed.sampled_normals"
    ∷ codes "parser.accounting.suppressed.parse_warnings"
    ∷ codes "parser.accounting.suppressed.modec_altitude_missing"
    ∷ codes "parser.accounting.duplicate.unique_keys_seen"
    ∷ codes "parser.accounting.duplicate.keys_with_duplicates"
    ∷ codes "parser.accounting.duplicate.max_key_count"
    ∷ []

unfoldable pub siem_accounting_snapshot_only_fields : List Text
siem_accounting_snapshot_only_fields =
    codes "parser.accounting.snapshot.reason"
    ∷ codes "parser.accounting.duplicate.observations"
    ∷ codes "parser.accounting.duplicate.last_key"
    ∷ codes "parser.accounting.duplicate.last_key.count"
    ∷ []

unfoldable pub siem_record_contract_fields : List Text
unfolding siem_accounting_snapshot_only_fields
siem_record_contract_fields =
    codes "record_type"
    ∷ codes "event.kind"
    ∷ codes "event.category"
    ∷ codes "event.action"
    ∷ siem_accounting_snapshot_only_fields

unfoldable pub siem_full_event_fields : List Text
unfolding siem_event_fields_before_alerts siem_debug_only_event_fields siem_accounting_event_fields
siem_full_event_fields =
    siem_event_fields_before_alerts
    ++ (siem_debug_only_event_fields ++ (siem_accounting_event_fields ++ (codes "alerts" ∷ [])))

unfoldable pub siem_optional_event_fields : List Text
siem_optional_event_fields =
    codes "event.sample.rate" ∷ codes "data_stream.type" ∷ codes "data_stream.dataset" ∷ []

unfoldable pub siem_default_disabled_event_fields : List Text
siem_default_disabled_event_fields = codes "data_stream.type" ∷ codes "data_stream.dataset" ∷ []

unfoldable pub siem_known_policy_fields : List Text
unfolding siem_full_event_fields siem_record_contract_fields
siem_known_policy_fields = siem_full_event_fields ++ siem_record_contract_fields

unfoldable pub siem_field_renames : List (Text × Text)
siem_field_renames =
    (codes "interface", codes "observer.ingress.interface")
    ∷ (codes "source_ip", codes "source.ip")
    ∷ (codes "destination_ip", codes "destination.ip")
    ∷ (codes "source_port", codes "source.port")
    ∷ (codes "destination_port", codes "destination.port")
    ∷ (codes "network_bytes", codes "network.bytes")
    ∷ (codes "ip_total_length", codes "network.bytes")
    ∷ (codes "udp_length", codes "udp.length")
    ∷ (codes "udp_payload_length", codes "udp.payload.length")
    ∷ (codes "udp_checksum_valid", codes "udp.checksum.valid")
    ∷ (codes "udp_checksum_hex", codes "udp.checksum.value_hex")
    ∷ (codes "ecg_frame_length_claimed", codes "ecg.frame.length.claimed")
    ∷ (codes "ecg_frame_length_expected", codes "ecg.frame.length.expected")
    ∷ (codes "ecg_frame_length_valid", codes "ecg.frame.length_valid")
    ∷ (codes "artcc", codes "ecg.artcc")
    ∷ (codes "ecg_message", codes "ecg.outer_message.code")
    ∷ (codes "outer_message_name", codes "ecg.outer_message.name")
    ∷ (codes "site_id", codes "cd2.site.id")
    ∷ (codes "message_code", codes "cd2.message.code")
    ∷ (codes "message", codes "cd2.message.name")
    ∷ (codes "sequence", codes "cd2.sequence")
    ∷ (codes "channel", codes "cd2.channel")
    ∷ (codes "channel_raw_byte", codes "cd2.channel_raw_byte")
    ∷ (codes "router_timestamp", codes "ecg.router.timestamp_sec")
    ∷ (codes "radar_timestamp", codes "cd2.radar.timestamp_sec")
    ∷ (codes "radar_subtypes", codes "radar.subtypes")
    ∷ (codes "range_nm", codes "radar.range_nm")
    ∷ (codes "acp", codes "radar.acp")
    ∷ (codes "azimuth_degrees", codes "radar.azimuth_degrees")
    ∷ (codes "mode_3_code", codes "radar.mode_3_code")
    ∷ (codes "altitude_feet", codes "radar.altitude_feet")
    ∷ (codes "sha256_ecg_payload", codes "hash.payload.sha256")
    ∷ (codes "hash_payload_sha256", codes "hash.payload.sha256")
    ∷ (codes "hash_message_sha256", codes "hash.message.sha256")
    ∷ (codes "fingerprint", codes "ecg.fingerprint")
    ∷ (codes "parser_validation_accepted", codes "parser.validation.accepted")
    ∷ (codes "parser_validation_drop_reason", codes "parser.validation.drop_reason")
    ∷ (codes "parser_validation_warnings", codes "parser.validation.warnings")
    ∷ (codes "parse_warnings", codes "parser.validation.warnings")
    ∷ (codes "sequence_delta", codes "security.sequence.delta")
    ∷ []
