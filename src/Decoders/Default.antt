-- ===== src/Decoders/Default.antt =====
-- `build_default_registry` of oad_parser/decoders/registry.py and the entries of
-- oad_parser/decoders/cd2_radar.py. A decoded message is one of the two dictionaries.
use oad_parser.Common.{[], ◌∷◌}
use oad_parser.Common.Text.{Text}
use oad_parser.Decoders.Radar.{Raw12, decode_raw12, BeaconCandidate, decode_beacon_candidate}
use oad_parser.Decoders.Registry.{
  Reply, value, raised, DecoderEntry, DecoderRegistry, register_entry,
}

pub data DecodedMessage : Type 0 where
  raw12 : Raw12 → DecodedMessage
  beacon_candidate : BeaconCandidate → DecodedMessage

-- "raw12"
abbrev pub raw12_decoder_name : Text
raw12_decoder_name = 114 ∷ 97 ∷ 119 ∷ 49 ∷ 50 ∷ []

-- "beacon-candidate"
abbrev pub beacon_candidate_decoder_name : Text
beacon_candidate_decoder_name =
    98 ∷ 101 ∷ 97 ∷ 99 ∷ 111 ∷ 110 ∷ 45 ∷ 99 ∷ 97 ∷ 110 ∷ 100 ∷ 105 ∷ 100 ∷ 97 ∷ 116 ∷ 101 ∷ []

abbrev pub raw12_decoder : Text → DecoderEntry DecodedMessage
raw12_decoder description = record {
  name = raw12_decoder_name;
  description = description;
  decode = λ frame. raw12 (decode_raw12 frame);
}

abbrev pub beacon_candidate_decoder : Text → DecoderEntry DecodedMessage
beacon_candidate_decoder description = record {
  name = beacon_candidate_decoder_name;
  description = description;
  decode = λ frame. beacon_candidate (decode_beacon_candidate frame);
}

abbrev pub then_register :
    DecoderEntry DecodedMessage
    → Reply (DecoderRegistry DecodedMessage)
    → Reply (DecoderRegistry DecodedMessage)
then_register entry (value registry) = register_entry DecodedMessage entry registry
then_register entry (raised error) = raised error

-- The two registrations, with the entries' descriptions.
unfoldable pub build_default_registry : Text → Text → Reply (DecoderRegistry DecodedMessage)
build_default_registry raw_text beacon_text =
    then_register (beacon_candidate_decoder beacon_text)
      (then_register (raw12_decoder raw_text) (value []))
