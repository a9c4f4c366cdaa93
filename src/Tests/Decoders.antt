-- ===== src/Tests/Decoders.antt =====
-- Registrations and words, for oad_parser/decoders.
use oad_parser.Common.{◌≡◌, refl, false, [], ◌∷◌}
use oad_parser.Common.Text.{digits_of}
use oad_parser.Common.Dict.{lookup, insert}
use oad_parser.Ecg.Plot.{altitude_of}
use oad_parser.Decoders.Radar.{
  framed_12bit_cd2_words, candidate_altitude, decode_beacon_candidate_words, format_data_word_hex,
  hex_codes,
}
use oad_parser.Decoders.Registry.{
  value, raised, already_registered, DecoderRegistry, is_some_entry, is_blank, register_entry,
  get_entry, names, leb_text,
}
use oad_parser.Decoders.Default.{
  DecodedMessage, raw12_decoder, beacon_candidate_decoder, beacon_candidate_decoder_name,
  raw12_decoder_name, build_default_registry,
}
use oad_parser.Decoders.Lookups.{register_entry-lookup}
use oad_parser.Decoders.Legacy.{
  ListsAbsent, candidate_altitude-altitude_of, decode_beacon_candidate_words-absent,
}

abbrev one_entry : DecoderRegistry DecodedMessage
one_entry = (raw12_decoder_name, raw12_decoder []) ∷ []

abbrev two_entries : DecoderRegistry DecodedMessage
two_entries = insert beacon_candidate_decoder_name (beacon_candidate_decoder []) one_entry

format_data_word_hex-test : format_data_word_hex 0x0ab ≡ (48 ∷ 120 ∷ 48 ∷ 97 ∷ 98 ∷ [])
unfolding format_data_word_hex hex_codes digits_of
format_data_word_hex-test = refl

build_default_registry-test : build_default_registry [] [] ≡ value two_entries
unfolding build_default_registry register_entry
build_default_registry-test = refl

names-test :
    names DecodedMessage two_entries ≡ beacon_candidate_decoder_name ∷ raw12_decoder_name ∷ []
unfolding names leb_text
names-test = refl

registered :
    register_entry DecodedMessage (beacon_candidate_decoder []) one_entry ≡ value two_entries
unfolding register_entry
registered = refl

register_entry-lookup_example :
    (is_blank DecodedMessage beacon_candidate_decoder_name ≡ false)
    × (is_some_entry DecodedMessage (lookup beacon_candidate_decoder_name one_entry) ≡ false)
    × (get_entry DecodedMessage beacon_candidate_decoder_name two_entries
        ≡ value (beacon_candidate_decoder []))
    × (register_entry DecodedMessage (beacon_candidate_decoder []) two_entries
        ≡ raised (already_registered beacon_candidate_decoder_name))
    × (lookup raw12_decoder_name two_entries ≡ lookup raw12_decoder_name one_entry)
register_entry-lookup_example =
    register_entry-lookup DecodedMessage (beacon_candidate_decoder []) one_entry two_entries
      raw12_decoder_name registered refl

candidate_altitude-altitude_of_example : candidate_altitude 0x0823 ≡ altitude_of 0x0823
candidate_altitude-altitude_of_example = candidate_altitude-altitude_of 0x0823

decode_beacon_candidate_words-absent_example :
    ListsAbsent (decode_beacon_candidate_words (1 ∷ 2 ∷ 3 ∷ []) 0 [] framed_12bit_cd2_words)
decode_beacon_candidate_words-absent_example =
    decode_beacon_candidate_words-absent (1 ∷ 2 ∷ 3 ∷ []) 0 [] framed_12bit_cd2_words
