-- ===== src/Tests/Cd2.antt =====
-- Words, a stream of two messages and a packed stream, for oad_parser/parsers/cd2.py.
use oad_parser.Common.{
  ℕ, ◌≡◌, refl, arith, true, false, none, some, List, [], ◌∷◌, ◌++◌, map, All, ok,
}
use oad_parser.Common.Int.{pos}
use oad_parser.Cd2.Spec.{Cd2LinkConfig, default_link_config}
use oad_parser.Cd2.Word.{Cd2Word, decode_wire_word}
use oad_parser.Cd2.Stream.{pack_13_bit_words_to_bytes, iter_13_bit_words_from_bytes}
use oad_parser.Cd2.Frame.{frame_words}
use oad_parser.Cd2.Decode.{decoded, decode_wire_word_lem}
use oad_parser.Cd2.RoundTrip.{stream_words, iter_words-pack}
use oad_parser.Cd2.Report.{IsSound}
use oad_parser.Cd2.FrameSound.{frame_words-IsSound}
use oad_parser.Cd2.FrameComplete.{Delimited, delimited_words, message_frame, frame_words-delimited}

abbrev data_word : ℕ → Cd2Word
data_word i = record {
  raw = 6;
  index = i;
  data_bits = 3;
  parity_bit = some 0;
  parity_valid = some false;
  is_idle = false;
  bit_offset = none;
  byte_offset = none;
}

abbrev idle_word : ℕ → Cd2Word
idle_word i = record {
  raw = 0x3ff;
  index = i;
  data_bits = 0x1ff;
  parity_bit = some 1;
  parity_valid = none;
  is_idle = true;
  bit_offset = none;
  byte_offset = none;
}

abbrev messages : List Delimited
messages = (data_word 2 ∷ data_word 3 ∷ [], idle_word 4) ∷ (data_word 5 ∷ [], idle_word 6) ∷ []

frame_words-delimited_example :
    frame_words default_link_config (data_word 0 ∷ [] ++ (idle_word 1 ∷ delimited_words messages))
    ≡ map message_frame messages
frame_words-delimited_example =
    frame_words-delimited default_link_config (data_word 0 ∷ []) (idle_word 1) messages (refl, tt)
      refl
      ((refl, (refl, (refl, tt)), omega arith, refl), ((refl, (refl, tt), omega arith, refl), tt))

-- Frames of at most one word.
abbrev short_config : Cd2LinkConfig
short_config = record default_link_config { receive_frame_size_words = 1 }

abbrev stream : List Cd2Word
stream = idle_word 0 ∷ data_word 1 ∷ data_word 2 ∷ data_word 3 ∷ idle_word 4 ∷ []

frame_words-IsSound_example : All (IsSound short_config) (frame_words short_config stream)
frame_words-IsSound_example = frame_words-IsSound short_config stream

iter_words-pack_example :
    (bytes : List ℕ) × (pack_13_bit_words_to_bytes (map pos (0x3ff ∷ 6 ∷ 0x1fff ∷ [])) ≡ ok bytes)
    × (iter_13_bit_words_from_bytes bytes default_link_config
        ≡ ok (stream_words default_link_config 0 0 (0x3ff ∷ 6 ∷ 0x1fff ∷ [])))
iter_words-pack_example =
    iter_words-pack default_link_config (0x3ff ∷ 6 ∷ 0x1fff ∷ []) refl
      (omega arith, (omega arith, (omega arith, tt)))

decode_wire_word_lem_example :
    decode_wire_word (pos 0x0abc) 7 default_link_config ≡ ok (decoded default_link_config 0x0abc 7)
decode_wire_word_lem_example = decode_wire_word_lem default_link_config 0x0abc 7 refl (omega arith)
