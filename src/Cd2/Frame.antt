-- ===== src/Cd2/Frame.antt =====
-- Idle-word framing of oad_parser/parsers/cd2.py. The loop's variables are the record `Framer`;
-- an error text keeps the number that the source formats into it.
use oad_parser.Common.{
  ℕ, ◌+◌, bit_or, Bool, true, false, not, ◌||◌, Option, none, some, List, [], ◌∷◌, ◌++◌, map, ◌==◌,
  ltb, length, if◌then◌else◌,
}
use oad_parser.Common.{Result, ok, ◌>>=◌}
use oad_parser.Common.Int.{ℤ, pos, sub_ℕ}
use oad_parser.Cd2.Spec.{Cd2LinkConfig, cd2_extended_error_parity, cd2_extended_error_eom}
use oad_parser.Cd2.Word.{Cd2Word, decode_wire_word}
use oad_parser.Cd2.Stream.{iter_13_bit_words_from_bytes}

-- `parity_error i` is "parity error at word i"; `eom_error n` is "EOM error: frame exceeded n
-- CD2 data words".
pub data FrameError : Type 0 where
  parity_error eom_error : ℕ → FrameError

pub record Cd2Frame : Type 0 where
  pub words : List Cd2Word
  pub start_word_index : ℕ
  pub end_word_index : ℤ
  pub extended_error_status : ℕ
  pub errors : List FrameError

abbrev pub is_empty {ℓ} : {A : Type ℓ} → List A → Bool
is_empty [] = true
is_empty (x ∷ xs) = false

unfoldable pub has_errors : Cd2Frame → Bool
has_errors frame = not (frame.extended_error_status == 0) || not (is_empty frame.errors)

unfoldable pub data_words : Cd2Frame → List ℕ
data_words frame = map (λ (w : Cd2Word). w.data_bits) frame.words

pub record Framer : Type 0 where
  pub frames : List Cd2Frame
  pub current : List Cd2Word
  pub synced : Bool
  pub frame_start : ℕ
  pub errors : List FrameError
  pub status : ℕ

abbrev pub framer_start : Framer
framer_start = record {
  frames = [];
  current = [];
  synced = false;
  frame_start = 0;
  errors = [];
  status = 0;
}

-- `frames.append(Cd2Frame(...))`, and the reset of `current`, `errors` and `status`.
unfoldable pub close_frame : Framer → ℤ → Framer
close_frame s end_index = record s {
  frames =
      s.frames
      ++ (record {
        words = s.current;
        start_word_index = s.frame_start;
        end_word_index = end_index;
        extended_error_status = s.status;
        errors = s.errors;
      }
          ∷ []);
  current = [];
  errors = [];
  status = 0;
}

unfoldable pub on_idle : Framer → Cd2Word → Framer
on_idle s word =
    if is_empty s.current
    then record s { synced = true }
    else close_frame (record s { synced = true }) (sub_ℕ word.index 1)

abbrev pub is_false : Option Bool → Bool
is_false none = false
is_false (some b) = not b

unfoldable pub note_parity : Framer → Cd2Word → Framer
note_parity s word =
    if is_false word.parity_valid
    then record s {
      status = bit_or s.status cd2_extended_error_parity;
      errors = s.errors ++ (parity_error word.index ∷ []);
    }
    else s

unfoldable pub mark_start : Framer → Cd2Word → Framer
mark_start s word = if is_empty s.current then record s { frame_start = word.index } else s

unfoldable pub check_size : Cd2LinkConfig → Framer → Cd2Word → Framer
check_size config s word =
    if ltb config.receive_frame_size_words (length s.current)
    then record (close_frame
        (record s {
          status = bit_or s.status cd2_extended_error_eom;
          errors = s.errors ++ (eom_error config.receive_frame_size_words ∷ []);
        })
        (pos word.index)) { synced = false }
    else s

abbrev pub add_word : Framer → Cd2Word → Framer
add_word s word = record s { current = s.current ++ (word ∷ []) }

unfoldable pub on_data : Cd2LinkConfig → Framer → Cd2Word → Framer
on_data config s word =
    if s.synced
    then check_size config (add_word (note_parity (mark_start s word) word) word) word
    else s

-- One round of the loop of `frame_words`.
unfoldable pub frame_step : Cd2LinkConfig → Framer → Cd2Word → Framer
frame_step config s word = if word.is_idle then on_idle s word else on_data config s word

unfoldable pub frame_loop : Cd2LinkConfig → Framer → List Cd2Word → Framer
frame_loop config s [] = s
frame_loop config s (word ∷ words) = frame_loop config (frame_step config s word) words

-- What is left in `current` at the end of the words is dropped.
unfoldable pub frame_words : Cd2LinkConfig → List Cd2Word → List Cd2Frame
frame_words config words = (frame_loop config framer_start words).frames

-- `decode_wire_word(value, index) for index, value in enumerate(values)`
unfoldable pub decode_from : Cd2LinkConfig → ℕ → List ℤ → Result (List Cd2Word)
decode_from config index [] = ok []
decode_from config index (value ∷ values) = do
  word ← decode_wire_word value index config
  rest ← decode_from config (index + 1) values
  ok (word ∷ rest)

unfoldable pub frame_13_bit_values : List ℤ → Cd2LinkConfig → Result (List Cd2Frame)
frame_13_bit_values values config = do
  words ← decode_from config 0 values
  ok (frame_words config words)

unfoldable pub frame_byte_stream : List ℕ → Cd2LinkConfig → Result (List Cd2Frame)
frame_byte_stream bytes config = do
  words ← iter_13_bit_words_from_bytes bytes config
  ok (frame_words config words)
