-- ===== src/Cd2/Stream.antt =====
-- The bit stream of oad_parser/parsers/cd2.py: bytes to bits, bits to 13-bit words, and packing.
-- A generator is the list of what it yields; an exception inside it reaches its consumer.
use oad_parser.Common.{
  ℕ, zero, suc, ◌+◌, ◌-◌, ◌*◌, ◌/◌, ◌^◌, bit_and, bit_or, true, false, some, List, [], ◌∷◌, ◌++◌,
  ◌==◌, length, take, drop, replicate,
}
use oad_parser.Common.{Result, ok, ◌>>=◌}
use oad_parser.Common.Int.{ℤ, pos}
use oad_parser.Cd2.Spec.{bits_per_byte, cd2_word_bits, Cd2LinkConfig}
use oad_parser.Cd2.Word.{Cd2Word, normalize_13_bit_word, decode_wire_word}

-- `for shift in range(width - 1, -1, -1): (value >> shift) & 0x1`
unfoldable pub msb_bits : ℕ → ℕ → List ℕ
msb_bits zero value = []
msb_bits (suc shift) value = bit_and (value / 2 ^ shift) 0x1 ∷ msb_bits shift value

unfoldable pub iter_msb_bits : List ℕ → List ℕ
unfolding msb_bits
iter_msb_bits [] = []
iter_msb_bits (byte ∷ bytes) = msb_bits bits_per_byte byte ++ iter_msb_bits bytes

abbrev pub at_offset : Cd2Word → ℕ → Cd2Word
at_offset word offset = record word {
  bit_offset = some offset;
  byte_offset = some (offset / bits_per_byte);
}

-- The loop of `iter_13_bit_words_from_bytes` over the bits, with its four variables.
unfoldable pub word_loop : Cd2LinkConfig → ℕ → ℕ → ℕ → ℕ → List ℕ → Result (List Cd2Word)
unfolding decode_wire_word
word_loop config value bits_collected word_index bit_offset [] = ok []
word_loop config value bits_collected word_index bit_offset (bit ∷ bits) =
    elim (bits_collected + 1 == cd2_word_bits) [
      | true ↦ do
        word ← decode_wire_word (pos (bit_or (value * 2) bit)) word_index config
        rest ← word_loop config 0 0 (word_index + 1) (bit_offset + cd2_word_bits) bits
        ok (at_offset word bit_offset ∷ rest)
      | false ↦
          word_loop config (bit_or (value * 2) bit) (bits_collected + 1) word_index bit_offset bits
    ]

unfoldable pub iter_13_bit_words_from_bytes : List ℕ → Cd2LinkConfig → Result (List Cd2Word)
unfolding iter_msb_bits word_loop
iter_13_bit_words_from_bytes bytes config = word_loop config 0 0 0 0 (iter_msb_bits bytes)

-- The first loop of `pack_13_bit_words_to_bytes`.
unfoldable pub packed_bits : List ℤ → Result (List ℕ)
unfolding normalize_13_bit_word msb_bits
packed_bits [] = ok []
packed_bits (value ∷ values) = do
  raw ← normalize_13_bit_word value
  rest ← packed_bits values
  ok (msb_bits cd2_word_bits raw ++ rest)

-- `for bit in chunk: byte = (byte << 1) | bit`
unfoldable pub byte_of_bits : ℕ → List ℕ → ℕ
byte_of_bits byte [] = byte
byte_of_bits byte (bit ∷ chunk) = byte_of_bits (bit_or (byte * 2) bit) chunk

-- `while len(chunk) < BITS_PER_BYTE: chunk.append(0)`
abbrev pub padded : List ℕ → List ℕ
padded chunk = chunk ++ replicate (bits_per_byte - length chunk) 0

-- `while bits:`, each round taking eight bits off; the number of bits bounds the rounds.
unfoldable pub pack_loop : ℕ → List ℕ → List ℕ
unfolding byte_of_bits
pack_loop fuel [] = []
pack_loop zero (bit ∷ bits) = []
pack_loop (suc fuel) (bit ∷ bits) =
    byte_of_bits 0 (padded (take bits_per_byte (bit ∷ bits)))
    ∷ pack_loop fuel (drop bits_per_byte (bit ∷ bits))

unfoldable pub pack_13_bit_words_to_bytes : List ℤ → Result (List ℕ)
unfolding packed_bits pack_loop
pack_13_bit_words_to_bytes values = do bits ← packed_bits values; ok (pack_loop (length bits) bits)
