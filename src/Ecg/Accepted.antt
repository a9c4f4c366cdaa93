-- ===== src/Ecg/Accepted.antt =====
-- What a result of `extract_ecg_messages_with_errors` of oad_parser/parsers/ecg.py says of the
-- payload it is about.
use oad_parser.Common.{ℕ, ◌≡◌, true, some, List, ok, byte_at}
use oad_parser.Ecg.Block.{finished}
use oad_parser.Ecg.Envelope.{Endpoints, Outer, has_valid_length, outer_of, envelope_at}
use oad_parser.Ecg.Walk.{Walk}
use oad_parser.Ecg.Loops.{traverse}
use oad_parser.Ecg.Checked.{EcgEnvelopeParseResult}

-- An accepted payload: its length field, its outer message and its blocks are as they should be, and
-- the envelopes are those of the blocks that cover it.
abbrev pub IsAccepted : EcgEnvelopeParseResult → Type 0
IsAccepted r =
    (payload : List ℕ) × (endpoints : Endpoints) × (outer : Outer) × (blocks : List (ℕ × ℕ))
    × (r.payload ≡ some payload)
    × (has_valid_length payload ≡ true)
    × (byte_at payload 8 ≡ ok 1)
    × (outer_of payload endpoints ≡ ok outer)
    × Walk payload 16 blocks finished
    × (traverse (envelope_at outer) blocks ≡ ok r.envelopes)
