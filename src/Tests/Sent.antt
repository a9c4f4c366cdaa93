-- ===== src/Tests/Sent.antt =====
-- A payload of two messages, for oad_parser/parsers/ecg.py.
use oad_parser.Common.{ℕ, ◌≡◌, refl, arith, false, [], ◌∷◌, map, replicate, ok}
use oad_parser.Ecg.Envelope.{Outer, no_endpoints, outer_of, extract_ecg_messages}
use oad_parser.Ecg.Sent.{SentMessage, IsSendable, sent_envelope}
use oad_parser.Ecg.RoundTrip.{sent_payload, extract_ecg_messages-sent_payload}

-- A message with an odd number of bytes.
abbrev message : ℕ → SentMessage
message sequence = record {
  reserved_2 = 0;
  reserved_3 = 0;
  site = 65 ∷ 66 ∷ 67 ∷ 0 ∷ [];
  code = 1;
  sequence = sequence;
  channel_byte = 0x20;
  reserved_11 = 0;
  radar_time = 0 ∷ 0 ∷ 0 ∷ 2 ∷ [];
  body = 6 ∷ 0x40 ∷ 0 ∷ 0x10 ∷ 9 ∷ [];
}

abbrev message-IsSendable : (sequence : ℕ) → IsSendable (message sequence)
message-IsSendable sequence = record {
  site = refl;
  radar_time = refl;
  nonempty = omega arith;
  short = omega arith;
}

extract_ecg_messages-sent_payload_example :
    (outer : Outer) × (outer_of
        (sent_payload (replicate 14 1) (message 7 ∷ message 8 ∷ []))
        no_endpoints
      ≡ ok outer)
    × (extract_ecg_messages (sent_payload (replicate 14 1) (message 7 ∷ message 8 ∷ [])) false
        ≡ ok (map (sent_envelope outer) (message 7 ∷ message 8 ∷ [])))
extract_ecg_messages-sent_payload_example =
    extract_ecg_messages-sent_payload (replicate 14 1) (message 7) (message 8 ∷ []) refl
      (message-IsSendable 7, (message-IsSendable 8, tt))
