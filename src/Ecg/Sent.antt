-- ===== src/Ecg/Sent.antt =====
-- ECG payloads built from messages, against `extract_ecg_messages` of oad_parser/parsers/ecg.py.
use oad_parser.Common.{
  ℕ, suc, ◌+◌, ◌-◌, ◌/◌, ◌%◌, ◌≤◌, ◌<◌, ◌≡◌, refl, sym, subst, ap, ap₂, ◌∙◌, arith, false, ◌||◌,
  ◌==◌, ltb, List, [], ◌∷◌, ◌++◌, length, length-append, take, drop, take_front, drop_past, byte_at,
  byte_at_past, slice, from_bytes, from_bytes_two, ok,
}
use oad_parser.Ecg.Decode.{decode_text, strip_trailing_null}
use oad_parser.Ecg.Block.{
  read_uint16, block, next_block, Flags, no_flags, flags_of, classify_message, message_type_of,
  message_name,
}
use oad_parser.Ecg.Envelope.{EcgMessageEnvelope, Outer, channel_of, data_words_from, envelope_at}

-- A message as it is sent: the bytes of its header, and its body.
pub record SentMessage : Type 0 where
  pub reserved_2 : ℕ
  pub reserved_3 : ℕ
  pub site : List ℕ
  pub code : ℕ
  pub sequence : ℕ
  pub channel_byte : ℕ
  pub reserved_11 : ℕ
  pub radar_time : List ℕ
  pub body : List ℕ

pub record IsSendable (m : SentMessage) : Type 0 where
  pub site : length m.site ≡ 4
  pub radar_time : length m.radar_time ≡ 4
  pub nonempty : 0 < length m.body
  pub short : length m.body < 65536

abbrev pub after_site : SentMessage → List ℕ → List ℕ
after_site m rest =
    m.code ∷ m.sequence ∷ m.channel_byte ∷ m.reserved_11 ∷ (m.radar_time ++ (m.body ++ rest))

abbrev pub block_bytes : SentMessage → List ℕ → List ℕ
block_bytes m rest =
    length m.body / 256
    ∷ length m.body % 256
    ∷ m.reserved_2
    ∷ m.reserved_3
    ∷ (m.site ++ after_site m rest)

abbrev pub blocks_bytes : List SentMessage → List ℕ
blocks_bytes [] = []
blocks_bytes (m ∷ ms) = block_bytes m (blocks_bytes ms)

slice_past :
    (xs ys : List ℕ) (n a b : ℕ) → length xs ≡ n → slice (xs ++ ys) (n + a) (n + b) ≡ slice ys a b
slice_past xs ys n a b h =
    let width : n + b - (n + a) ≡ b - a = omega arith in rw (width, drop_past xs ys n a h) refl

pub length-block_bytes :
    (m : SentMessage) (rest : List ℕ)
    → IsSendable m
    → length (block_bytes m rest) ≡ 16 + length m.body + length rest
length-block_bytes m rest s = omega (
  arith,
  s.site,
  s.radar_time,
  length-append m.site (after_site m rest),
  length-append m.radar_time (m.body ++ rest),
  length-append m.body rest,
)

next_block-when :
    (payload : List ℕ) (offset n : ℕ)
    → read_uint16 payload offset ≡ n
    → 0 < n
    → offset + 16 + n ≤ length payload
    → next_block payload offset ≡ block n
unfolding next_block
next_block-when payload offset n read positive fits = ground arith

-- The flags of a body, from its first word.
abbrev pub sent_flags : List ℕ → Flags
sent_flags [] = no_flags
sent_flags (a ∷ []) = no_flags
sent_flags (a ∷ b ∷ bs) = flags_of (from_bytes (a ∷ b ∷ [])) a b (length (a ∷ b ∷ bs) / 2)

some_words :
    (n start total : ℕ)
    → start + suc (suc n) ≤ total
    → (suc (suc n) / 2 == 0 || ltb total (start + 2)) ≡ false
some_words n start total h = ground arith

pub classify_message-body :
    (payload body rest : List ℕ) (start : ℕ)
    → byte_at payload start ≡ byte_at (body ++ rest) 0
    → byte_at payload (start + 1) ≡ byte_at (body ++ rest) 1
    → read_uint16 payload start ≡ from_bytes (take 2 (body ++ rest))
    → start + length body ≤ length payload
    → classify_message payload start (length body / 2) ≡ ok (sent_flags body)
unfolding classify_message
classify_message-body payload [] rest start first second word fits = refl
classify_message-body payload (a ∷ []) rest start first second word fits = refl
classify_message-body payload (a ∷ b ∷ bs) rest start first second word fits =
    rw (some_words (length bs) start (length payload) fits, first, second, word) refl

-- The envelope of a message.
abbrev pub sent_envelope : Outer → SentMessage → EcgMessageEnvelope
sent_envelope outer m = record {
  artcc = outer.artcc;
  site_id = strip_trailing_null (decode_text m.site);
  ecg_message = outer.ecg_message;
  message_code = m.code;
  message_name = message_name m.code;
  sequence = m.sequence;
  channel = channel_of m.channel_byte;
  router_timestamp = outer.router_timestamp;
  radar_timestamp = from_bytes m.radar_time;
  message_data_length = length m.body;
  message_payload = m.body;
  data_words = data_words_from m.body (length m.body / 2) 0;
  message_type = message_type_of (sent_flags m.body);
  flags = sent_flags m.body;
  channel_raw_byte = m.channel_byte;
  endpoints = outer.endpoints;
}

-- What the payload holds at the block's fields.
abbrev IsReadAt : List ℕ → ℕ → SentMessage → Type 0
IsReadAt bytes offset m =
    (classify_message bytes (offset + 16) (length m.body / 2) ≡ ok (sent_flags m.body))
    × (byte_at bytes (offset + 8) ≡ ok m.code)
    × (byte_at bytes (offset + 9) ≡ ok m.sequence)
    × (byte_at bytes (offset + 10) ≡ ok m.channel_byte)
    × (slice bytes (offset + 4) (offset + 8) ≡ m.site)
    × (slice bytes (offset + 12) (offset + 16) ≡ m.radar_time)
    × (slice bytes (offset + 16) (offset + 16 + length m.body) ≡ m.body)

envelope_at-read :
    (outer : Outer) (offset : ℕ) (m : SentMessage)
    → IsReadAt outer.payload offset m
    → envelope_at outer offset (length m.body) ≡ ok (sent_envelope outer m)
unfolding envelope_at
envelope_at-read outer offset m (flags, code, sequence, channel, site, radar, body) =
    rw (flags, code, sequence, channel, site, radar, body) refl

module _ (front : List ℕ) (m : SentMessage) (rest : List ℕ) (s : IsSendable m) where
  abbrev payload : List ℕ
  payload = front ++ block_bytes m rest

  abbrev start : ℕ
  start = length front

  length_at : read_uint16 payload start ≡ length m.body
  length_at =
      let here : start ≡ start + 0 = omega arith in
      ap (λ o. from_bytes (slice payload o (start + 2))) here
      ∙ ap (λ b. from_bytes b) (slice_past front (block_bytes m rest) start 0 2 refl)
      ∙ from_bytes_two (length m.body / 256) (length m.body % 256)
      ∙ omega arith

  total : length payload ≡ start + (16 + length m.body + length rest)
  total = omega (arith, length-append front (block_bytes m rest), length-block_bytes m rest s)

  pub next_block-sent : next_block payload start ≡ block (length m.body)
  next_block-sent =
      next_block-when payload start (length m.body) length_at s.nonempty (omega (arith, total))

  code_at : byte_at payload (start + 8) ≡ ok m.code
  code_at =
      byte_at_past front (block_bytes m rest) start 8 refl
      ∙ byte_at_past m.site (after_site m rest) 4 0 s.site

  sequence_at : byte_at payload (start + 9) ≡ ok m.sequence
  sequence_at =
      byte_at_past front (block_bytes m rest) start 9 refl
      ∙ byte_at_past m.site (after_site m rest) 4 1 s.site

  channel_at : byte_at payload (start + 10) ≡ ok m.channel_byte
  channel_at =
      byte_at_past front (block_bytes m rest) start 10 refl
      ∙ byte_at_past m.site (after_site m rest) 4 2 s.site

  site_at : slice payload (start + 4) (start + 8) ≡ m.site
  site_at =
      slice_past front (block_bytes m rest) start 4 8 refl
      ∙ take_front m.site (after_site m rest) 4 s.site

  radar_at : slice payload (start + 12) (start + 16) ≡ m.radar_time
  radar_at =
      slice_past front (block_bytes m rest) start 12 16 refl
      ∙ ap (λ ys. take 4 ys) (drop_past m.site (after_site m rest) 4 4 s.site)
      ∙ take_front m.radar_time (m.body ++ rest) 4 s.radar_time

  behind : drop 16 (block_bytes m rest) ≡ m.body ++ rest
  behind =
      drop_past m.site (after_site m rest) 4 8 s.site
      ∙ drop_past m.radar_time (m.body ++ rest) 4 0 s.radar_time

  body_at : drop (start + 16) payload ≡ m.body ++ rest
  body_at = drop_past front (block_bytes m rest) start 16 refl ∙ behind

  message_at : slice payload (start + 16) (start + 16 + length m.body) ≡ m.body
  message_at =
      let width : start + 16 + length m.body - (start + 16) ≡ length m.body = omega arith in
      ap₂ (λ k ys. take k ys) width body_at ∙ take_front m.body rest (length m.body) refl

  first_at : byte_at payload (start + 16) ≡ byte_at (m.body ++ rest) 0
  first_at =
      byte_at_past front (block_bytes m rest) start 16 refl
      ∙ byte_at_past m.site (after_site m rest) 4 8 s.site
      ∙ byte_at_past m.radar_time (m.body ++ rest) 4 0 s.radar_time

  second_at : byte_at payload (start + 16 + 1) ≡ byte_at (m.body ++ rest) 1
  second_at =
      let place : start + 16 + 1 ≡ start + 17 = omega arith in
      ap (λ i. byte_at payload i) place
      ∙ byte_at_past front (block_bytes m rest) start 17 refl
      ∙ byte_at_past m.site (after_site m rest) 4 9 s.site
      ∙ byte_at_past m.radar_time (m.body ++ rest) 4 1 s.radar_time

  word_at : read_uint16 payload (start + 16) ≡ from_bytes (take 2 (m.body ++ rest))
  word_at =
      let width : start + 16 + 2 - (start + 16) ≡ 2 = omega arith in
      ap₂ (λ k ys. from_bytes (take k ys)) width body_at

  classified : classify_message payload (start + 16) (length m.body / 2) ≡ ok (sent_flags m.body)
  classified =
      classify_message-body payload m.body rest (start + 16) first_at second_at word_at
        (omega (arith, total))

  read_at : IsReadAt payload start m
  read_at = (classified, code_at, sequence_at, channel_at, site_at, radar_at, message_at)

  -- The block is read back.
  pub envelope_at-sent :
      (outer : Outer)
      → outer.payload ≡ payload
      → envelope_at outer start (length m.body) ≡ ok (sent_envelope outer m)
  envelope_at-sent outer same =
      envelope_at-read outer start m (subst (λ p. IsReadAt p start m) (sym same) read_at)
