-- ===== src/Ecg/RoundTrip.antt =====
-- A payload built from an outer header and messages is taken apart into these messages by
-- `extract_ecg_messages` of oad_parser/parsers/ecg.py.
use oad_parser.Common.{
  ℕ, ◌+◌, ◌/◌, ◌%◌, ◌≤◌, ◌≡◌, refl, sym, subst, ap, ◌∙◌, arith, true, false, List, [], ◌∷◌, ◌++◌,
  append_assoc, append-nil, map, All, length, length-append, from_bytes_two, ok,
}
use oad_parser.Ecg.Block.{finished, read_uint16}
use oad_parser.Ecg.Envelope.{
  no_endpoints, Outer, envelope_at, has_valid_length, outer_of, extract_from, find_payload,
  extract_ecg_messages,
}
use oad_parser.Ecg.Walk.{Walk, stop, visit, next_block-finished}
use oad_parser.Ecg.Loops.{traverse}
use oad_parser.Ecg.Total.{outer_of-payload, outer_of-Returns, length_of-valid}
use oad_parser.Ecg.SamePayload.{extract_from-Walk}
use oad_parser.Ecg.Sent.{
  SentMessage, IsSendable, after_site, block_bytes, blocks_bytes, sent_envelope, length-block_bytes,
  next_block-sent, envelope_at-sent,
}

-- Where the blocks lie.
abbrev positions : ℕ → List SentMessage → List (ℕ × ℕ)
positions offset [] = []
positions offset (m ∷ ms) = (offset, length m.body) ∷ positions (offset + 16 + length m.body) ms

block_bytes-append :
    (m : SentMessage) (rest : List ℕ) → block_bytes m rest ≡ block_bytes m [] ++ rest
block_bytes-append m rest =
    let tail : m.radar_time ++ (m.body ++ rest) ≡ m.radar_time ++ (m.body ++ []) ++ rest = sym (
      append_assoc m.radar_time (m.body ++ []) rest
      ∙ ap (λ b. m.radar_time ++ (b ++ rest)) (append-nil m.body)) in
    ap
      (λ t.
        length m.body / 256
        ∷ length m.body % 256
        ∷ m.reserved_2
        ∷ m.reserved_3
        ∷ (m.site ++ (m.code ∷ m.sequence ∷ m.channel_byte ∷ m.reserved_11 ∷ t)))
      tail
    ∙ ap (λ t. length m.body / 256 ∷ length m.body % 256 ∷ m.reserved_2 ∷ m.reserved_3 ∷ t)
        (sym (append_assoc m.site (after_site m []) rest))

-- The front with one more block.
abbrev longer : List ℕ → SentMessage → List ℕ
longer front m = front ++ block_bytes m []

same_bytes :
    (front : List ℕ) (m : SentMessage) (rest : List ℕ)
    → longer front m ++ rest ≡ front ++ block_bytes m rest
same_bytes front m rest =
    append_assoc front (block_bytes m []) rest
    ∙ ap (λ b. front ++ b) (sym (block_bytes-append m rest))

length-longer :
    (front : List ℕ) (m : SentMessage)
    → IsSendable m
    → length (longer front m) ≡ length front + 16 + length m.body
length-longer front m s =
    omega (arith, length-append front (block_bytes m []), length-block_bytes m [] s)

blocks_over :
    (front : List ℕ) (ms : List SentMessage)
    → All IsSendable ms
    → Walk (front ++ blocks_bytes ms) (length front) (positions (length front) ms) finished
blocks_over front [] s = stop (
    next_block-finished (front ++ []) (length front)
      (omega (arith, length-append {A = ℕ} front [])))
blocks_over front (m ∷ ms) (s, ss) =
    let later = blocks_over (longer front m) ms ss in
    visit (next_block-sent front m (blocks_bytes ms) s) (
      subst
        (λ p.
          Walk p (length front + 16 + length m.body)
            (positions (length front + 16 + length m.body) ms) finished)
        (same_bytes front m (blocks_bytes ms))
        (subst (λ o. Walk (longer front m ++ blocks_bytes ms) o (positions o ms) finished)
          (length-longer front m s) later))

traverse_over :
    (outer : Outer) (front : List ℕ) (ms : List SentMessage)
    → All IsSendable ms
    → outer.payload ≡ front ++ blocks_bytes ms
    → traverse (envelope_at outer) (positions (length front) ms) ≡ ok (map (sent_envelope outer) ms)
unfolding traverse
traverse_over outer front [] s same = refl
traverse_over outer front (m ∷ ms) (s, ss) same =
    let ih =
      traverse_over outer (longer front m) ms ss
        (same ∙ sym (same_bytes front m (blocks_bytes ms))) in
    let rest =
      subst (λ o. traverse (envelope_at outer) (positions o ms) ≡ ok (map (sent_envelope outer) ms))
        (length-longer front m s) ih in
    rw (envelope_at-sent front m (blocks_bytes ms) s outer same, rest) refl

-- The outer header counts the bytes of the blocks; `header` is its other fourteen bytes.
abbrev pub sent_header : List ℕ → List SentMessage → List ℕ
sent_header header ms = length (blocks_bytes ms) / 256 ∷ length (blocks_bytes ms) % 256 ∷ header

abbrev pub sent_payload : List ℕ → List SentMessage → List ℕ
sent_payload header ms = sent_header header ms ++ blocks_bytes ms

valid_when :
    (payload : List ℕ) (n : ℕ)
    → read_uint16 payload 0 ≡ n
    → length payload ≡ 16 + n
    → 2 ≤ n
    → has_valid_length payload ≡ true
unfolding has_valid_length
valid_when payload n read total enough = ground arith

valid_length :
    (header : List ℕ) (ms : List SentMessage)
    → length header ≡ 14
    → 2 ≤ length (blocks_bytes ms)
    → has_valid_length (sent_payload header ms) ≡ true
valid_length header ms h k =
    valid_when (sent_payload header ms) (length (blocks_bytes ms))
      (from_bytes_two (length (blocks_bytes ms) / 256) (length (blocks_bytes ms) % 256)
        ∙ omega arith)
      (omega (arith, h, length-append header (blocks_bytes ms))) k

enough_bytes :
    (m : SentMessage) (ms : List SentMessage) → IsSendable m → 2 ≤ length (blocks_bytes (m ∷ ms))
enough_bytes m ms s = omega (arith, length-block_bytes m (blocks_bytes ms) s)

extract_sent :
    (payload : List ℕ) → extract_ecg_messages payload false ≡ extract_from payload no_endpoints
unfolding extract_ecg_messages find_payload
extract_sent payload = refl

-- A payload of an outer header with the right length and at least one message, each with a body of 1 to
-- 65535 bytes, gives exactly one envelope for each message, in order, with its codes, times, text, body
-- and data words, whatever the messages are.
pub extract_ecg_messages-sent_payload :
    (header : List ℕ) (m : SentMessage) (ms : List SentMessage)
    → length header ≡ 14
    → All IsSendable (m ∷ ms)
    → (outer : Outer) × (outer_of (sent_payload header (m ∷ ms)) no_endpoints ≡ ok outer)
      × (extract_ecg_messages (sent_payload header (m ∷ ms)) false
          ≡ ok (map (sent_envelope outer) (m ∷ ms)))
extract_ecg_messages-sent_payload header m ms h (s, ss) =
    let payload = sent_payload header (m ∷ ms) in
    let front = sent_header header (m ∷ ms) in
    let valid = valid_length header (m ∷ ms) h (enough_bytes m ms s) in
    let (outer, opened) = outer_of-Returns payload no_endpoints (length_of-valid payload valid) in
    let start : length front ≡ 16 = omega (arith, h) in
    let w =
      subst (λ o. Walk payload o (positions o (m ∷ ms)) finished) start
        (blocks_over front (m ∷ ms) (s, ss)) in
    let read =
      subst
        (λ o.
          traverse (envelope_at outer) (positions o (m ∷ ms))
          ≡ ok (map (sent_envelope outer) (m ∷ ms)))
        start
        (traverse_over outer front (m ∷ ms) (s, ss)
          (outer_of-payload payload no_endpoints outer opened)) in
    (
      outer,
      opened,
      extract_sent payload
          ∙ extract_from-Walk payload no_endpoints outer (positions 16 (m ∷ ms)) valid opened w
          ∙ read,
    )
