-- ===== src/Udp/ChecksumSender.antt =====
-- A UDP datagram whose checksum field was filled in by the sender's rule is accepted by
-- oad_parser/ingest/ethernet.py.
use oad_parser.Common.{
  refl, ok, ◌-◌, ℕ, ◌+◌, ◌%◌, ◌<◌, ◌≡◌, sym, ap, ◌∙◌, arith, true, false, some, List, [], ◌∷◌, ◌++◌,
  append_assoc, ◌==◌, All, All-append, length, length-append, IsByte,
}
use oad_parser.Udp.Checksum.{internet_checksum, validate_ipv4_udp_checksum}
use oad_parser.Udp.PseudoHeader.{two_bytes, header_bytes, verdict, validate_ipv4_udp_checksum_lem}
use oad_parser.Udp.ChecksumLaws.{word_sum, internet_checksum-eq_zero}

word_sum-append :
    (front back : List ℕ)
    → length front % 2 ≡ 0
    → word_sum (front ++ back) ≡ word_sum front + word_sum back
unfolding word_sum
word_sum-append [] back e = omega arith
word_sum-append (x ∷ []) back e = absurd (omega arith)
word_sum-append (x ∷ y ∷ front) back e = omega (arith, word_sum-append front back (omega arith))

-- The two bytes of a field among other bytes.
abbrev with_field : List ℕ → ℕ → List ℕ → List ℕ
with_field front field back = front ++ (two_bytes field ++ back)

word_sum-with_field :
    (front : List ℕ) (field : ℕ) (back : List ℕ)
    → length front % 2 ≡ 0
    → word_sum (with_field front field back) ≡ word_sum front + (field + word_sum back)
word_sum-with_field front field back e =
    word_sum-append front (two_bytes field ++ back) e ∙ unfold word_sum in omega arith

with_field-IsByte :
    (front : List ℕ) (field : ℕ) (back : List ℕ)
    → All IsByte front
    → field < 65536
    → All IsByte back
    → All IsByte (with_field front field back)
with_field-IsByte front field back hf h hb =
    All-append IsByte front (two_bytes field ++ back) hf (omega arith, (omega arith, hb))

-- What a sender stores: the one's complement of the sum of the words, in 1 to 65535.
abbrev pub sent_checksum : List ℕ → ℕ
sent_checksum bytes = 65535 - word_sum bytes % 65535

sent_bounds :
    (bytes : List ℕ)
    → (0 < sent_checksum bytes)
      × (sent_checksum bytes < 65536)
      × (0 < word_sum bytes + sent_checksum bytes)
      × ((word_sum bytes + sent_checksum bytes) % 65535 ≡ 0)
sent_bounds bytes = omega arith

-- Filling the field of an even offset makes the checksum of the whole zero.
filled_checks :
    (front back : List ℕ)
    → length front % 2 ≡ 0
    → All IsByte front
    → All IsByte back
    → internet_checksum (with_field front (sent_checksum (with_field front 0 back)) back) ≡ 0
filled_checks front back e hf hb =
    let zeroed = with_field front 0 back in
    let field : ℕ = sent_checksum zeroed in
    let bounds = sent_bounds zeroed in
    let before = word_sum-with_field front 0 back e in
    let after = word_sum-with_field front field back e in
    (internet_checksum-eq_zero (with_field front field back)
        (with_field-IsByte front field back hf bounds.1 hb)).1
      (omega (arith, before, after, bounds.2), omega (arith, before, after, bounds.3))

module _ (source destination head payload : List ℕ) where
  abbrev pub segment : ℕ → List ℕ
  segment field = with_field head field payload

  -- The bytes that the checksum covers, with this checksum field.
  abbrev covered : ℕ → List ℕ
  covered field =
      header_bytes source destination (length head + (2 + length payload)) ++ segment field

  -- The checksum that a sender computes over the segment with a zero checksum field.
  unfoldable pub segment_checksum : ℕ
  segment_checksum = sent_checksum (covered 0)

  length-segment : (field : ℕ) → length (segment field) ≡ length head + (2 + length payload)
  length-segment field = length-append head (two_bytes field ++ payload) ∙ omega arith

  abbrev before_field : List ℕ
  before_field = header_bytes source destination (length head + (2 + length payload)) ++ head

  covered_lem : (field : ℕ) → covered field ≡ with_field before_field field payload
  covered_lem field = sym (
      append_assoc (header_bytes source destination (length head + (2 + length payload))) head
        (two_bytes field ++ payload))

  verdict-true :
      (field : ℕ)
      → 0 < field
      → internet_checksum (covered field) ≡ 0
      → verdict source destination (segment field) field ≡ some true
  verdict-true field h e =
      let p : (field == 0) ≡ false = ground arith in rw p (rw (length-segment field) (rw e refl))

  before_field-even :
      length source ≡ 4
      → length destination ≡ 4
      → length head ≡ 6
      → (size : ℕ) → length (header_bytes source destination size ++ head) % 2 ≡ 0
  before_field-even hs hd hh size = omega (
    arith,
    length-append (header_bytes source destination size) head,
    length-append source (destination ++ (0 ∷ 17 ∷ two_bytes size)),
    length-append destination (0 ∷ 17 ∷ two_bytes size),
  )

  before_field-IsByte :
      (size : ℕ)
      → size < 65536
      → All IsByte source
      → All IsByte destination
      → All IsByte head
      → All IsByte (header_bytes source destination size ++ head)
  before_field-IsByte size h bs bd bh =
      All-append IsByte (header_bytes source destination size) head
        (All-append IsByte source _ bs (All-append IsByte destination _ bd (omega arith))) bh

  -- A segment that carries the sender's checksum is found valid: for addresses of four bytes, the
  -- six bytes of ports and length, any payload that a UDP length can count, and all of them bytes. The
  -- sender adds up the words of the addresses, the protocol number 17, the length and the segment with a
  -- zero checksum field, and stores the complement of the sum modulo 65535.
  pub validate-sent :
      length source ≡ 4
      → length destination ≡ 4
      → length head ≡ 6
      → 8 + length payload < 65536
      → All IsByte source
      → All IsByte destination
      → All IsByte head
      → All IsByte payload
      → validate_ipv4_udp_checksum source destination (segment segment_checksum) segment_checksum
        ≡ ok (some true)
  unfolding segment_checksum
  validate-sent hs hd hh size bs bd bh bp =
      let field : ℕ = sent_checksum (with_field before_field 0 payload) in
      let same : segment_checksum ≡ field = ap sent_checksum (covered_lem 0) in
      let bounds = sent_bounds (with_field before_field 0 payload) in
      rw same (
        validate_ipv4_udp_checksum_lem source destination (segment field) field
          (omega (arith, length-segment field))
        ∙ ap ok (
            verdict-true field bounds.0 (
              ap internet_checksum (covered_lem field)
              ∙ filled_checks before_field payload (before_field-even hs hd hh _)
                  (before_field-IsByte (length head + (2 + length payload)) (omega arith) bs bd bh)
                  bp)))
