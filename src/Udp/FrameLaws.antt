-- ===== src/Udp/FrameLaws.antt =====
-- What `parse_ipv4_udp_frame` of oad_parser/ingest/ethernet.py guarantees on every frame.
use oad_parser.Common.{
  ℕ, ◌+◌, ◌*◌, ◌/◌, ◌%◌, ◌≤◌, ◌<◌, ◌≡◌, refl, sym, ap, ◌∙◌, arith, Bool, true, false, not, ◌||◌,
  Option, none, some, List, length, if_intro, if◌then◌else◌, ltb, ◌==◌, Result, ok, >>=-eq-ok,
  ok_injective, byte_at, byte_at_total, slice, length-slice, length-slice_le, from_bytes,
  from_bytes-slice_bound, Returns, Returns-bind, bit_and, All, IsByte,
}
use oad_parser.Common.Bits.{bit_and_mask}
use oad_parser.Udp.Checksum.{validate_ipv4_udp_checksum}
use oad_parser.Udp.PseudoHeader.{validate_ipv4_udp_checksum_lem}
use oad_parser.Udp.Frame.{
  UdpFrame, field_at, lengths_refused, ipv4_fields, ipv4_header, udp_frame, udp_stage, then_udp,
  parse_ipv4_udp_frame,
}

ipv4_fields_total : (frame : List ℕ) → 24 ≤ length frame → Returns (ipv4_fields frame)
unfolding ipv4_fields
ipv4_fields_total frame h =
    Returns-bind (byte_at frame 14) _ (byte_at_total frame 14 (omega arith)) λ first _.
      if_intro Returns (lengths_refused frame first _) _ _ (λ _. (none, refl))
        λ _. Returns-bind (byte_at frame 23) _ (byte_at_total frame 23 (omega arith)) λ protocol _.
          if_intro Returns (not (protocol == 17)) _ _ (λ _. (none, refl)) (λ _. (some _, refl))

ipv4_header_total : (frame : List ℕ) → Returns (ipv4_header frame)
unfolding ipv4_header
ipv4_header_total frame =
    if_intro Returns (ltb (length frame) 42 || _) _ _ (λ _. (none, refl))
      λ e. ipv4_fields_total frame (ground arith)

udp_frame_total :
    (frame : List ℕ) (start total n : ℕ) → n < 65536 → Returns (udp_frame frame start total n)
unfolding udp_frame
udp_frame_total frame start total n h =
    let segment = slice frame start (start + n) in
    let fits : length segment < 65536 = omega (arith, length-slice_le frame start (start + n)) in
    Returns-bind _ _ (_, validate_ipv4_udp_checksum_lem _ _ segment _ fits) (λ _ _. (_, refl))

udp_stage_total :
    (frame : List ℕ) (hl total : ℕ) → All IsByte frame → Returns (udp_stage frame hl total)
unfolding udp_stage
udp_stage_total frame hl total h =
    let start = 14 + hl in
    let n = field_at frame start 4 6 in
    let fits : n < 65536 = from_bytes-slice_bound frame (start + 4) (start + 6) (omega arith) h in
    if_intro Returns (ltb (14 + total) (start + 8)) _ _ (λ _. (none, refl))
      λ _.
        if_intro Returns (ltb n 8) _ _ (λ _. (none, refl))
          λ _.
            if_intro Returns (ltb (14 + total) (start + n)) _ _ (λ _. (none, refl))
              λ _.
                Returns-bind (udp_frame frame start total n) _
                  (udp_frame_total frame start total n fits) λ u _. (some u, refl)

then_udp_total :
    (frame : List ℕ) (header : Option (ℕ × ℕ)) → All IsByte frame → Returns (then_udp frame header)
then_udp_total frame none h = (none, refl)
then_udp_total frame (some (hl, total)) h = udp_stage_total frame hl total h

-- No frame of bytes makes the parser raise: every index that it reads is in range, and the length of
-- the segment that it checks always fits the two bytes of the pseudo-header, where a longer one would
-- raise `OverflowError`.
pub parse_ipv4_udp_frame_total :
    (frame : List ℕ) → All IsByte frame → Returns (parse_ipv4_udp_frame frame)
unfolding parse_ipv4_udp_frame
parse_ipv4_udp_frame_total frame h =
    Returns-bind (ipv4_header frame) _ (ipv4_header_total frame)
      λ header _. then_udp_total frame header h

-- What the IPv4 guards leave: a packet that carries UDP, whose header has the length in words of the
-- first byte's low half, inside a packet of the total length of the header's third and fourth bytes,
-- inside the frame.
pub record HeaderFits (frame : List ℕ) (hl total : ℕ) : Type 0 where
  pub first : ℕ
  pub first_byte : byte_at frame 14 ≡ ok first
  pub version : first / 16 ≡ 4
  pub words : hl ≡ first % 16 * 4
  pub total_field : total ≡ from_bytes (slice frame 16 18)
  pub protocol : byte_at frame 23 ≡ ok 17
  pub at_least : 20 ≤ hl
  pub in_packet : hl ≤ total
  pub in_frame : 14 + total ≤ length frame

lengths_fit :
    (frame : List ℕ) (first total : ℕ)
    → lengths_refused frame first total ≡ false
    → (first / 16 ≡ 4)
      × (bit_and first 0x0f * 4 ≡ first % 16 * 4)
      × (20 ≤ bit_and first 0x0f * 4)
      × (bit_and first 0x0f * 4 ≤ total)
      × (14 + total ≤ length frame)
unfolding lengths_refused
lengths_fit frame first total e = ground (arith, bit_and_mask 4 first)

passed_guard {ℓ} :
    {A : Type ℓ} (refused : Bool) (after : Result (Option A)) (a : A)
    → (if refused then ok none else after) ≡ ok (some a)
    → (refused ≡ false) × (after ≡ ok (some a))
passed_guard true after a e = absurd cc
passed_guard false after a e = (refl, e)

abbrev header_length : Option (ℕ × ℕ) → ℕ
header_length none = 0
header_length (some (hl, total)) = hl

abbrev header_total : Option (ℕ × ℕ) → ℕ
header_total none = 0
header_total (some (hl, total)) = total

same_fields :
    {a b c d : ℕ}
    → (let fields : Result (Option (ℕ × ℕ)) = ok (some (a, b)) in fields ≡ ok (some (c, d)))
    → (c ≡ a) × (d ≡ b)
same_fields e = (sym (ap header_length (ok_injective e)), sym (ap header_total (ok_injective e)))

-- The guards on the first byte and the lengths, and then the protocol test.
ipv4_fields-some :
    (frame : List ℕ) (hl total : ℕ)
    → ipv4_fields frame ≡ ok (some (hl, total))
    → HeaderFits frame hl total
unfolding ipv4_fields
ipv4_fields-some frame hl total e =
    let (first, b, k) = >>=-eq-ok (byte_at frame 14) _ e in
    let (kept, after) = passed_guard (lengths_refused frame first (field_at frame 14 2 4)) _ _ k in
    let (protocol, p, rest) = >>=-eq-ok (byte_at frame 23) _ after in
    let (is_udp, same) = passed_guard (not (protocol == 17)) _ _ rest in
    let (same_hl, same_total) = same_fields same in
    let (version, words, at_least, in_packet, in_frame) =
      lengths_fit frame first (field_at frame 14 2 4) kept in
    record {
      first = first;
      first_byte = b;
      version = version;
      words = same_hl ∙ words;
      total_field = same_total;
      protocol = p ∙ ap ok (ground arith);
      at_least = omega (arith, same_hl);
      in_packet = omega (arith, same_hl, same_total);
      in_frame = omega (arith, same_total);
    }

ipv4_header-some :
    (frame : List ℕ) (hl total : ℕ)
    → ipv4_header frame ≡ ok (some (hl, total))
    → (from_bytes (slice frame 12 14) ≡ 0x0800) × HeaderFits frame hl total
unfolding ipv4_header
ipv4_header-some frame hl total e =
    let (kept, after) = passed_guard (ltb (length frame) 42 || _) _ _ e in
    (ground arith, ipv4_fields-some frame hl total after)

-- The UDP guards: the segment lies behind the header and inside the packet.
udp_stage-some :
    (frame : List ℕ) (hl total : ℕ) (u : UdpFrame)
    → udp_stage frame hl total ≡ ok (some u)
    → let n = field_at frame (14 + hl) 4 6 in
      (udp_frame frame (14 + hl) total n ≡ ok u) × (8 ≤ n) × (hl + n ≤ total)
unfolding udp_stage
udp_stage-some frame hl total u e =
    let n = field_at frame (14 + hl) 4 6 in
    let (a, after) = passed_guard (ltb (14 + total) (14 + hl + 8)) _ _ e in
    let (b, after) = passed_guard (ltb n 8) _ _ after in
    let (c, after) = passed_guard (ltb (14 + total) (14 + hl + n)) _ _ after in
    let (v, k, same) = >>=-eq-ok (udp_frame frame (14 + hl) total n) _ after in
    (k ∙ cc, ground arith, ground arith)

-- Where an accepted frame's payload lies, for a header of `hl` bytes.
pub record PayloadFits (frame : List ℕ) (u : UdpFrame) (hl : ℕ) : Type 0 where
  pub ethertype : from_bytes (slice frame 12 14) ≡ 0x0800
  pub header : HeaderFits frame hl u.total_length
  pub length_field : u.udp_length ≡ from_bytes (slice frame (14 + hl + 4) (14 + hl + 6))
  pub in_packet : hl + u.udp_length ≤ u.total_length
  pub payload : u.payload ≡ slice frame (14 + hl + 8) (14 + hl + u.udp_length)
  pub size : length u.payload + 8 ≡ u.udp_length
  pub counted : (u.udp_payload_length ≡ length u.payload) × (u.network_bytes ≡ length frame)

udp_frame-PayloadFits :
    (frame : List ℕ) (hl total : ℕ) (u : UdpFrame)
    → from_bytes (slice frame 12 14) ≡ 0x0800
    → HeaderFits frame hl total
    → let n = field_at frame (14 + hl) 4 6 in
      udp_frame frame (14 + hl) total n ≡ ok u → 8 ≤ n → hl + n ≤ total → PayloadFits frame u hl
unfolding udp_frame
udp_frame-PayloadFits frame hl total u t fits e h k =
    let n = field_at frame (14 + hl) 4 6 in
    let (valid, _, same) =
      >>=-eq-ok
        (validate_ipv4_udp_checksum (slice frame 26 30) (slice frame 30 34)
          (slice frame (14 + hl) (14 + hl + n)) (field_at frame (14 + hl) 6 8))
        _ e in
    let same_frame = ok_injective same in
    rw (← same_frame) (record {
      ethertype = t;
      header = fits;
      length_field = refl;
      in_packet = k;
      payload = refl;
      size = omega (arith, fits.in_frame, length-slice frame (14 + hl + 8) (14 + hl + n));
      counted = (refl, refl);
    })

-- An accepted frame says that it carries IPv4, version 4 and UDP; its header has the length that the
-- low half of its first byte gives, at least 20 bytes; the total length and the UDP length are the
-- numbers that stand in the two headers; segment, packet and frame contain one another in that order;
-- and the payload is the part of the frame behind the eight bytes of the UDP header, with exactly the
-- length that the UDP length leaves.
pub parse_ipv4_udp_frame-PayloadFits :
    (frame : List ℕ) (u : UdpFrame)
    → parse_ipv4_udp_frame frame ≡ ok (some u)
    → (hl : ℕ) × PayloadFits frame u hl
unfolding parse_ipv4_udp_frame
parse_ipv4_udp_frame-PayloadFits frame u e =
    let (header, b, k) = >>=-eq-ok (ipv4_header frame) _ e in accepted header b k
  where
    accepted :
        (header : Option (ℕ × ℕ))
        → ipv4_header frame ≡ ok header
        → then_udp frame header ≡ ok (some u)
        → (hl : ℕ) × PayloadFits frame u hl
    accepted none b k = absurd cc
    accepted (some (hl, total)) b k =
        let (t, fits) = ipv4_header-some frame hl total b in
        let (e, h, inside) = udp_stage-some frame hl total u k in
        (hl, udp_frame-PayloadFits frame hl total u t fits e h inside)
