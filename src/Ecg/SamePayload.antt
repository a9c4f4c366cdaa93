-- ===== src/Ecg/SamePayload.antt =====
-- The checked and the plain extraction of oad_parser/parsers/ecg.py find the same payload, and the
-- validated blocks are those that are extracted.
use oad_parser.Common.{
  ok_injective, ℕ, ◌+◌, ◌≤◌, ◌≡◌, refl, sym, subst, ap, ◌∙◌, arith, Bool, true, false, not, ◌&&◌,
  ◌==◌, ltb, leb, le→leb, ◌-◌, Option, none, some, List, length, Result, ok, >>=-eq-ok,
}
use oad_parser.Common.Int.{pos, sub_ℕ}
use oad_parser.Udp.Frame.{UdpFrame, parse_ipv4_udp_frame}
use oad_parser.Ecg.Block.{read_uint16, finished, NextBlock}
use oad_parser.Ecg.Envelope.{
  Endpoints, Outer, no_endpoints, endpoints_of, looks_like_ecg_payload, udp_or_raw, find_payload,
  has_valid_length, outer_of, envelope_at, extract_from, extract_ecg_messages,
}
use oad_parser.Ecg.Walk.{Walk, blocks_from, stop, cut_header, cut_message, skip, visit}
use oad_parser.Ecg.Total.{outer_of-payload}
use oad_parser.Ecg.Loops.{traverse, extract_loop-Walk, validate_loop-Walk, issue_of}
use oad_parser.Ecg.Checked.{
  PacketMetadata, raw_candidate, resolved, resolve_payload, validate_ecg_message_blocks, equals_ℤ,
  looks_like_ecg_candidate_payload,
}

sub_ℕ_pos : (a b : ℕ) → b ≤ a → sub_ℕ a b ≡ pos (a - b)
sub_ℕ_pos a b h = rw (le→leb b a h) refl

at_least : (total : ℕ) → ltb total 18 ≡ false → 16 ≤ total
at_least total h = ground arith

guards_agree :
    (total claimed : ℕ)
    → ltb total 18 ≡ false
    → not (claimed == total - 16) ≡ false
    → (not (ltb total 18) && (claimed == total - 16)) ≡ true
guards_agree total claimed long same = ground arith

-- The length guard of the checked function is that of the plain one.
pub length_guards-agree :
    (payload : List ℕ)
    → ltb (length payload) 18 ≡ false
    → not (equals_ℤ (read_uint16 payload 0) (sub_ℕ (length payload) 16)) ≡ false
    → has_valid_length payload ≡ true
unfolding has_valid_length
length_guards-agree payload long same = guards_agree (length payload) (read_uint16 payload 0) long (
    subst (λ e. not (equals_ℤ (read_uint16 payload 0) e) ≡ false)
      (sub_ℕ_pos (length payload) 16 (at_least (length payload) long)) same)

finished-Walk :
    (payload : List ℕ) (offset : ℕ) (blocks : List (ℕ × ℕ)) (end : NextBlock)
    → Walk payload offset blocks end
    → issue_of end ≡ none
    → Walk payload offset blocks finished
finished-Walk payload offset blocks end (stop e) h = stop e
finished-Walk payload offset blocks end (cut_header e) h = cc h
finished-Walk payload offset blocks end (cut_message e) h = cc h
finished-Walk payload offset blocks end (skip {blocks = later} e w) h =
    skip e (finished-Walk payload (offset + 1) later end w h)
finished-Walk payload offset blocks end (visit {n = n} {blocks = later} e w) h =
    visit e (finished-Walk payload (offset + 16 + n) later end w h)

pub validated :
    (payload : List ℕ)
    → validate_ecg_message_blocks payload ≡ ok none
    → (blocks : List (ℕ × ℕ)) × Walk payload 16 blocks finished
unfolding validate_ecg_message_blocks
validated payload h =
    let (blocks, end, w) = blocks_from payload (length payload) 16 (omega arith) in
    let e = sym (validate_loop-Walk payload (length payload) 16 w (omega arith)) ∙ h in
    (blocks, finished-Walk payload 16 blocks end w (ok_injective e))

pub extract_from-Walk :
    (payload : List ℕ) (endpoints : Endpoints) (outer : Outer) (blocks : List (ℕ × ℕ))
    → has_valid_length payload ≡ true
    → outer_of payload endpoints ≡ ok outer
    → Walk payload 16 blocks finished
    → extract_from payload endpoints ≡ traverse (envelope_at outer) blocks
unfolding extract_from
extract_from-Walk payload endpoints outer blocks valid h w =
    let same = outer_of-payload payload endpoints outer h in
    rw (valid, h)
      (extract_loop-Walk outer (length payload) 16
        (subst (λ p. Walk p 16 blocks finished) (sym same) w)
        (omega (arith, ap (λ p. length p) same)))

minimum_agrees :
    (total claimed : ℕ)
    → (not (ltb total 18) && (claimed == total - 16)) ≡ true
    → (leb 18 total && (claimed == total - 16)) ≡ true
minimum_agrees total claimed h = ground arith

payload_injective :
    {p q : List ℕ} {m n : PacketMetadata}
    → ◌≡◌ {A = Result (Option (List ℕ) × PacketMetadata)} (ok (some p, m)) (ok (some q, n))
    → p ≡ q
payload_injective h = cc (ap (λ x. x.0) (ok_injective h))

looks_like-valid :
    (payload : List ℕ) → has_valid_length payload ≡ true → looks_like_ecg_payload payload ≡ true
unfolding has_valid_length looks_like_ecg_payload
looks_like-valid payload h = minimum_agrees (length payload) (read_uint16 payload 0) h

raw_found :
    (frame payload : List ℕ) (metadata : PacketMetadata) (candidate : Bool)
    → ok (raw_candidate frame candidate) ≡ ok (some payload, metadata)
    → has_valid_length payload ≡ true
    → udp_or_raw frame none ≡ some (payload, no_endpoints)
raw_found frame payload metadata true h valid =
    let same = payload_injective h in
    rw (looks_like-valid frame (subst (λ p. has_valid_length p ≡ true) (sym same) valid))
      (ap (λ p. some (p, no_endpoints)) same)
raw_found frame payload metadata false h valid = cc (ap (λ x. x.0) (ok_injective h))

same_found :
    (frame payload : List ℕ) (metadata : PacketMetadata) (udp : Option UdpFrame)
    → resolved frame udp ≡ ok (some payload, metadata)
    → has_valid_length payload ≡ true
    → (endpoints : Endpoints) × (udp_or_raw frame udp ≡ some (payload, endpoints))
same_found frame payload metadata (some u) h valid =
    (endpoints_of u, ap (λ p. some (p, endpoints_of u)) (payload_injective h))
same_found frame payload metadata none h valid =
    let (candidate, _, k) = >>=-eq-ok (looks_like_ecg_candidate_payload frame) _ h in
    (no_endpoints, raw_found frame payload metadata candidate k valid)

-- Where the checked function found a payload of valid length, the plain one finds the same.
pub same_payload :
    (frame : List ℕ) (skip_headers : Bool) (payload : List ℕ) (metadata : PacketMetadata)
    → resolve_payload frame skip_headers ≡ ok (some payload, metadata)
    → has_valid_length payload ≡ true
    → (endpoints : Endpoints) × (find_payload frame skip_headers ≡ ok (some (payload, endpoints)))
unfolding resolve_payload find_payload
same_payload frame true payload metadata h valid =
    let (udp, found, k) = >>=-eq-ok (parse_ipv4_udp_frame frame) _ h in
    let (endpoints, e) = same_found frame payload metadata udp k valid in
    (endpoints, rw (found) (ap (λ x. ok x) e))
same_payload frame false payload metadata h valid =
    (no_endpoints, ap (λ p. ok (some (p, no_endpoints))) (payload_injective h))

pub extract-found :
    (frame : List ℕ) (skip_headers : Bool) (payload : List ℕ) (endpoints : Endpoints)
    → find_payload frame skip_headers ≡ ok (some (payload, endpoints))
    → extract_ecg_messages frame skip_headers ≡ extract_from payload endpoints
unfolding extract_ecg_messages
extract-found frame skip_headers payload endpoints h = rw (h) refl
