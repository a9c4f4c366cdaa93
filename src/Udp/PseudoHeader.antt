-- ===== src/Udp/PseudoHeader.antt =====
-- The UDP checksum over IPv4 as the standard states it, for `validate_ipv4_udp_checksum` of
-- oad_parser/ingest/ethernet.py: the bytes that it covers, and what it says of a segment.
use oad_parser.Common.{
  ℕ, ◌/◌, ◌%◌, ◌<◌, ◌≡◌, refl, arith, Bool, Option, none, some, List, [], ◌∷◌, ◌++◌, ◌==◌, length,
  if◌then◌else◌, Bool-cases, inl, inr, ok,
}
use oad_parser.Udp.Checksum.{
  internet_checksum, to_bytes_two, pseudo_header, validate_ipv4_udp_checksum,
}

-- A number of 16 bits, the high byte first.
abbrev pub two_bytes : ℕ → List ℕ
two_bytes n = n / 256 ∷ n % 256 ∷ []

-- The addresses, a zero, the number 17 of UDP, and the length of the segment.
abbrev pub header_bytes : List ℕ → List ℕ → ℕ → List ℕ
header_bytes source destination size = source ++ (destination ++ (0 ∷ 17 ∷ two_bytes size))

-- A zero field says that there is no checksum.
abbrev pub verdict : List ℕ → List ℕ → List ℕ → ℕ → Option Bool
verdict source destination segment checksum =
    if checksum == 0
    then none
    else some (internet_checksum (header_bytes source destination (length segment) ++ segment) == 0)

to_bytes_two_lem : (n : ℕ) → n < 65536 → to_bytes_two n ≡ ok (two_bytes n)
unfolding to_bytes_two
to_bytes_two_lem n h = ground arith

pseudo_header_lem :
    (source destination segment : List ℕ)
    → length segment < 65536
    → pseudo_header source destination segment
      ≡ ok (header_bytes source destination (length segment))
unfolding pseudo_header
pseudo_header_lem source destination segment h = rw (to_bytes_two_lem (length segment) h) refl

pub validate_ipv4_udp_checksum_lem :
    (source destination segment : List ℕ) (checksum : ℕ)
    → length segment < 65536
    → validate_ipv4_udp_checksum source destination segment checksum
      ≡ ok (verdict source destination segment checksum)
unfolding validate_ipv4_udp_checksum
validate_ipv4_udp_checksum_lem source destination segment checksum h =
    elim (Bool-cases (checksum == 0)) [
      | inl e ↦ rw e refl
      | inr e ↦ rw (e, pseudo_header_lem source destination segment h) refl
    ]
