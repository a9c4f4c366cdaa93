-- ===== src/Udp/Checksum.antt =====
-- `_internet_checksum` and `validate_ipv4_udp_checksum` of oad_parser/ingest/ethernet.py.
use oad_parser.Common.{
  ℕ, zero, suc, ◌+◌, ◌/◌, ◌%◌, ◌^◌, bit_and, bit_xor, Bool, true, false, Option, none, some, List,
  [], ◌∷◌, ◌++◌, ◌==◌, ltb, length, from_bytes, if◌then◌else◌, Result, ok, err, overflow_error,
  ◌>>=◌,
}
use oad_parser.Udp.Layout.{ip_protocol_udp}

-- `(total & 0xFFFF) + (total >> 16)`
unfoldable pub fold_carry : ℕ → ℕ
fold_carry total = bit_and total 0xffff + total / 2 ^ 16

-- `for index in range(0, len(data), 2)`, over data of even length.
unfoldable pub sum_loop : ℕ → List ℕ → ℕ
sum_loop total [] = total
sum_loop total (high ∷ []) = fold_carry (total + from_bytes (high ∷ []))
sum_loop total (high ∷ low ∷ rest) =
    sum_loop (fold_carry (total + from_bytes (high ∷ low ∷ []))) rest

-- `while total >> 16:`, with a bound on the rounds.
unfoldable pub fold_loop : ℕ → ℕ → ℕ
fold_loop zero total = total
fold_loop (suc fuel) total = elim (total / 2 ^ 16 == 0) [
  | true ↦ total
  | false ↦ fold_loop fuel (fold_carry total)
]

-- `if len(data) % 2: data += b"\x00"`
unfoldable pub even_bytes : List ℕ → List ℕ
even_bytes bytes = if length bytes % 2 == 0 then bytes else bytes ++ (0 ∷ [])

-- `(~total) & 0xFFFF` flips the low sixteen bits.
unfoldable pub internet_checksum : List ℕ → ℕ
internet_checksum bytes =
    let total = sum_loop 0 (even_bytes bytes) in
    bit_xor (bit_and (fold_loop total total) 0xffff) 0xffff

-- `n.to_bytes(2, "big")`, which raises if the number does not fit.
unfoldable pub to_bytes_two : ℕ → Result (List ℕ)
to_bytes_two n = if ltb n 65536 then ok (n / 256 ∷ n % 256 ∷ []) else err overflow_error

unfoldable pub pseudo_header : List ℕ → List ℕ → List ℕ → Result (List ℕ)
pseudo_header source_ip destination_ip udp_segment = do
  size ← to_bytes_two (length udp_segment)
  ok (source_ip ++ (destination_ip ++ (0 ∷ ip_protocol_udp ∷ [] ++ size)))

unfoldable pub validate_ipv4_udp_checksum : List ℕ → List ℕ → List ℕ → ℕ → Result (Option Bool)
validate_ipv4_udp_checksum source_ip destination_ip udp_segment checksum =
    if checksum == 0 then ok none else do
      header ← pseudo_header source_ip destination_ip udp_segment
      ok (some (internet_checksum (header ++ udp_segment) == 0))
