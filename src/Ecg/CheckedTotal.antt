-- ===== src/Ecg/CheckedTotal.antt =====
-- `extract_ecg_messages_with_errors` of oad_parser/parsers/ecg.py: it returns on every frame of bytes, and what a
-- result without an error says of the payload.
use oad_parser.Common.{
  ℕ, ◌≤◌, ◌≡◌, refl, arith, Bool, false, not, ◌||◌, ◌==◌, ltb, List, length, if_intro, Returns,
  Returns-bind, byte_at, byte_at_total, slice,
}
use oad_parser.Ecg.Block.{read_uint16}
use oad_parser.Ecg.Checked.{looks_like_ecg_candidate_payload, all_artcc}

long_outer : (total : ℕ) (a b c : Bool) → (ltb total 9 || a || b || c) ≡ false → 9 ≤ total
long_outer total a b c h = ground arith

pub looks_like-Returns : (bytes : List ℕ) → Returns (looks_like_ecg_candidate_payload bytes)
unfolding looks_like_ecg_candidate_payload
looks_like-Returns bytes =
    let artcc = slice bytes 4 7 in
    if_intro Returns
      (ltb (length bytes) 9
        || ltb (read_uint16 bytes 0) 1
        || not (length artcc == 3)
        || not (all_artcc artcc))
      _ _ (λ _. (_, refl))
      λ h.
        Returns-bind (byte_at bytes 8) _ (byte_at_total bytes 8 (long_outer (length bytes) _ _ _ h))
          λ message _. (not (message == 0), refl)
