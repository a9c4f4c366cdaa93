-- ===== src/Ecg/Walk.antt =====
-- The blocks that the three loops of oad_parser/parsers/ecg.py visit, as a relation with no fuel.
use oad_parser.Common.{ℕ, zero, suc, ◌+◌, ◌≤◌, ◌<◌, ◌≡◌, refl, arith, List, [], ◌∷◌, length}
use oad_parser.Ecg.Block.{
  read_uint16, NextBlock, finished, header_overrun, payload_overrun, skipped, block, next_block,
}

-- From `offset` the loops visit `blocks`, each an offset and a message length, and end with `end`.
pub data Walk (payload : List ℕ) : ℕ → List (ℕ × ℕ) → NextBlock → Type 0 where
  stop : {offset : ℕ} → next_block payload offset ≡ finished → Walk payload offset [] finished
  cut_header :
      {offset : ℕ}
      → next_block payload offset ≡ header_overrun
      → Walk payload offset [] header_overrun
  cut_message :
      {offset : ℕ}
      → next_block payload offset ≡ payload_overrun
      → Walk payload offset [] payload_overrun
  skip :
      {offset : ℕ} {blocks : List (ℕ × ℕ)} {end : NextBlock}
      → next_block payload offset ≡ skipped
      → Walk payload (offset + 1) blocks end
      → Walk payload offset blocks end
  visit :
      {offset : ℕ} {n : ℕ} {blocks : List (ℕ × ℕ)} {end : NextBlock}
      → next_block payload offset ≡ block n
      → Walk payload (offset + 16 + n) blocks end
      → Walk payload offset ((offset, n) ∷ blocks) end

-- The guards as facts.
pub next_block-finished :
    (payload : List ℕ) (offset : ℕ) → length payload ≤ offset → next_block payload offset ≡ finished
unfolding next_block
next_block-finished payload offset h = ground arith

pub next_block-skipped :
    (payload : List ℕ) (offset : ℕ)
    → next_block payload offset ≡ skipped
    → offset + 16 ≤ length payload
unfolding next_block
next_block-skipped payload offset e = ground arith

pub next_block-block :
    (payload : List ℕ) (offset n : ℕ)
    → next_block payload offset ≡ block n
    → (offset + 16 + n ≤ length payload) × (0 < n) × (read_uint16 payload offset ≡ n)
unfolding next_block
next_block-block payload offset n e = ground arith

-- One round of the walk, from what it finds and a way to walk on.
round_from :
    (payload : List ℕ) (fuel offset : ℕ)
    → length payload ≤ offset + suc fuel
    → ((later : ℕ)
        → length payload ≤ later + fuel
        → (blocks : List (ℕ × ℕ)) × (end : NextBlock) × Walk payload later blocks end)
    → (r : NextBlock) → next_block payload offset ≡ r
    → (blocks : List (ℕ × ℕ)) × (end : NextBlock) × Walk payload offset blocks end
round_from payload fuel offset h on finished e = ([], finished, stop e)
round_from payload fuel offset h on header_overrun e = ([], header_overrun, cut_header e)
round_from payload fuel offset h on payload_overrun e = ([], payload_overrun, cut_message e)
round_from payload fuel offset h on skipped e =
    let (blocks, end, w) = on (offset + 1) (omega arith) in (blocks, end, skip e w)
round_from payload fuel offset h on (block n) e =
    let (blocks, end, w) = on (offset + 16 + n) (omega arith) in
    ((offset, n) ∷ blocks, end, visit e w)

-- Every offset has a walk.
pub blocks_from :
    (payload : List ℕ) (fuel offset : ℕ)
    → length payload ≤ offset + fuel
    → (blocks : List (ℕ × ℕ)) × (end : NextBlock) × Walk payload offset blocks end
blocks_from payload zero offset h =
    ([], finished, stop (next_block-finished payload offset (omega arith)))
blocks_from payload (suc fuel) offset h =
    round_from payload fuel offset h (blocks_from payload fuel) (next_block payload offset) refl

pub out_of_fuel :
    (payload : List ℕ) (offset : ℕ) {blocks : List (ℕ × ℕ)} {end : NextBlock}
    → Walk payload offset blocks end
    → length payload ≤ offset + 0
    → (blocks ≡ []) × (end ≡ finished)
out_of_fuel payload offset (stop e) h = (refl, refl)
out_of_fuel payload offset (cut_header e) h = cc (next_block-finished payload offset (omega arith))
out_of_fuel payload offset (cut_message e) h = cc (next_block-finished payload offset (omega arith))
out_of_fuel payload offset (skip e w) h = cc (next_block-finished payload offset (omega arith))
out_of_fuel payload offset (visit e w) h = cc (next_block-finished payload offset (omega arith))

-- Blocks that lie in the payload from `offset` on, in order and apart, each with a message.
abbrev pub AreLaidOut : List ℕ → ℕ → List (ℕ × ℕ) → Type 0
AreLaidOut payload offset [] = Unit
AreLaidOut payload offset ((start, n) ∷ blocks) =
    (offset ≤ start)
    × ((start + 16 + n ≤ length payload)
        × ((0 < n)
            × ((read_uint16 payload start ≡ n) × AreLaidOut payload (start + 16 + n) blocks)))

later-AreLaidOut :
    (payload : List ℕ) (offset later : ℕ) (blocks : List (ℕ × ℕ))
    → offset ≤ later
    → AreLaidOut payload later blocks
    → AreLaidOut payload offset blocks
later-AreLaidOut payload offset later [] h a = tt
later-AreLaidOut payload offset later ((start, n) ∷ blocks) h (a, r) = (omega arith, r)

pub Walk-AreLaidOut :
    (payload : List ℕ) (offset : ℕ) {blocks : List (ℕ × ℕ)} {end : NextBlock}
    → Walk payload offset blocks end
    → AreLaidOut payload offset blocks
Walk-AreLaidOut payload offset (stop e) = tt
Walk-AreLaidOut payload offset (cut_header e) = tt
Walk-AreLaidOut payload offset (cut_message e) = tt
Walk-AreLaidOut payload offset (skip {blocks = blocks} e w) =
    later-AreLaidOut payload offset (offset + 1) blocks (omega arith)
      (Walk-AreLaidOut payload (offset + 1) w)
Walk-AreLaidOut payload offset (visit {n = n} e w) =
    let (fits, positive, read) = next_block-block payload offset n e in
    (omega arith, (fits, (positive, (read, Walk-AreLaidOut payload (offset + 16 + n) w))))
