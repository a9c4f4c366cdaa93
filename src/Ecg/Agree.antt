-- ===== src/Ecg/Agree.antt =====
-- The three loops of oad_parser/parsers/ecg.py repeat the same guards: they visit the same blocks.
use oad_parser.Common.{ℕ, ◌+◌, ◌≤◌, ◌≡◌, List, length, ok, ◌>>=◌}
use oad_parser.Common.Text.{Text}
use oad_parser.Ecg.Block.{NextBlock}
use oad_parser.Ecg.Envelope.{Outer, envelope_at, extract_loop}
use oad_parser.Ecg.Plot.{Capture, plot_at, parse_loop}
use oad_parser.Ecg.Checked.{validate_loop}
use oad_parser.Ecg.Walk.{Walk, AreLaidOut, blocks_from, Walk-AreLaidOut}
use oad_parser.Ecg.Loops.{
  traverse, cat_some, issue_of, extract_loop-Walk, parse_loop-Walk, validate_loop-Walk,
}

-- For any payload, offset and enough fuel there is one sequence of blocks that the three loops of the
-- ECG parser visit, in the payload, in order, apart and of positive length: the envelopes are those
-- of the blocks up to the first that raises, the plots are those of the same blocks, and the
-- validation reports exactly how the walk over them ended.
pub loops_agree :
    (sha256 : List ℕ → Text) (now : Text) (capture : Capture) (outer : Outer) (fuel offset : ℕ)
    → length outer.payload ≤ offset + fuel
    → (blocks : List (ℕ × ℕ)) × (end : NextBlock) × Walk outer.payload offset blocks end
      × AreLaidOut outer.payload offset blocks
      × (extract_loop outer fuel offset ≡ traverse (envelope_at outer) blocks)
      × (parse_loop sha256 now capture outer fuel offset
          ≡ (traverse (plot_at sha256 now capture outer) blocks >>= λ qs. ok (cat_some qs)))
      × (validate_loop outer.payload fuel offset ≡ ok (issue_of end))
loops_agree sha256 now capture outer fuel offset h =
    let (blocks, end, w) = blocks_from outer.payload fuel offset h in
    (
      blocks,
      end,
      w,
      Walk-AreLaidOut outer.payload offset w,
      extract_loop-Walk outer fuel offset w h,
      parse_loop-Walk sha256 now capture outer fuel offset w h,
      validate_loop-Walk outer.payload fuel offset w h,
    )
