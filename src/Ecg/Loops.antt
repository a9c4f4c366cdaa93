-- ===== src/Ecg/Loops.antt =====
-- The three loops of oad_parser/parsers/ecg.py as functions of the blocks that the walk visits.
use oad_parser.Common.{
  ℕ, zero, suc, ◌+◌, ◌≤◌, ◌≡◌, refl, arith, Option, none, some, List, [], ◌∷◌, length, Result, ok,
  err, ◌>>=◌,
}
use oad_parser.Common.Text.{Text}
use oad_parser.Ecg.Block.{NextBlock, header_overrun, payload_overrun}
use oad_parser.Ecg.Envelope.{Outer, envelope_at, extract_loop}
use oad_parser.Ecg.Plot.{ParsedPlot, Capture, plot_at, cons_some, parse_loop}
use oad_parser.Ecg.Checked.{Issue, header_truncated, block_truncated, validate_loop}
use oad_parser.Ecg.Walk.{
  Walk, stop, cut_header, cut_message, skip, visit, out_of_fuel, next_block-finished,
}

-- The calls on the blocks in order, up to the first that raises.
unfoldable pub traverse {ℓ} : {A : Type ℓ} → (ℕ → ℕ → Result A) → List (ℕ × ℕ) → Result (List A)
traverse f [] = ok []
traverse f ((offset, n) ∷ blocks) = do x ← f offset n; rest ← traverse f blocks; ok (x ∷ rest)

pub extract_loop-Walk :
    (outer : Outer) (fuel offset : ℕ) {blocks : List (ℕ × ℕ)} {end : NextBlock}
    → Walk outer.payload offset blocks end
    → length outer.payload ≤ offset + fuel
    → extract_loop outer fuel offset ≡ traverse (envelope_at outer) blocks
unfolding extract_loop traverse
extract_loop-Walk outer zero offset {blocks} w h =
    let (e, _) = out_of_fuel outer.payload offset w h in
    rw (e, next_block-finished outer.payload offset (omega arith), extract_loop) refl
extract_loop-Walk outer (suc fuel) offset (stop e) h = rw (e, extract_loop) refl
extract_loop-Walk outer (suc fuel) offset (cut_header e) h = rw (e, extract_loop) refl
extract_loop-Walk outer (suc fuel) offset (cut_message e) h = rw (e, extract_loop) refl
extract_loop-Walk outer (suc fuel) offset (skip e w) h =
    let ih = extract_loop-Walk outer fuel (offset + 1) w (omega arith) in rw (e, extract_loop) ih
extract_loop-Walk outer (suc fuel) offset (visit {n = n} e w) h =
    let ih = extract_loop-Walk outer fuel (offset + 16 + n) w (omega arith) in
    rw (e, ih, extract_loop) refl

-- What `_validate_ecg_message_blocks` says of the end of the walk.
abbrev pub issue_of : NextBlock → Option Issue
issue_of header_overrun = some header_truncated
issue_of payload_overrun = some block_truncated
issue_of _ = none

pub validate_loop-Walk :
    (payload : List ℕ) (fuel offset : ℕ) {blocks : List (ℕ × ℕ)} {end : NextBlock}
    → Walk payload offset blocks end
    → length payload ≤ offset + fuel
    → validate_loop payload fuel offset ≡ ok (issue_of end)
unfolding validate_loop
validate_loop-Walk payload zero offset w h =
    let (_, e) = out_of_fuel payload offset w h in
    rw (e, next_block-finished payload offset (omega arith), validate_loop) refl
validate_loop-Walk payload (suc fuel) offset (stop e) h = rw (e, validate_loop) refl
validate_loop-Walk payload (suc fuel) offset (cut_header e) h = rw (e, validate_loop) refl
validate_loop-Walk payload (suc fuel) offset (cut_message e) h = rw (e, validate_loop) refl
validate_loop-Walk payload (suc fuel) offset (skip e w) h =
    let ih = validate_loop-Walk payload fuel (offset + 1) w (omega arith) in
    rw (e, validate_loop) ih
validate_loop-Walk payload (suc fuel) offset (visit {n = n} e w) h =
    let ih = validate_loop-Walk payload fuel (offset + 16 + n) w (omega arith) in
    rw (e, validate_loop) ih

-- The records that are there.
abbrev pub cat_some : List (Option ParsedPlot) → List ParsedPlot
cat_some [] = []
cat_some (q ∷ qs) = cons_some q (cat_some qs)

collected :
    (m : Result (Option ParsedPlot)) (ms : Result (List (Option ParsedPlot)))
    → (m >>= λ q. ms >>= (λ qs. ok (cat_some qs)) >>= λ plots. ok (cons_some q plots))
      ≡ ((m >>= λ q. ms >>= λ qs. ok (q ∷ qs)) >>= λ qs. ok (cat_some qs))
collected (ok q) (ok qs) = refl
collected (ok q) (err x) = refl
collected (err x) ms = refl

pub parse_loop-Walk :
    (sha256 : List ℕ → Text) (now : Text) (capture : Capture) (outer : Outer) (fuel offset : ℕ)
    {blocks : List (ℕ × ℕ)} {end : NextBlock}
    → Walk outer.payload offset blocks end
    → length outer.payload ≤ offset + fuel
    → parse_loop sha256 now capture outer fuel offset
      ≡ (traverse (plot_at sha256 now capture outer) blocks >>= λ qs. ok (cat_some qs))
unfolding parse_loop traverse
parse_loop-Walk sha256 now capture outer zero offset w h =
    let (e, _) = out_of_fuel outer.payload offset w h in
    rw (e, next_block-finished outer.payload offset (omega arith), parse_loop) refl
parse_loop-Walk sha256 now capture outer (suc fuel) offset (stop e) h = rw (e, parse_loop) refl
parse_loop-Walk sha256 now capture outer (suc fuel) offset (cut_header e) h =
    rw (e, parse_loop) refl
parse_loop-Walk sha256 now capture outer (suc fuel) offset (cut_message e) h =
    rw (e, parse_loop) refl
parse_loop-Walk sha256 now capture outer (suc fuel) offset (skip e w) h =
    let ih = parse_loop-Walk sha256 now capture outer fuel (offset + 1) w (omega arith) in
    rw (e, parse_loop) ih
parse_loop-Walk sha256 now capture outer (suc fuel) offset (visit {n = n} {blocks = blocks} e w) h =
    let ih = parse_loop-Walk sha256 now capture outer fuel (offset + 16 + n) w (omega arith) in
    rw (e, ih, parse_loop)
      (collected (plot_at sha256 now capture outer offset n)
        (traverse (plot_at sha256 now capture outer) blocks))
