-- ===== src/Cd2/FrameComplete.antt =====
-- The framing loop of oad_parser/parsers/cd2.py finds every message between idle words.
use oad_parser.Common.{
  ℕ, ◌+◌, ◌≤◌, ◌<◌, ◌≡◌, refl, sym, ap, ◌∙◌, arith, true, false, List, [], ◌∷◌, ◌++◌, map,
  append_assoc, append-nil, All, length, length-append,
}
use oad_parser.Common.Int.{sub_ℕ}
use oad_parser.Cd2.Spec.{Cd2LinkConfig}
use oad_parser.Cd2.Word.{Cd2Word}
use oad_parser.Cd2.Frame.{
  Cd2Frame, Framer, framer_start, is_empty, close_frame, on_idle, note_parity, mark_start,
  check_size, on_data, frame_step, frame_loop, frame_words,
}
use oad_parser.Cd2.Report.{IsData, parity_errors, parity_errors_snoc, parity_status, first_index}

-- A message and the idle word behind it.
abbrev pub Delimited : Type 0
Delimited = List Cd2Word × Cd2Word

abbrev pub IsDelimited : Cd2LinkConfig → Delimited → Type 0
IsDelimited c (m, idle) =
    (is_empty m ≡ false)
    × All IsData m
    × (length m ≤ c.receive_frame_size_words)
    × (idle.is_idle ≡ true)

abbrev pub delimited_words : List Delimited → List Cd2Word
delimited_words [] = []
delimited_words ((m, idle) ∷ ms) = m ++ (idle ∷ delimited_words ms)

-- The frame that a message makes.
abbrev pub message_frame : Delimited → Cd2Frame
message_frame (m, idle) = record {
  words = m;
  start_word_index = first_index 0 m;
  end_word_index = sub_ℕ idle.index 1;
  extended_error_status = parity_status (parity_errors m);
  errors = parity_errors m;
}

-- The loop in a message: `current` holds its words so far.
abbrev collecting : List Cd2Frame → ℕ → List Cd2Word → Framer
collecting frames start current = record {
  frames = frames;
  current = current;
  synced = true;
  frame_start = first_index start current;
  errors = parity_errors current;
  status = parity_status (parity_errors current);
}

parity_errors_nil : parity_errors [] ≡ []
unfolding parity_errors
parity_errors_nil = refl

module _ (c : Cd2LinkConfig) where
  collect_word :
      (frames : List Cd2Frame) (start : ℕ) (current : List Cd2Word) (w : Cd2Word)
      → IsData w
      → length current < c.receive_frame_size_words
      → frame_step c (collecting frames start current) w
        ≡ collecting frames start (current ++ (w ∷ []))
  unfolding frame_step on_data check_size note_parity mark_start
  collect_word frames start [] w d h = ground (arith, parity_errors_snoc [] w, parity_errors_nil)
  collect_word frames start (x ∷ current) w d h = ground (
    arith,
    parity_errors_snoc (x ∷ current) w,
    length-append current (w ∷ []),
    append-nil (parity_errors (x ∷ current)),
  )

  collect_words :
      (frames : List Cd2Frame) (start : ℕ) (current m rest : List Cd2Word)
      → All IsData m
      → length current + length m ≤ c.receive_frame_size_words
      → frame_loop c (collecting frames start current) (m ++ rest)
        ≡ frame_loop c (collecting frames start (current ++ m)) rest
  unfolding frame_loop
  collect_words frames start current [] rest d h =
      ap (λ ws. frame_loop c (collecting frames start ws) rest) (sym (append-nil current))
  collect_words frames start current (w ∷ m) rest d h =
      ap (λ s. frame_loop c s (m ++ rest)) (collect_word frames start current w d.0 (omega arith))
      ∙ collect_words frames start (current ++ (w ∷ [])) m rest d.1
          (omega (arith, length-append current (w ∷ [])))
      ∙ ap (λ ws. frame_loop c (collecting frames start ws) rest) (append_assoc current (w ∷ []) m)

  -- The idle word behind a message emits its frame.
  close_message :
      (frames : List Cd2Frame) (start : ℕ) (m : List Cd2Word) (idle : Cd2Word)
      → is_empty m ≡ false
      → idle.is_idle ≡ true
      → frame_step c (collecting frames start m) idle
        ≡ collecting (frames ++ (message_frame (m, idle) ∷ [])) (first_index start m) []
  unfolding frame_step on_idle close_frame
  close_message frames start [] idle e i = cc
  close_message frames start (w ∷ m) idle e i = ground (arith, parity_errors_nil)

  frame_loop-delimited :
      (ms : List Delimited) (frames : List Cd2Frame) (start : ℕ)
      → All (IsDelimited c) ms
      → (frame_loop c (collecting frames start []) (delimited_words ms)).frames
        ≡ frames ++ map message_frame ms
  frame_loop-delimited [] frames start h = unfold frame_loop in sym (append-nil frames)
  frame_loop-delimited ((m, idle) ∷ ms) frames start h =
      ap (λ (s : Framer). s.frames)
        (collect_words frames start [] m (idle ∷ delimited_words ms) h.0.1 (omega (arith, h.0.2))
          ∙ emits)
      ∙ frame_loop-delimited ms (frames ++ (message_frame (m, idle) ∷ [])) (first_index start m) h.1
      ∙ append_assoc frames (message_frame (m, idle) ∷ []) (map message_frame ms)
    where
      emits :
          frame_loop c (collecting frames start m) (idle ∷ delimited_words ms)
          ≡ frame_loop c
              (collecting (frames ++ (message_frame (m, idle) ∷ [])) (first_index start m) [])
              (delimited_words ms)
      emits =
          unfold frame_loop in
          ap (λ s. frame_loop c s (delimited_words ms))
            (close_message frames start m idle h.0.0 h.0.3)

  -- Words before the first idle word are dropped.
  frame_loop_unsynced :
      (noise rest : List Cd2Word)
      → All IsData noise
      → frame_loop c framer_start (noise ++ rest) ≡ frame_loop c framer_start rest
  unfolding frame_loop frame_step on_data
  frame_loop_unsynced [] rest d = refl
  frame_loop_unsynced (w ∷ noise) rest d =
      ap (λ s. frame_loop c s (noise ++ rest)) skipped ∙ frame_loop_unsynced noise rest d.1
    where
      skipped : frame_step c framer_start w ≡ framer_start
      skipped = ground (arith, d.0)

-- From any stream that starts with words before the first idle word, goes on with messages, each
-- of at least one data word and no longer than the frame size and each closed by an idle word,
-- `frame_words` emits exactly one frame for each message, in order, with its words, its indices,
-- and the errors and status of its parity checks; the words before the first idle word are lost.
pub frame_words-delimited :
    (c : Cd2LinkConfig) (noise : List Cd2Word) (sync : Cd2Word) (ms : List Delimited)
    → All IsData noise
    → sync.is_idle ≡ true
    → All (IsDelimited c) ms
    → frame_words c (noise ++ (sync ∷ delimited_words ms)) ≡ map message_frame ms
unfolding frame_words
frame_words-delimited c noise sync ms d i h =
    ap (λ (s : Framer). s.frames)
      (frame_loop_unsynced c noise (sync ∷ delimited_words ms) d ∙ starts)
    ∙ frame_loop-delimited c ms [] 0 h
  where
    synced : frame_step c framer_start sync ≡ collecting [] 0 []
    synced = unfold frame_step on_idle parity_errors in ground (arith, i)

    starts :
        frame_loop c framer_start (sync ∷ delimited_words ms)
        ≡ frame_loop c (collecting [] 0 []) (delimited_words ms)
    starts = unfold frame_loop in ap (λ s. frame_loop c s (delimited_words ms)) synced
