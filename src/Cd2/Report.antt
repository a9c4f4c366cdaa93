-- ===== src/Cd2/Report.antt =====
-- What a framed message of oad_parser/parsers/cd2.py reports: its parity errors, its status, and
-- when a frame is sound.
use oad_parser.Common.{
  ℕ, ◌+◌, ◌≤◌, ◌≡◌, ap, ◌∙◌, Bool, false, List, [], ◌∷◌, ◌++◌, append_assoc, append-nil, All,
  length, ltb, if◌then◌else◌,
}
use oad_parser.Cd2.Spec.{Cd2LinkConfig, cd2_extended_error_parity, cd2_extended_error_eom}
use oad_parser.Cd2.Word.{Cd2Word}
use oad_parser.Cd2.Frame.{FrameError, parity_error, eom_error, Cd2Frame, is_empty, is_false}

abbrev pub IsData : Cd2Word → Type 0
IsData w = w.is_idle ≡ false

-- The parity errors that a message reports: one for each word whose check failed.
abbrev pub word_errors : Cd2Word → List FrameError
word_errors w = if is_false w.parity_valid then parity_error w.index ∷ [] else []

unfoldable pub parity_errors : List Cd2Word → List FrameError
parity_errors [] = []
parity_errors (w ∷ ws) = word_errors w ++ parity_errors ws

abbrev pub parity_status : List FrameError → ℕ
parity_status es = if is_empty es then 0 else cd2_extended_error_parity

abbrev pub is_oversize : Cd2LinkConfig → List Cd2Word → Bool
is_oversize c ws = ltb c.receive_frame_size_words (length ws)

abbrev pub first_index : ℕ → List Cd2Word → ℕ
first_index default [] = default
first_index default (w ∷ ws) = w.index

pub record IsSound (c : Cd2LinkConfig) (f : Cd2Frame) : Type 0 where
  pub nonempty : is_empty f.words ≡ false
  pub no_idle : All IsData f.words
  pub size : length f.words ≤ c.receive_frame_size_words + 1
  pub start : first_index f.start_word_index f.words ≡ f.start_word_index
  pub errors :
      f.errors
      ≡ parity_errors f.words
        ++ (if is_oversize c f.words then eom_error c.receive_frame_size_words ∷ [] else [])
  pub status :
      f.extended_error_status
      ≡ parity_status (parity_errors f.words)
        + (if is_oversize c f.words then cd2_extended_error_eom else 0)

pub parity_errors_snoc :
    (ws : List Cd2Word) (w : Cd2Word)
    → parity_errors (ws ++ (w ∷ [])) ≡ parity_errors ws ++ word_errors w
unfolding parity_errors
parity_errors_snoc [] w = append-nil (word_errors w)
parity_errors_snoc (x ∷ ws) w =
    ap (λ es. word_errors x ++ es) (parity_errors_snoc ws w) ∙ rw append_assoc
