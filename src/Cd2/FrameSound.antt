-- ===== src/Cd2/FrameSound.antt =====
-- Every frame that the framing loop of oad_parser/parsers/cd2.py emits is well formed: its words,
-- its indices, its error texts and its extended error status belong together.
use oad_parser.Common.{
  ℕ, ◌+◌, ◌≡◌, refl, ap, ◌∙◌, arith, true, false, List, [], ◌∷◌, ◌++◌, All, All-append, if_intro,
  bit_or,
}
use oad_parser.Common.Int.{ℤ, pos}
use oad_parser.Cd2.Spec.{Cd2LinkConfig, cd2_extended_error_eom}
use oad_parser.Cd2.Word.{Cd2Word}
use oad_parser.Cd2.Frame.{
  FrameError, eom_error, Framer, framer_start, close_frame, check_size, on_data, frame_step,
  frame_loop, frame_words,
}
use oad_parser.Cd2.Report.{IsData, parity_errors, parity_status, is_oversize, IsSound}
use oad_parser.Cd2.FrameGood.{IsGood, IsPending, IsGood-start, on_idle-IsGood, pending}

module _ (c : Cd2LinkConfig) where
  fitting : (s : Framer) → IsPending c s → is_oversize c s.current ≡ false → IsGood c s
  fitting s g e = record {
    done = g.done;
    no_idle = g.no_idle;
    size = ground arith;
    start = g.start;
    errors = g.errors;
    status = g.status;
  }

  abbrev oversize : Framer → Framer
  oversize s = record s {
    status = bit_or s.status cd2_extended_error_eom;
    errors = s.errors ++ (eom_error c.receive_frame_size_words ∷ []);
  }

  status_with_eom :
      (es : List FrameError)
      → bit_or (parity_status es) cd2_extended_error_eom ≡ parity_status es + cd2_extended_error_eom
  status_with_eom [] = refl
  status_with_eom (x ∷ es) = refl

  closed_oversize :
      (s : Framer) (end : ℤ)
      → IsPending c s
      → is_oversize c s.current ≡ true
      → IsGood c (record (close_frame (oversize s) end) { synced = false })
  unfolding close_frame
  closed_oversize s end g e = record {
    done = All-append (IsSound c) s.frames _ g.done (sound, tt);
    no_idle = tt;
    size = omega arith;
    start = refl;
    errors = unfold parity_errors in refl;
    status = unfold parity_errors in refl;
  }
    where
      sound : IsSound c (record {
        words = s.current;
        start_word_index = s.frame_start;
        end_word_index = end;
        extended_error_status = (oversize s).status;
        errors = (oversize s).errors;
      })
      sound = record {
        nonempty = g.nonempty;
        no_idle = g.no_idle;
        size = g.size;
        start = g.start;
        errors = rw e (ap (λ es. es ++ (eom_error c.receive_frame_size_words ∷ [])) g.errors);
        status = rw e (
            ap (λ (t : ℕ). bit_or t cd2_extended_error_eom) g.status
            ∙ status_with_eom (parity_errors s.current));
      }

  check_size-IsGood : (s : Framer) (w : Cd2Word) → IsPending c s → IsGood c (check_size c s w)
  unfolding check_size
  check_size-IsGood s w g =
      if_intro (IsGood c) (is_oversize c s.current) _ _ (closed_oversize s (pos w.index) g)
        (fitting s g)

  on_data-IsGood : (s : Framer) (w : Cd2Word) → IsData w → IsGood c s → IsGood c (on_data c s w)
  unfolding on_data
  on_data-IsGood s w d g =
      if_intro (IsGood c) s.synced _ _ (λ _. check_size-IsGood _ w (pending c s w d g)) (λ _. g)

  frame_step-IsGood : (s : Framer) (w : Cd2Word) → IsGood c s → IsGood c (frame_step c s w)
  unfolding frame_step
  frame_step-IsGood s w g =
      if_intro (IsGood c) w.is_idle _ _ (λ _. on_idle-IsGood c s w g) (λ e. on_data-IsGood s w e g)

  frame_loop-IsGood :
      (s : Framer) (words : List Cd2Word) → IsGood c s → IsGood c (frame_loop c s words)
  unfolding frame_loop
  frame_loop-IsGood s [] g = g
  frame_loop-IsGood s (w ∷ words) g =
      frame_loop-IsGood (frame_step c s w) words (frame_step-IsGood s w g)

-- Every frame of `frame_words` has at least one word, none of them idle, and at most one more than
-- the frame size; it starts at the index of its first word; its errors are one parity error for
-- each word whose check failed, in order, then an EOM error exactly if it has more words than the
-- frame size; and its status has the parity bit exactly if a check failed, the EOM bit exactly if
-- it is too long.
pub frame_words-IsSound :
    (c : Cd2LinkConfig) (words : List Cd2Word) → All (IsSound c) (frame_words c words)
unfolding frame_words
frame_words-IsSound c words = (frame_loop-IsGood c framer_start words (IsGood-start c)).done
