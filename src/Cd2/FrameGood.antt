-- ===== src/Cd2/FrameGood.antt =====
-- What the framing loop of oad_parser/parsers/cd2.py keeps: the message that is being collected.
use oad_parser.Common.{
  ℕ, ◌+◌, ◌≤◌, ◌≡◌, refl, sym, ap, ◌∙◌, arith, true, false, List, [], ◌∷◌, ◌++◌, append-nil, All,
  length, length-append, All-append, inl, inr, Bool-cases, if_intro,
}
use oad_parser.Common.Int.{ℤ, sub_ℕ}
use oad_parser.Cd2.Spec.{Cd2LinkConfig}
use oad_parser.Cd2.Word.{Cd2Word}
use oad_parser.Cd2.Frame.{
  parity_error, Framer, framer_start, is_empty, is_false, close_frame, on_idle, note_parity,
  mark_start, add_word,
}
use oad_parser.Cd2.Report.{
  IsData, word_errors, parity_errors, parity_status, is_oversize, first_index, IsSound,
  parity_errors_snoc,
}

-- What the loop keeps: the frames so far, and the message being collected.
pub record IsGood (c : Cd2LinkConfig) (s : Framer) : Type 0 where
  pub done : All (IsSound c) s.frames
  pub no_idle : All IsData s.current
  pub size : length s.current ≤ c.receive_frame_size_words
  pub start : first_index s.frame_start s.current ≡ s.frame_start
  pub errors : s.errors ≡ parity_errors s.current
  pub status : s.status ≡ parity_status (parity_errors s.current)

-- The same after one more word, which may be one too many.
pub record IsPending (c : Cd2LinkConfig) (s : Framer) : Type 0 where
  pub done : All (IsSound c) s.frames
  pub nonempty : is_empty s.current ≡ false
  pub no_idle : All IsData s.current
  pub size : length s.current ≤ c.receive_frame_size_words + 1
  pub start : first_index s.frame_start s.current ≡ s.frame_start
  pub errors : s.errors ≡ parity_errors s.current
  pub status : s.status ≡ parity_status (parity_errors s.current)

is_empty_snoc {ℓ} : {A : Type ℓ} (xs : List A) (x : A) → is_empty (xs ++ (x ∷ [])) ≡ false
is_empty_snoc [] x = refl
is_empty_snoc (y ∷ xs) x = refl

first_snoc :
    (ws : List Cd2Word) (w : Cd2Word) (start : ℕ)
    → (is_empty ws ≡ true → start ≡ w.index)
    → (is_empty ws ≡ false → first_index start ws ≡ start)
    → first_index start (ws ++ (w ∷ [])) ≡ start
first_snoc [] w start h k = sym (h refl)
first_snoc (x ∷ ws) w start h k = k refl

module _ (c : Cd2LinkConfig) where
  pub IsGood-start : IsGood c framer_start
  IsGood-start = record {
    done = tt;
    no_idle = tt;
    size = omega arith;
    start = refl;
    errors = unfold parity_errors in refl;
    status = unfold parity_errors in refl;
  }

  synced_IsGood : (s : Framer) → IsGood c s → IsGood c (record s { synced = true })
  synced_IsGood s g = record {
    done = g.done;
    no_idle = g.no_idle;
    size = g.size;
    start = g.start;
    errors = g.errors;
    status = g.status;
  }

  -- An idle word closes a message that is in progress, which fits the frame size.
  closed_by_idle :
      (s : Framer) (end : ℤ)
      → IsGood c s
      → is_empty s.current ≡ false
      → IsGood c (close_frame s end)
  unfolding close_frame
  closed_by_idle s end g e = record {
    done = All-append (IsSound c) s.frames _ g.done (sound, tt);
    no_idle = tt;
    size = omega arith;
    start = refl;
    errors = unfold parity_errors in refl;
    status = unfold parity_errors in refl;
  }
    where
      fits : is_oversize c s.current ≡ false
      fits = ground (arith, g.size)

      sound : IsSound c (record {
        words = s.current;
        start_word_index = s.frame_start;
        end_word_index = end;
        extended_error_status = s.status;
        errors = s.errors;
      })
      sound = record {
        nonempty = e;
        no_idle = g.no_idle;
        size = omega (arith, g.size);
        start = g.start;
        errors = rw (fits, append-nil) g.errors;
        status = rw fits (omega (arith, g.status));
      }

  pub on_idle-IsGood : (s : Framer) (w : Cd2Word) → IsGood c s → IsGood c (on_idle s w)
  unfolding on_idle
  on_idle-IsGood s w g =
      if_intro (IsGood c) (is_empty s.current) _ _ (λ _. synced_IsGood s g)
        (closed_by_idle (record s { synced = true }) (sub_ℕ w.index 1) (synced_IsGood s g))

  note_parity-errors :
      (s : Framer) (w : Cd2Word)
      → s.errors ≡ parity_errors s.current
      → (note_parity s w).errors ≡ parity_errors s.current ++ word_errors w
  unfolding note_parity
  note_parity-errors s w e = elim (Bool-cases (is_false w.parity_valid)) [
    | inl b ↦ rw b (ap (λ es. es ++ (parity_error w.index ∷ [])) e)
    | inr b ↦ rw b (rw append-nil e)
  ]

  note_parity-status :
      (s : Framer) (w : Cd2Word)
      → s.status ≡ parity_status (parity_errors s.current)
      → (note_parity s w).status ≡ parity_status (parity_errors s.current ++ word_errors w)
  unfolding note_parity
  note_parity-status s w e = ground arith

  note_parity_keeps :
      (s : Framer) (w : Cd2Word)
      → ((note_parity s w).frames ≡ s.frames)
        × ((note_parity s w).current ≡ s.current)
        × ((note_parity s w).frame_start ≡ s.frame_start)
  unfolding note_parity
  note_parity_keeps s w = ground arith

  mark_start_keeps :
      (s : Framer) (w : Cd2Word)
      → ((mark_start s w).frames ≡ s.frames)
        × ((mark_start s w).current ≡ s.current)
        × ((mark_start s w).errors ≡ s.errors)
        × ((mark_start s w).status ≡ s.status)
  unfolding mark_start
  mark_start_keeps s w = ground arith

  mark_start-first :
      (s : Framer) (w : Cd2Word)
      → first_index s.frame_start s.current ≡ s.frame_start
      → first_index (mark_start s w).frame_start (s.current ++ (w ∷ []))
        ≡ (mark_start s w).frame_start
  unfolding mark_start
  mark_start-first s w h =
      first_snoc s.current w (mark_start s w).frame_start (λ e. rw e) (λ e. rw e h)

  pub pending :
      (s : Framer) (w : Cd2Word)
      → IsData w
      → IsGood c s
      → IsPending c (add_word (note_parity (mark_start s w) w) w)
  pending s w d g = record {
    done = rw (after.0, marked.0) g.done;
    nonempty = is_empty_snoc (note_parity m w).current w;
    no_idle = rw (after.1, marked.1) (All-append IsData s.current (w ∷ []) g.no_idle (d, tt));
    size = rw (after.1, marked.1) (omega (arith, length-append s.current (w ∷ []), g.size));
    start = rw (after.2, after.1, marked.1) (mark_start-first s w g.start);
    errors =
        note_parity-errors m w (rw (marked.1, marked.2) g.errors)
        ∙ rw (after.1, marked.1) (sym (parity_errors_snoc s.current w));
    status =
        note_parity-status m w (rw (marked.1, marked.3) g.status)
        ∙ rw (after.1, marked.1) (ap parity_status (sym (parity_errors_snoc s.current w)));
  }
    where
      m : Framer
      m = mark_start s w

      marked :
          (m.frames ≡ s.frames)
          × (m.current ≡ s.current)
          × (m.errors ≡ s.errors)
          × (m.status ≡ s.status)
      marked = mark_start_keeps s w

      after :
          ((note_parity m w).frames ≡ m.frames)
          × ((note_parity m w).current ≡ m.current)
          × ((note_parity m w).frame_start ≡ m.frame_start)
      after = note_parity_keeps m w
