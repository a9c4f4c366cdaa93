-- ===== src/Live/Writer/Rotation.antt =====
-- Rotation in oad_parser/live/writer.py keeps every byte that was written, never replaces a file, and
-- bounds the active file.
use oad_parser.Common.{
  ℕ, ◌+◌, ◌≤◌, max, ◌≡◌, ◌⊎◌, arith, false, Option, none, some, List, [], ◌∷◌, ◌++◌, length,
  length-append, take, Result, ok, err, inl, inr,
}
use oad_parser.Common.Text.{Text}
use oad_parser.Live.Writer.Output.{
  System, OutputSettings, Output, JsonlWriteResult, content_of, active_file_size, has_name,
}
use oad_parser.Live.Writer.Moves.{Rotated, Leaves}

abbrev pub closed_bytes : List (Text × List ℕ) → List ℕ
closed_bytes [] = []
closed_bytes ((name, bytes) ∷ files) = bytes ++ closed_bytes files

-- All that the directory's files hold, from the oldest file on.
abbrev pub all_bytes : Output → List ℕ
all_bytes o = closed_bytes o.closed ++ content_of o.active

-- No two closed files have one name.
abbrev pub IsDistinct : List (Text × List ℕ) → Type 0
IsDistinct [] = Unit
IsDistinct ((name, bytes) ∷ files) = (has_name name files ≡ false) × IsDistinct files

module _ (system : System) (s : OutputSettings) where
  -- Everything is still there, in order, with at most one closed file more.
  abbrev pub Extends : Output → Output → Type 0
  Extends o o' =
      (newer : List (Text × List ℕ)) × (o'.closed ≡ o.closed ++ newer) × (length newer ≤ 1)

  -- What one write comes to: a write that raises has put a front of its line into the file, mostly none
  -- of it.
  abbrev pub Appended : List ℕ → Output → Output × Result JsonlWriteResult → Type 0
  Appended payload o (o', err raised) =
      (front : ℕ) × (all_bytes o' ≡ all_bytes o ++ take front payload) × Extends o o'
  Appended payload o (o', ok r) =
      (all_bytes o' ≡ all_bytes o ++ payload)
      × (r.bytes_written ≡ length payload)
      × Extends o o'
      × ((s.rotation_enabled ≡ false)
          ⊎ (active_file_size o' ≤ max s.rotate_max_bytes (length payload)))

  bounded :
      (active payload : List ℕ)
      → (s.rotation_enabled ≡ false)
        ⊎ ((length active ≡ 0) ⊎ (length active + length payload ≤ s.rotate_max_bytes))
      → (s.rotation_enabled ≡ false)
        ⊎ (length (active ++ payload) ≤ max s.rotate_max_bytes (length payload))
  bounded active payload (inl off) = inl off
  bounded active payload (inr (inl empty)) =
      inr (omega (arith, length-append active payload, empty))
  bounded active payload (inr (inr fits)) = inr (omega (arith, length-append active payload, fits))

  fits :
      (o o' : Output) (rotated : Option Text) (payload : List ℕ)
      → Rotated system s o (o', ok rotated)
      → Leaves system s (length payload) (o', ok rotated)
      → (s.rotation_enabled ≡ false)
        ⊎ (length (content_of o'.active ++ payload) ≤ max s.rotate_max_bytes (length payload))
  fits o o' none payload r l = bounded (content_of o'.active) payload l
  fits o o' (some name) payload (a, c, free) l = inr (rw a (omega arith))
