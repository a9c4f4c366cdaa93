-- ===== src/Live/Writer/Moves.antt =====
-- What a rotation in oad_parser/live/writer.py does to the directory: the active file is moved to a name
-- that no file has, or nothing is changed.
use oad_parser.Common.{
  ℕ, ◌+◌, ◌*◌, ◌≤◌, ◌≡◌, ◌⊎◌, refl, ap, arith, Bool, true, false, not, ◌&&◌, ◌||◌, Option, none,
  some, List, [], ◌∷◌, ◌++◌, length, ltb, leb, Result, ok, err, os_error, if_intro, Bool-cases, inl,
  inr,
}
use oad_parser.Common.Text.{Text}
use oad_parser.Common.Dict.{equals_text}
use oad_parser.Live.Writer.Output.{
  System, OutputSettings, Output, content_of, active_file_size, active_file_has_content, has_name,
  is_some, without, name_exists, next_rotated_path, read_clock, called, attempted, attempt, moved,
  replaced, rotate_active_file, rotate_if_needed,
}
use oad_parser.Live.Writer.Names.{allocate-free}

within :
    (size next limit : ℕ)
    → (ltb 0 size && ltb limit (size + next)) ≡ false
    → (size ≡ 0) ⊎ (size + next ≤ limit)
within size next limit h = elim (Bool-cases (ltb 0 size)) [
  | inl some_size ↦ inr (ground arith)
  | inr no_size ↦ inl (ground arith)
]

module _ (system : System) (s : OutputSettings) where
  -- A step of the directory that may rotate the active file and fails only with nothing changed.
  abbrev pub Rotated : Output → Output × Result (Option Text) → Type 0
  Rotated o (o', err raised) = (o'.active ≡ o.active) × (o'.closed ≡ o.closed)
  Rotated o (o', ok none) = (o'.active ≡ o.active) × (o'.closed ≡ o.closed)
  Rotated o (o', ok (some name)) =
      (o'.active ≡ none)
      × (o'.closed ≡ o.closed ++ ((name, content_of o.active) ∷ []))
      × (name_exists s o name ≡ false)

  without-free :
      (name : Text) (files : List (Text × List ℕ))
      → has_name name files ≡ false
      → without name files ≡ files
  without-free name [] free = refl
  without-free name ((k, bytes) ∷ files) free =
      let other : equals_text k name ≡ false = ground arith in
      rw other (ap (λ fs. (k, bytes) ∷ fs) (without-free name files (ground arith)))

  -- A name that no file has is not that of an active file with content either.
  not_active :
      (active : Option (List ℕ)) (same taken : Bool)
      → ltb 0 (length (content_of active)) ≡ true
      → ((is_some active && same) || taken) ≡ false
      → (same ≡ false) × (taken ≡ false)
  not_active none same taken h free = absurd (ground (arith, h))
  not_active (some bytes) same taken h free = (ground (arith, free), ground (arith, free))

  moved_free :
      (o : Output) (name : Text)
      → active_file_has_content o ≡ true
      → name_exists s o name ≡ false
      → moved system s o name
        ≡ record o { active = none; closed = o.closed ++ ((name, content_of o.active) ∷ []) }
  moved_free o name h free =
      let (other, unused) =
        not_active o.active (equals_text s.active_name name) (has_name name o.closed) h free in
      rw (other, without-free name o.closed unused) refl

  -- A call of the file system keeps what its failure and its next statements keep.
  pub attempt_intro {ℓ κ} :
      {A : Type ℓ} (P : Output × Result A → Type κ) (o : Output) (next : Output → Output × Result A)
      → P (called system s o, err os_error)
      → P (next (called system s o))
      → P (attempt system s o next)
  attempt_intro P o next failed went_on = by_fault (system.faults o.system_calls)
    where
      by_fault : (fault : Option ℕ) → P (attempted system s fault o next)
      by_fault none = went_on
      by_fault (some front) = failed

  replaced-Rotated :
      (o : Output) (r : Result Text) (t : ℕ)
      → active_file_has_content o ≡ true
      → next_rotated_path system s o t ≡ r
      → Rotated o (replaced system s o r)
  unfolding next_rotated_path
  replaced-Rotated o (err raised) t h e = (refl, refl)
  replaced-Rotated o (ok name) t h e =
      let free = allocate-free (name_exists s o) _ _ name e in
      attempt_intro (Rotated o) o _ (refl, refl)
        (attempt_intro (Rotated o) (called system s o) _ (refl, refl)
          (rw (moved_free (called system s (called system s o)) name h free) (refl, refl, free)))

  rotate_active_file-Rotated :
      (time : ℕ) (o : Output) → Rotated o (rotate_active_file system s (some time) o)
  unfolding rotate_active_file
  rotate_active_file-Rotated time o =
      if_intro (Rotated o) (not (active_file_has_content o)) _ _ (λ _. (refl, refl))
        λ h. replaced-Rotated o (next_rotated_path system s o time) time (ground (arith, h)) refl

  -- What `_rotate_if_needed` guarantees of the active file where rotation is enabled.
  abbrev pub Leaves : ℕ → Output × Result (Option Text) → Type 0
  Leaves size (o, err raised) = Unit
  Leaves size (o, ok (some name)) = Unit
  Leaves size (o, ok none) =
      (s.rotation_enabled ≡ false)
      ⊎ ((active_file_size o ≡ 0) ⊎ (active_file_size o + size ≤ s.rotate_max_bytes))

  pub rotate_if_needed-Rotated :
      (size : ℕ) (o : Output) → Rotated o (rotate_if_needed system s size o)
  unfolding rotate_if_needed
  rotate_if_needed-Rotated size o =
      let now = system.now o.clock_reads in
      let rotated = rotate_active_file-Rotated now (read_clock system s o).0 in
      if_intro (Rotated o) (not s.rotation_enabled) _ _ (λ _. (refl, refl))
        λ _.
          if_intro (Rotated o)
            (active_file_has_content o
              && leb (o.active_started_at_utc + s.rotate_seconds * 1000000) now)
            _ _ (λ _. rotated)
            λ _.
              if_intro (Rotated o)
                (ltb 0 (active_file_size o) && ltb s.rotate_max_bytes (active_file_size o + size)) _
                _ (λ _. rotated) (λ _. (refl, refl))

  replaced-Leaves : (size : ℕ) (o : Output) (r : Result Text) → Leaves size (replaced system s o r)
  replaced-Leaves size o (err raised) = tt
  replaced-Leaves size o (ok name) =
      attempt_intro (Leaves size) o _ tt (attempt_intro (Leaves size) (called system s o) _ tt tt)

  -- The active file is there and has content, so its rotation gives a name or an error.
  rotate_active_file-Leaves :
      (time size : ℕ) (o : Output)
      → active_file_has_content o ≡ true
      → Leaves size (rotate_active_file system s (some time) o)
  unfolding rotate_active_file
  rotate_active_file-Leaves time size o h =
      rw h (replaced-Leaves size o (next_rotated_path system s o time))

  pub rotate_if_needed-Leaves :
      (size : ℕ) (o : Output) → Leaves size (rotate_if_needed system s size o)
  unfolding rotate_if_needed
  rotate_if_needed-Leaves size o =
      let now = system.now o.clock_reads in
      let read = (read_clock system s o).0 in
      if_intro (Leaves size) (not s.rotation_enabled) _ _ (λ h. inl (ground (arith, h)))
        λ _.
          if_intro (Leaves size)
            (active_file_has_content o
              && leb (o.active_started_at_utc + s.rotate_seconds * 1000000) now)
            _ _ (λ h. rotate_active_file-Leaves now size read (ground (arith, h)))
            λ _.
              if_intro (Leaves size)
                (ltb 0 (active_file_size o) && ltb s.rotate_max_bytes (active_file_size o + size)) _
                _ (λ h. rotate_active_file-Leaves now size read (ground (arith, h)))
                λ h. inr (within (active_file_size o) size s.rotate_max_bytes h)
