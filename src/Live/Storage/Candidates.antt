-- ===== src/Live/Storage/Candidates.antt =====
-- The candidates of oad_parser/live/storage.py: the sorted list of closed files names all of them, and
-- names no other file.
use oad_parser.Common.{
  ◌≡◌, refl, sym, ◌∙◌, arith, Bool, false, ◌&&◌, List, [], ◌∷◌, Bool-cases, inl, inr, if_intro, All,
  leb, subst,
}
use oad_parser.Common.Text.{Text}
use oad_parser.Common.Dict.{equals_text, equals_text_refl, equals_text_comm}
use oad_parser.Common.Value.{contains_text}
use oad_parser.Live.Storage.Policy.{
  DirEntry, Disk, LiveStoragePolicy, selected, insert_by_time, sort_by_time, is_prunable,
  only_prunable, closed_output_files,
}
use oad_parser.Live.Storage.Deletion.{paths_of, IsDirectory, Holds, AllHold, Awaits}

module _ (test : DirEntry → Bool) (t : Text) where
  contains-insert_by_time :
      (e : DirEntry) (files : List DirEntry)
      → contains_text t (selected test (insert_by_time e files))
        ≡ contains_text t (selected test (e ∷ files))
  unfolding insert_by_time contains_text
  contains-insert_by_time e [] = refl
  contains-insert_by_time e (f ∷ files) = ground (arith, contains-insert_by_time e files)

  contains-sort_by_time :
      (files : List DirEntry)
      → contains_text t (selected test (sort_by_time files)) ≡ contains_text t (selected test files)
  unfolding sort_by_time contains_text
  contains-sort_by_time [] = refl
  contains-sort_by_time (e ∷ files) =
      contains-insert_by_time e (sort_by_time files) ∙ ground (arith, contains-sort_by_time files)

All-insert_by_time {ℓ} :
    (P : DirEntry → Type ℓ) (e : DirEntry) (files : List DirEntry)
    → P e
    → All P files
    → All P (insert_by_time e files)
unfolding insert_by_time
All-insert_by_time P e [] h hs = (h, tt)
All-insert_by_time P e (f ∷ files) h (first, hs) =
    if_intro (All P) (leb e.modified_time_utc f.modified_time_utc) _ _ (λ _. (h, (first, hs)))
      λ _. (first, All-insert_by_time P e files h hs)

All-sort_by_time {ℓ} :
    (P : DirEntry → Type ℓ) (files : List DirEntry) → All P files → All P (sort_by_time files)
unfolding sort_by_time
All-sort_by_time P [] h = tt
All-sort_by_time P (e ∷ files) (first, h) =
    All-insert_by_time P e (sort_by_time files) first (All-sort_by_time P files h)

module _ (disk : Disk) (p : LiveStoragePolicy) where
  abbrev prunable : DirEntry → Bool
  prunable e = is_prunable disk p e

  -- The path belongs to closed files only.
  abbrev IsClosedPath : List DirEntry → DirEntry → Type 0
  IsClosedPath files e = All (Holds prunable e.path) files

  absent-Holds :
      (path : Text) (files : List DirEntry)
      → contains_text path (paths_of files) ≡ false
      → All (Holds prunable path) files
  unfolding contains_text
  absent-Holds path [] h = tt
  absent-Holds path (f ∷ files) h = (ground arith, absent-Holds path files (ground arith))

  -- One more file, whose path is new.
  IsClosedPath-cons :
      (f : DirEntry) (files chosen : List DirEntry)
      → All (λ e. equals_text f.path e.path ≡ false) chosen
      → All (IsClosedPath files) chosen
      → All (IsClosedPath (f ∷ files)) chosen
  IsClosedPath-cons f files [] differ h = tt
  IsClosedPath-cons f files (e ∷ chosen) (d, differ) (first, h) =
      ((rw d refl, first), IsClosedPath-cons f files chosen differ h)

  absent-differs :
      (path : Text) (files : List DirEntry)
      → contains_text path (paths_of files) ≡ false
      → All (λ e. equals_text path e.path ≡ false) (only_prunable disk p files)
  unfolding contains_text
  absent-differs path [] h = tt
  absent-differs path (f ∷ files) h =
      let rest = absent-differs path files (ground arith) in
      if_intro (All (λ (e : DirEntry). equals_text path e.path ≡ false)) (prunable f) _ _
        (λ _. (equals_text_comm path f.path ∙ ground arith, rest)) (λ _. rest)

  only_prunable-IsClosedPath :
      (files : List DirEntry)
      → IsDirectory files
      → All (IsClosedPath files) (only_prunable disk p files)
  only_prunable-IsClosedPath [] d = tt
  only_prunable-IsClosedPath (f ∷ files) (new, d) =
      let rest =
        IsClosedPath-cons f files (only_prunable disk p files) (absent-differs f.path files new)
          (only_prunable-IsClosedPath files d) in
      if_intro (All (IsClosedPath (f ∷ files))) (prunable f) _ _
        (λ h. ((rw (h, equals_text_refl f.path) refl, absent-Holds f.path files new), rest))
        (λ _. rest)

  selected-AllHold :
      (test : DirEntry → Bool) (files chosen : List DirEntry)
      → All (IsClosedPath files) chosen
      → AllHold prunable (selected test chosen) files
  selected-AllHold test files [] h = tt
  selected-AllHold test files (e ∷ chosen) (first, h) =
      let rest = selected-AllHold test files chosen h in
      if_intro (λ (ps : List Text). AllHold prunable ps files) (test e) _ _ (λ _. (first, rest))
        (λ _. rest)

  -- Deleting the chosen files touches no file of another kind.
  pub closed_output_files-AllHold :
      (test : DirEntry → Bool) (files : List DirEntry)
      → IsDirectory files
      → AllHold prunable (selected test (closed_output_files disk p files)) files
  unfolding closed_output_files
  closed_output_files-AllHold test files d =
      selected-AllHold test files (sort_by_time (only_prunable disk p files)) (
        All-sort_by_time (IsClosedPath files) (only_prunable disk p files)
          (only_prunable-IsClosedPath files d))

  -- The kind of file that is chosen.
  abbrev pub chosen : (DirEntry → Bool) → DirEntry → Bool
  chosen test e = prunable e && test e

  Awaits-wider :
      (test : DirEntry → Bool) (path : Text) (paths : List Text) (files : List DirEntry)
      → All (Awaits (chosen test) paths) files
      → All (Awaits (chosen test) (path ∷ paths)) files
  unfolding contains_text
  Awaits-wider test path paths [] h = tt
  Awaits-wider test path paths (f ∷ files) (first, h) =
      (ground arith, Awaits-wider test path paths files h)

  only_prunable-Awaits :
      (test : DirEntry → Bool) (files : List DirEntry)
      → All (Awaits (chosen test) (selected test (only_prunable disk p files))) files
  unfolding contains_text
  only_prunable-Awaits test [] = tt
  only_prunable-Awaits test (f ∷ files) =
      let rest = only_prunable-Awaits test files in
      let paths = selected test (only_prunable disk p files) in
      let all = selected test (only_prunable disk p (f ∷ files)) in
      let at = λ (ps : List Text). All (Awaits (chosen test) ps) (f ∷ files) in
      elim (Bool-cases (prunable f)) [
        | inl closed ↦ elim (Bool-cases (test f)) [
          | inl passes ↦
              let e : all ≡ f.path ∷ paths = rw (closed, passes) refl in
              subst at (sym e) (
                rw (equals_text_refl f.path) (ground arith),
                Awaits-wider test f.path paths files rest,
              )
          | inr fails ↦
              let e : all ≡ paths = rw (closed, fails) refl in
              subst at (sym e) (rw (fails) (ground arith), rest)
        ]
        | inr other ↦ let e : all ≡ paths = rw other refl in subst at (sym e) (rw other refl, rest)
      ]

  Awaits-same :
      (test : DirEntry → Bool) (paths paths' : List Text) (files : List DirEntry)
      → ((t : Text) → contains_text t paths' ≡ contains_text t paths)
      → All (Awaits (chosen test) paths) files
      → All (Awaits (chosen test) paths') files
  Awaits-same test paths paths' [] same h = tt
  Awaits-same test paths paths' (f ∷ files) same (first, h) =
      (rw (same f.path) first, Awaits-same test paths paths' files same h)

  -- Every closed file that passes the test is among the chosen paths.
  pub closed_output_files-Awaits :
      (test : DirEntry → Bool) (files : List DirEntry)
      → All (Awaits (chosen test) (selected test (closed_output_files disk p files))) files
  unfolding closed_output_files
  closed_output_files-Awaits test files =
      Awaits-same test (selected test (only_prunable disk p files)) _ files
        (λ t. contains-sort_by_time test t (only_prunable disk p files))
        (only_prunable-Awaits test files)
