-- ===== src/Live/Storage/Pruned.antt =====
-- What `LiveStoragePolicy.apply` of oad_parser/live/storage.py deletes, and when it lets the writer on.
use oad_parser.Common.{
  ℕ, ◌+◌, ◌≡◌, ◌⊎◌, refl, ◌∙◌, arith, Bool, true, false, not, ◌&&◌, List, [], ◌∷◌, length,
  length-append, inl, inr, if_intro, All,
}
use oad_parser.Common.Value.{contains_text}
use oad_parser.Live.Storage.Policy.{
  DirEntry, Disk, LiveStoragePolicy, StorageProtectionResult, Deletion, size_at, delete_file,
  nothing_deleted, selected, is_closed_output_file, is_prunable, only_prunable, closed_output_files,
  is_expired, is_high, prune_by_age, prune_loop, prune_for_high_water, result_of, both, apply,
}
use oad_parser.Live.Storage.Deletion.{
  total_size, IsDirectory, Keeps, AllHold, Awaits, others, delete_found-All, delete_found-AllHold,
  delete_found-IsDirectory, delete_file-Keeps, delete_file-Awaits, delete_files-Keeps,
  delete_files-Awaits,
}
use oad_parser.Live.Storage.Candidates.{
  chosen, closed_output_files-AllHold, closed_output_files-Awaits,
}

module _ (disk : Disk) (p : LiveStoragePolicy) where
  abbrev prunable : DirEntry → Bool
  prunable e = is_prunable disk p e

  abbrev every : DirEntry → Bool
  every e = true

  -- Only closed output files that are not protected are deleted.
  abbrev pub is_deletable : DirEntry → Bool
  is_deletable e =
      e.is_file
      && not (contains_text (disk.resolve e.path) p.protected_paths)
      && is_closed_output_file disk p e.name

  -- A closed file that is older than the limit.
  abbrev pub is_overdue : ℕ → DirEntry → Bool
  is_overdue now = chosen disk p (is_expired disk p now)

  abbrev pub IsKept : ℕ → DirEntry → Type 0
  IsKept now e = is_overdue now e ≡ false

  -- The directory before and after, and the result.
  pub record IsPruned (now : ℕ) (files : List DirEntry) (r : StorageProtectionResult)
      (left : List DirEntry) : Type 0 where
    pub bytes : total_size files ≡ total_size left + r.bytes_pruned
    pub count : length files ≡ length left + r.files_pruned
    pub same_others : others is_deletable left ≡ others is_deletable files
    pub no_overdue : All (IsKept now) left
    pub blocked : (r.writer_blocked ≡ false) ⊎ (only_prunable disk p left ≡ [])

  prune_loop-Keeps :
      (files items : List DirEntry) (d : Deletion)
      → AllHold prunable (selected every items) d.left
      → Keeps prunable files d
      → Keeps prunable files (prune_loop disk p items d)
  unfolding prune_loop
  prune_loop-Keeps files [] d holds k = k
  prune_loop-Keeps files (e ∷ items) d (first, holds) k =
      if_intro (Keeps prunable files) (not (is_high disk p d.left)) _ _ (λ _. k)
        λ _.
          prune_loop-Keeps files items (delete_file e.path d)
            (delete_found-AllHold prunable (selected every items) e.path d (size_at e.path d.left)
              holds)
            (delete_file-Keeps prunable files e.path d first k)

  prune_loop-All :
      (P : DirEntry → Type 0) (items : List DirEntry) (d : Deletion)
      → All P d.left
      → All P (prune_loop disk p items d).left
  unfolding prune_loop
  prune_loop-All P [] d h = h
  prune_loop-All P (e ∷ items) d h =
      if_intro (λ (r : Deletion). All P r.left) (not (is_high disk p d.left)) _ _ (λ _. h)
        λ _.
          prune_loop-All P items (delete_file e.path d)
            (delete_found-All prunable P e.path d (size_at e.path d.left) h)

  abbrev IsDone : Deletion → Type 0
  IsDone d = (is_high disk p d.left ≡ false) ⊎ All (Awaits (chosen disk p every) []) d.left

  prune_loop-IsDone :
      (items : List DirEntry) (d : Deletion)
      → IsDirectory d.left
      → All (Awaits (chosen disk p every) (selected every items)) d.left
      → IsDone (prune_loop disk p items d)
  unfolding prune_loop
  prune_loop-IsDone [] d directory h = inr h
  prune_loop-IsDone (e ∷ items) d directory h =
      if_intro IsDone (not (is_high disk p d.left)) _ _ (λ low. inl (ground (arith, low)))
        λ _.
          prune_loop-IsDone items (delete_file e.path d)
            (delete_found-IsDirectory e.path d (size_at e.path d.left) directory)
            (delete_file-Awaits (chosen disk p every) e.path (selected every items) d directory h)

  none_prunable :
      (files : List DirEntry)
      → All (Awaits (chosen disk p every) []) files
      → only_prunable disk p files ≡ []
  unfolding contains_text
  none_prunable [] h = refl
  none_prunable (f ∷ files) (first, h) = ground (arith, none_prunable files h)

  none_overdue :
      (now : ℕ) (files : List DirEntry)
      → All (Awaits (is_overdue now) []) files
      → All (IsKept now) files
  unfolding contains_text
  none_overdue now [] h = tt
  none_overdue now (f ∷ files) (first, h) = (ground arith, none_overdue now files h)

  started :
      (files : List DirEntry) → IsDirectory files → Keeps prunable files (nothing_deleted files)
  started files d = record {
    counted = record { bytes = omega arith; count = omega arith };
    directory = d;
    same_others = refl;
  }

  prune_by_age-Keeps :
      (now : ℕ) (files : List DirEntry)
      → IsDirectory files
      → Keeps prunable files (prune_by_age disk p now files)
        × All (IsKept now) (prune_by_age disk p now files).left
  unfolding prune_by_age
  prune_by_age-Keeps now files d =
      let test = is_expired disk p now in
      (
        delete_files-Keeps prunable files (selected test (closed_output_files disk p files))
            (nothing_deleted files) (closed_output_files-AllHold disk p test files d)
            (started files d),
        none_overdue now _ (
            delete_files-Awaits (is_overdue now) (selected test (closed_output_files disk p files))
              (nothing_deleted files) d (closed_output_files-Awaits disk p test files)),
      )

  prune_for_high_water-Keeps :
      (files : List DirEntry)
      → IsDirectory files
      → Keeps prunable files (prune_for_high_water disk p files)
        × IsDone (prune_for_high_water disk p files)
  unfolding prune_for_high_water
  prune_for_high_water-Keeps files d =
      let items = closed_output_files disk p files in
      (
        prune_loop-Keeps files items (nothing_deleted files)
            (closed_output_files-AllHold disk p every files d) (started files d),
        prune_loop-IsDone items (nothing_deleted files) d
            (closed_output_files-Awaits disk p every files),
      )

  prune_for_high_water-All :
      (P : DirEntry → Type 0) (files : List DirEntry)
      → All P files
      → All P (prune_for_high_water disk p files).left
  unfolding prune_for_high_water
  prune_for_high_water-All P files h =
      prune_loop-All P (closed_output_files disk p files) (nothing_deleted files) h

  aged-IsPruned :
      (now : ℕ) (files : List DirEntry) (d : Deletion)
      → Keeps prunable files d
      → All (IsKept now) d.left
      → is_high disk p d.left ≡ false
      → IsPruned now files (result_of disk p d).0 d.left
  unfolding is_prunable
  aged-IsPruned now files d k kept low = record {
    bytes = k.counted.bytes;
    count = k.counted.count;
    same_others = k.same_others;
    no_overdue = kept;
    blocked = inl low;
  }

  high-IsPruned :
      (now : ℕ) (files : List DirEntry) (aged high : Deletion)
      → Keeps prunable files aged
      → Keeps prunable aged.left high
      → All (IsKept now) high.left
      → IsDone high
      → IsPruned now files (result_of disk p (both disk p aged high)).0 high.left
  unfolding is_prunable
  high-IsPruned now files aged high k k' kept done = record {
    bytes = omega (arith, k.counted.bytes, k'.counted.bytes);
    count = omega (
      arith,
      k.counted.count,
      k'.counted.count,
      length-append aged.deleted_paths high.deleted_paths,
    );
    same_others = k'.same_others ∙ k.same_others;
    no_overdue = kept;
    blocked = unblocked high.left done;
  }
    where
      unblocked :
          (left : List DirEntry)
          → (is_high disk p left ≡ false) ⊎ All (Awaits (chosen disk p every) []) left
          → (is_high disk p left ≡ false) ⊎ (only_prunable disk p left ≡ [])
      unblocked left (inl low) = inl low
      unblocked left (inr rest) = inr (none_prunable left rest)

  -- In a directory whose paths differ, `apply` deletes only closed output files that are not protected:
  -- every other entry is still there, in order. The result counts the deleted files and bytes exactly;
  -- no closed file older than the limit is left; and if the writer is blocked, no closed file that
  -- could be deleted is left.
  pub apply-IsPruned :
      (now : ℕ) (files : List DirEntry)
      → IsDirectory files
      → IsPruned now files (apply disk p now files).0 (apply disk p now files).1
  unfolding apply
  apply-IsPruned now files d =
      let aged = prune_by_age disk p now files in
      let (k, kept) = prune_by_age-Keeps now files d in
      let (k', done) = prune_for_high_water-Keeps aged.left k.directory in
      if_intro (λ (r : StorageProtectionResult × List DirEntry). IsPruned now files r.0 r.1)
        (is_high disk p aged.left) _ _
        (λ _.
          high-IsPruned now files aged (prune_for_high_water disk p aged.left) k k'
            (prune_for_high_water-All (IsKept now) aged.left kept) done)
        λ low. aged-IsPruned now files aged k kept low
