-- ===== src/Live/Storage/Policy.antt =====
-- `LiveStoragePolicy` of oad_parser/live/storage.py. The state is the output directory, whose files are
-- in the order of `iterdir`; the disk usage is a parameter that depends on them. Times are in
-- microseconds. The quotient `used / total` is kept as the two numbers.
use oad_parser.Common.{
  ℕ, ◌+◌, ◌*◌, Bool, not, ◌&&◌, ◌||◌, Option, none, some, List, [], ◌∷◌, ◌++◌, ltb, leb, length,
  ◌==◌, if◌then◌else◌, Result, ok, value_error, raise_if, ◌>>◌,
}
use oad_parser.Common.Int.{ℤ, pos, pos_part, ltb_ℤ, leb_ℤ}
use oad_parser.Common.Text.{Text, codes, starts_with, ends_with}
use oad_parser.Common.Dict.{equals_text}
use oad_parser.Common.Value.{contains_text}
use oad_parser.Live.Writer.Output.{base_name}

pub record DirEntry : Type 0 where
  pub path : Text
  pub name : Text
  pub is_file : Bool
  pub size_bytes : ℕ
  pub modified_time_utc : ℕ

-- The protected paths are resolved.
pub record LiveStoragePolicy : Type 0 where
  pub active_name : Text
  pub protected_paths : List Text
  pub prune_after_seconds : ℕ
  pub disk_high_water_percent : ℕ
  pub disk_critical_percent : ℕ

-- `path.resolve()`, and `shutil.disk_usage` of the directory: the bytes in use, and all bytes.
pub record Disk : Type 0 where
  pub resolve : Text → Text
  pub usage : List DirEntry → ℕ × ℕ

pub record StorageProtectionResult : Type 0 where
  pub disk_usage_percent : ℕ × ℕ
  pub files_pruned : ℕ
  pub bytes_pruned : ℕ
  pub writer_blocked : Bool
  pub critical : Bool
  pub pruned_paths : List Text

abbrev is_no_percent : ℤ → Bool
is_no_percent n = ltb_ℤ n (pos 0) || ltb_ℤ (pos 100) n

unfoldable pub new_policy : Text → List Text → ℤ → ℤ → ℤ → Result LiveStoragePolicy
new_policy active_name protected_paths prune_after high_water critical = do
  raise_if (ltb_ℤ prune_after (pos 0)) (value_error "prune_after_seconds must be >= 0")
  raise_if (is_no_percent high_water)
      (value_error "disk_high_water_percent must be between 0 and 100")
  raise_if (is_no_percent critical) (value_error "disk_critical_percent must be between 0 and 100")
  raise_if (leb_ℤ critical high_water)
      (value_error "disk_critical_percent must be greater than disk_high_water_percent")
  ok (record {
    active_name = active_name;
    protected_paths = protected_paths;
    prune_after_seconds = pos_part prune_after;
    disk_high_water_percent = pos_part high_water;
    disk_critical_percent = pos_part critical;
  })

-- percent >= n, where a disk of no size counts as full
unfoldable pub percent_at_least : ℕ × ℕ → ℕ → Bool
percent_at_least (used, total) n = if total == 0 then leb n 100 else leb (n * total) (used * 100)

unfoldable pub insert_by_time : DirEntry → List DirEntry → List DirEntry
insert_by_time e [] = e ∷ []
insert_by_time e (f ∷ files) =
    let rest = insert_by_time e files in
    if leb e.modified_time_utc f.modified_time_utc then e ∷ f ∷ files else f ∷ rest

-- A stable sort.
unfoldable pub sort_by_time : List DirEntry → List DirEntry
unfolding insert_by_time
sort_by_time [] = []
sort_by_time (e ∷ files) = insert_by_time e (sort_by_time files)

-- `_delete_files`: the deleted paths, their bytes, and the files that are left. A path that is not
-- there is passed over.
pub record Deletion : Type 0 where
  pub deleted_paths : List Text
  pub deleted_bytes : ℕ
  pub left : List DirEntry

unfoldable pub size_at : Text → List DirEntry → Option ℕ
size_at path [] = none
size_at path (e ∷ files) =
    let rest = size_at path files in if equals_text e.path path then some e.size_bytes else rest

unfoldable pub unlink : Text → List DirEntry → List DirEntry
unlink path [] = []
unlink path (e ∷ files) =
    let rest = unlink path files in if equals_text e.path path then files else e ∷ rest

abbrev pub delete_found : Text → Option ℕ → Deletion → Deletion
delete_found path none d = d
delete_found path (some size) d = record {
  deleted_paths = d.deleted_paths ++ (path ∷ []);
  deleted_bytes = d.deleted_bytes + size;
  left = unlink path d.left;
}

abbrev pub delete_file : Text → Deletion → Deletion
delete_file path d = delete_found path (size_at path d.left) d

unfoldable pub delete_files : List Text → Deletion → Deletion
unfolding size_at unlink
delete_files [] d = d
delete_files (path ∷ paths) d = delete_files paths (delete_file path d)

abbrev pub nothing_deleted : List DirEntry → Deletion
nothing_deleted files = record { deleted_paths = []; deleted_bytes = 0; left = files }

-- The paths of the files that pass a test.
abbrev pub selected : (DirEntry → Bool) → List DirEntry → List Text
selected test [] = []
selected test (e ∷ files) = let rest = selected test files in if test e then e.path ∷ rest else rest

module _ (disk : Disk) (p : LiveStoragePolicy) where
  unfoldable pub is_closed_output_file : Text → Bool
  is_closed_output_file name =
      starts_with name (base_name p.active_name ++ codes "-") && ends_with name (codes ".jsonl")

  -- What `closed_output_files` keeps of the directory.
  unfoldable pub is_prunable : DirEntry → Bool
  is_prunable e =
      e.is_file
      && not (contains_text (disk.resolve e.path) p.protected_paths)
      && is_closed_output_file e.name

  abbrev pub only_prunable : List DirEntry → List DirEntry
  only_prunable [] = []
  only_prunable (e ∷ files) =
      let rest = only_prunable files in if is_prunable e then e ∷ rest else rest

  unfoldable pub closed_output_files : List DirEntry → List DirEntry
  closed_output_files files = sort_by_time (only_prunable files)

  abbrev pub is_expired : ℕ → DirEntry → Bool
  is_expired now e = ltb (e.modified_time_utc + p.prune_after_seconds * 1000000) now

  abbrev pub expired_paths : ℕ → List DirEntry → List Text
  expired_paths now files = selected (is_expired now) files

  unfoldable pub prune_by_age : ℕ → List DirEntry → Deletion
  prune_by_age now files =
      delete_files (expired_paths now (closed_output_files files)) (nothing_deleted files)

  abbrev pub is_high : List DirEntry → Bool
  is_high files = percent_at_least (disk.usage files) p.disk_high_water_percent

  -- The loop stops as soon as the disk is below the high water mark.
  unfoldable pub prune_loop : List DirEntry → Deletion → Deletion
  prune_loop [] d = d
  prune_loop (e ∷ items) d =
      let rest = prune_loop items (delete_file e.path d) in if not (is_high d.left) then d else rest

  unfoldable pub prune_for_high_water : List DirEntry → Deletion
  prune_for_high_water files = prune_loop (closed_output_files files) (nothing_deleted files)

  abbrev pub result_of : Deletion → StorageProtectionResult × List DirEntry
  result_of d =
      let percent = disk.usage d.left in
      (
        record {
          disk_usage_percent = percent;
          files_pruned = length d.deleted_paths;
          bytes_pruned = d.deleted_bytes;
          writer_blocked = percent_at_least percent p.disk_high_water_percent;
          critical = percent_at_least percent p.disk_critical_percent;
          pruned_paths = d.deleted_paths;
        },
        d.left,
      )

  abbrev pub both : Deletion → Deletion → Deletion
  both first second = record {
    deleted_paths = first.deleted_paths ++ second.deleted_paths;
    deleted_bytes = first.deleted_bytes + second.deleted_bytes;
    left = second.left;
  }

  unfoldable pub apply : ℕ → List DirEntry → StorageProtectionResult × List DirEntry
  apply now files =
      let aged = prune_by_age now files in
      if is_high aged.left
      then result_of (both aged (prune_for_high_water aged.left))
      else result_of aged
