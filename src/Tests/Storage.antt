-- ===== src/Tests/Storage.antt =====
-- A directory with an active file, an old and a new closed file, for oad_parser/live/storage.py.
use oad_parser.Common.{ℕ, ◌≡◌, refl, true, List, [], ◌∷◌}
use oad_parser.Common.Text.{Text, codes, starts_with, ends_with}
use oad_parser.Common.Value.{contains_text}
use oad_parser.Live.Writer.Output.{base_name}
use oad_parser.Live.Storage.Policy.{
  DirEntry, Disk, LiveStoragePolicy, apply, prune_by_age, prune_for_high_water, prune_loop,
  closed_output_files, is_prunable, is_closed_output_file, delete_files, sort_by_time,
  insert_by_time, size_at, unlink, percent_at_least,
}
use oad_parser.Live.Storage.Deletion.{IsDirectory, total_size}
use oad_parser.Live.Storage.Pruned.{IsPruned, apply-IsPruned}

abbrev entry : Text → ℕ → ℕ → DirEntry
entry name size modified = record {
  path = name;
  name = name;
  is_file = true;
  size_bytes = size;
  modified_time_utc = modified;
}

abbrev directory : List DirEntry
directory =
    entry (codes "ecg-current.json") 50 9000000
    ∷ entry (codes "ecg-current-b.jsonl") 30 8000000
    ∷ entry (codes "ecg-current-a.jsonl") 20 1000000
    ∷ []

-- A disk of a hundred bytes that holds the directory.
abbrev disk : Disk
disk = record { resolve = λ path. path; usage = λ files. (total_size files, 100) }

abbrev policy : LiveStoragePolicy
policy = record {
  active_name = codes "ecg-current.json";
  protected_paths = codes "ecg-current.json" ∷ [];
  prune_after_seconds = 3600;
  disk_high_water_percent = 90;
  disk_critical_percent = 95;
}

directory-IsDirectory : IsDirectory directory
unfolding contains_text
directory-IsDirectory = (refl, (refl, (refl, tt)))

apply-IsPruned_example :
    IsPruned disk policy 10000000 directory
      (apply disk policy 10000000 directory).0
      (apply disk policy 10000000 directory).1
apply-IsPruned_example = apply-IsPruned disk policy 10000000 directory directory-IsDirectory

-- The disk is full, and the older of the two closed files goes.
oldest_pruned :
    (apply disk policy 10000000 directory).0.pruned_paths ≡ codes "ecg-current-a.jsonl" ∷ []
unfolding apply prune_by_age prune_for_high_water prune_loop closed_output_files is_prunable
    is_closed_output_file delete_files sort_by_time insert_by_time size_at unlink percent_at_least
    base_name contains_text starts_with ends_with
oldest_pruned = refl
