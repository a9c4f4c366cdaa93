-- ===== src/Live/Storage/Deletion.antt =====
-- What deleting by path does to the directory of oad_parser/live/storage.py.
use oad_parser.Common.{
  ℕ, ◌+◌, ◌≡◌, refl, ◌∙◌, arith, Bool, false, not, ◌&&◌, Option, none, some, List, [], ◌∷◌, length,
  length-append, if◌then◌else◌, if_intro, All, subst,
}
use oad_parser.Common.Text.{Text}
use oad_parser.Common.Dict.{equals_text, equals_text→≡, equals_text_comm}
use oad_parser.Common.Value.{contains_text}
use oad_parser.Live.Storage.Policy.{
  DirEntry, Deletion, size_at, unlink, delete_found, delete_file, delete_files,
}

abbrev pub total_size : List DirEntry → ℕ
total_size [] = 0
total_size (e ∷ files) = e.size_bytes + total_size files

abbrev pub paths_of : List DirEntry → List Text
paths_of [] = []
paths_of (e ∷ files) = e.path ∷ paths_of files

-- No two entries of the directory have one path.
abbrev pub IsDirectory : List DirEntry → Type 0
IsDirectory [] = Unit
IsDirectory (e ∷ files) = (contains_text e.path (paths_of files) ≡ false) × IsDirectory files

-- The deletions so far, from the directory at the start.
pub record IsCounted (files : List DirEntry) (d : Deletion) : Type 0 where
  pub bytes : total_size files ≡ total_size d.left + d.deleted_bytes
  pub count : length files ≡ length d.left + length d.deleted_paths

size-unlink :
    (path : Text) (files : List DirEntry) (size : ℕ)
    → size_at path files ≡ some size
    → (total_size files ≡ total_size (unlink path files) + size)
      × (length files ≡ length (unlink path files) + 1)
unfolding size_at unlink
size-unlink path [] size e = absurd (cc e)
size-unlink path (f ∷ files) size e = ground (arith, size-unlink path files size)

contains-unlink :
    (path other : Text) (files : List DirEntry)
    → contains_text other (paths_of files) ≡ false
    → contains_text other (paths_of (unlink path files)) ≡ false
unfolding unlink contains_text
contains-unlink path other [] h = h
contains-unlink path other (f ∷ files) h = ground (arith, contains-unlink path other files)

IsDirectory-unlink :
    (path : Text) (files : List DirEntry) → IsDirectory files → IsDirectory (unlink path files)
unfolding unlink
IsDirectory-unlink path [] d = tt
IsDirectory-unlink path (f ∷ files) (new, d) =
    if_intro IsDirectory (equals_text f.path path) _ _ (λ _. d)
      λ _. (contains-unlink path f.path files new, IsDirectory-unlink path files d)

All-unlink {ℓ} :
    (P : DirEntry → Type ℓ) (path : Text) (files : List DirEntry)
    → All P files
    → All P (unlink path files)
unfolding unlink
All-unlink P path [] h = h
All-unlink P path (f ∷ files) (first, h) =
    if_intro (All P) (equals_text f.path path) _ _ (λ _. h) λ _. (first, All-unlink P path files h)

module _ (q : DirEntry → Bool) where
  -- Every entry of the kind stands at one of the paths that are still to be deleted.
  abbrev pub Awaits : List Text → DirEntry → Type 0
  Awaits paths e = (q e && not (contains_text e.path paths)) ≡ false

  -- No entry at the path is of another kind.
  abbrev pub Holds : Text → DirEntry → Type 0
  Holds path e = (equals_text e.path path && not (q e)) ≡ false

  abbrev pub others : List DirEntry → List DirEntry
  others [] = []
  others (e ∷ files) = let rest = others files in if q e then rest else e ∷ rest

  Awaits-other :
      (path : Text) (paths : List Text) (e : DirEntry)
      → equals_text e.path path ≡ false
      → Awaits (path ∷ paths) e
      → Awaits paths e
  unfolding contains_text
  Awaits-other path paths e differs h = ground (arith, equals_text_comm e.path path)

  -- Behind the entry that was unlinked no other has its path.
  Awaits-absent :
      (path : Text) (paths : List Text) (files : List DirEntry)
      → contains_text path (paths_of files) ≡ false
      → All (Awaits (path ∷ paths)) files
      → All (Awaits paths) files
  unfolding contains_text
  Awaits-absent path paths [] absent h = tt
  Awaits-absent path paths (f ∷ files) absent (first, h) = (
    Awaits-other path paths f (ground arith) first,
    Awaits-absent path paths files (ground arith) h,
  )

  pub Awaits-unlink :
      (path : Text) (paths : List Text) (files : List DirEntry)
      → IsDirectory files
      → All (Awaits (path ∷ paths)) files
      → All (Awaits paths) (unlink path files)
  unfolding unlink
  Awaits-unlink path paths [] d h = tt
  Awaits-unlink path paths (f ∷ files) (new, d) (first, h) =
      if_intro (All (Awaits paths)) (equals_text f.path path) _ _
        (λ same.
          Awaits-absent path paths files
            (subst (λ t. contains_text t (paths_of files) ≡ false) (equals_text→≡ f.path path same)
              new)
            h)
        λ differs. (Awaits-other path paths f differs first, Awaits-unlink path paths files d h)

  pub others-unlink :
      (path : Text) (files : List DirEntry)
      → All (Holds path) files
      → others (unlink path files) ≡ others files
  unfolding unlink
  others-unlink path [] h = refl
  others-unlink path (f ∷ files) (first, h) = ground (arith, others-unlink path files h)

  -- What deletions keep to: the sums, and the entries of another kind.
  pub record Keeps (files : List DirEntry) (d : Deletion) : Type 0 where
    pub counted : IsCounted files d
    pub directory : IsDirectory d.left
    pub same_others : others d.left ≡ others files

  -- The path is not there, so no entry waits for it.
  Awaits-missing :
      (path : Text) (paths : List Text) (files : List DirEntry)
      → size_at path files ≡ none
      → All (Awaits (path ∷ paths)) files
      → All (Awaits paths) files
  unfolding size_at
  Awaits-missing path paths [] e h = tt
  Awaits-missing path paths (f ∷ files) e (first, h) = (
    Awaits-other path paths f (ground arith) first,
    Awaits-missing path paths files (ground arith) h,
  )

  delete_found-Awaits :
      (path : Text) (paths : List Text) (d : Deletion) (size : Option ℕ)
      → size_at path d.left ≡ size
      → IsDirectory d.left
      → All (Awaits (path ∷ paths)) d.left
      → All (Awaits paths) (delete_found path size d).left
  delete_found-Awaits path paths d none e directory h = Awaits-missing path paths d.left e h
  delete_found-Awaits path paths d (some size) e directory h =
      Awaits-unlink path paths d.left directory h

  delete_found-Keeps :
      (files : List DirEntry) (path : Text) (d : Deletion) (size : Option ℕ)
      → size_at path d.left ≡ size
      → All (Holds path) d.left
      → Keeps files d
      → Keeps files (delete_found path size d)
  delete_found-Keeps files path d none e holds k = k
  delete_found-Keeps files path d (some size) e holds k =
      let (bytes, count) = size-unlink path d.left size e in
      let one = length-append d.deleted_paths (path ∷ []) in
      record {
        counted = record {
          bytes = omega (arith, bytes, k.counted.bytes);
          count = omega (arith, count, k.counted.count, one);
        };
        directory = IsDirectory-unlink path d.left k.directory;
        same_others = others-unlink path d.left holds ∙ k.same_others;
      }

  pub delete_found-All {ℓ} :
      (P : DirEntry → Type ℓ) (path : Text) (d : Deletion) (size : Option ℕ)
      → All P d.left
      → All P (delete_found path size d).left
  delete_found-All P path d none h = h
  delete_found-All P path d (some size) h = All-unlink P path d.left h

  -- Each of the paths is the path of entries of the kind only.
  abbrev pub AllHold : List Text → List DirEntry → Type 0
  AllHold [] files = Unit
  AllHold (path ∷ paths) files = All (Holds path) files × AllHold paths files

  pub delete_found-AllHold :
      (paths : List Text) (path : Text) (d : Deletion) (size : Option ℕ)
      → AllHold paths d.left
      → AllHold paths (delete_found path size d).left
  delete_found-AllHold [] path d size h = tt
  delete_found-AllHold (other ∷ paths) path d size (first, h) =
      (delete_found-All (Holds other) path d size first, delete_found-AllHold paths path d size h)

  pub delete_file-Keeps :
      (files : List DirEntry) (path : Text) (d : Deletion)
      → All (Holds path) d.left
      → Keeps files d
      → Keeps files (delete_file path d)
  delete_file-Keeps files path d holds k =
      delete_found-Keeps files path d (size_at path d.left) refl holds k

  pub delete_file-Awaits :
      (path : Text) (paths : List Text) (d : Deletion)
      → IsDirectory d.left
      → All (Awaits (path ∷ paths)) d.left
      → All (Awaits paths) (delete_file path d).left
  delete_file-Awaits path paths d directory h =
      delete_found-Awaits path paths d (size_at path d.left) refl directory h

  pub delete_files-Keeps :
      (files : List DirEntry) (paths : List Text) (d : Deletion)
      → AllHold paths d.left
      → Keeps files d
      → Keeps files (delete_files paths d)
  unfolding delete_files
  delete_files-Keeps files [] d holds k = k
  delete_files-Keeps files (path ∷ paths) d (first, holds) k =
      delete_files-Keeps files paths (delete_file path d)
        (delete_found-AllHold paths path d (size_at path d.left) holds)
        (delete_file-Keeps files path d first k)

pub delete_found-IsDirectory :
    (path : Text) (d : Deletion) (size : Option ℕ)
    → IsDirectory d.left
    → IsDirectory (delete_found path size d).left
delete_found-IsDirectory path d none h = h
delete_found-IsDirectory path d (some size) h = IsDirectory-unlink path d.left h

module _ (q : DirEntry → Bool) where
  pub delete_files-Awaits :
      (paths : List Text) (d : Deletion)
      → IsDirectory d.left
      → All (Awaits q paths) d.left
      → All (Awaits q []) (delete_files paths d).left
  unfolding delete_files
  delete_files-Awaits [] d directory h = h
  delete_files-Awaits (path ∷ paths) d directory h =
      delete_files-Awaits paths (delete_file path d)
        (delete_found-IsDirectory path d (size_at path d.left) directory)
        (delete_file-Awaits q path paths d directory h)
