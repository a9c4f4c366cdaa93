-- ===== src/Live/Writer/Output.antt =====
-- The active file of `RotatingJsonlWriter` of oad_parser/live/writer.py and its rotation. The state is
-- the directory of the active file; times are in microseconds, and the clock's `k`-th reading is the
-- parameter `now k`. The `k`-th call among `mkdir`, `os.replace`, `open` and `write` raises `OSError` if
-- `faults k` is some number: that of the bytes of the line that a `write` that raises has put into the
-- file. The calls that only look (`exists`, `stat`) are taken not to raise.
use oad_parser.Common.{
  ℕ, zero, suc, ◌+◌, ◌-◌, ◌*◌, Bool, true, false, not, ◌&&◌, ◌||◌, Option, none, some, List, [],
  ◌∷◌, ◌++◌, ltb, leb, length, take, replicate, if◌then◌else◌, Result, ok, err, runtime_error,
  os_error,
}
use oad_parser.Common.Text.{Text, codes, decimal, ends_with, before}
use oad_parser.Common.Dict.{equals_text}
use mathlib.Core.List.{reverse}

-- `now_fn`, `_format_utc_rotation_timestamp` and `_format_iso_utc` of a time, and the calls that fail.
pub record System : Type 0 where
  pub now : ℕ → ℕ
  pub stamp : ℕ → Text
  pub iso : ℕ → Text
  pub faults : ℕ → Option ℕ

pub record OutputSettings : Type 0 where
  pub active_name : Text
  pub rotate_seconds : ℕ
  pub rotate_max_bytes : ℕ
  pub rotation_enabled : Bool

-- The active file, the other files of its directory in the order in which they came, how often the
-- clock was read and the file system was called, and since when the active file is active.
pub record Output : Type 0 where
  pub active : Option (List ℕ)
  pub closed : List (Text × List ℕ)
  pub clock_reads : ℕ
  pub system_calls : ℕ
  pub active_started_at_utc : ℕ

-- The path of the active file, which never changes, is left out; a rotated file is given by its name.
pub record JsonlWriteResult : Type 0 where
  pub bytes_written : ℕ
  pub rotated_path : Option Text

abbrev pub content_of : Option (List ℕ) → List ℕ
content_of none = []
content_of (some bytes) = bytes

-- A file that is not there has the size 0.
abbrev pub active_file_size : Output → ℕ
active_file_size o = length (content_of o.active)

abbrev pub active_file_has_content : Output → Bool
active_file_has_content o = ltb 0 (active_file_size o)

abbrev pub has_name : Text → List (Text × List ℕ) → Bool
has_name name [] = false
has_name name ((k, bytes) ∷ files) = equals_text k name || has_name name files

abbrev pub is_some {ℓ} : {A : Type ℓ} → Option A → Bool
is_some none = false
is_some (some a) = true

-- The files without the one of this name.
abbrev pub without : Text → List (Text × List ℕ) → List (Text × List ℕ)
without name [] = []
without name ((k, bytes) ∷ files) =
    let rest = without name files in if equals_text k name then rest else (k, bytes) ∷ rest

-- candidate.exists()
abbrev pub name_exists : OutputSettings → Output → Text → Bool
name_exists s o name =
    (is_some o.active && equals_text s.active_name name) || has_name name o.closed

-- The name before its last dot; a dot at either end is no suffix.
abbrev stem_from : Text → Text → Text
stem_from name suffix =
    let keep = length name - length suffix - 1 in
    if ltb 0 (length suffix) && ltb 0 keep then take keep name else name

abbrev stem : Text → Text
stem name = stem_from name (reverse (before 46 (reverse name)))

unfoldable pub base_name : Text → Text
base_name name = if ends_with name (codes ".json") then take (length name - 5) name else stem name

-- "%04d" % index
abbrev pub four_digits : ℕ → Text
four_digits index = let digits = decimal index in replicate (4 - length digits) 48 ++ digits

unfoldable pub first_candidate : Text → Text → Text
first_candidate base timestamp = base ++ (45 ∷ timestamp ++ codes ".jsonl")

unfoldable pub indexed_candidate : Text → Text → ℕ → Text
indexed_candidate base timestamp index =
    base ++ (45 ∷ timestamp ++ (45 ∷ four_digits index ++ codes ".jsonl"))

-- The loop over `range(index, 10000)`, with that many rounds left.
unfoldable pub allocate_loop : (Text → Bool) → (ℕ → Text) → ℕ → ℕ → Result Text
allocate_loop exists candidate zero index =
    err (runtime_error "could not allocate rotated JSONL filename")
allocate_loop exists candidate (suc rounds) index =
    let rest = allocate_loop exists candidate rounds (index + 1) in
    if not (exists (candidate index)) then ok (candidate index) else rest

unfoldable pub allocate : (Text → Bool) → Text → (ℕ → Text) → Result Text
allocate exists first candidate =
    if not (exists first) then ok first else allocate_loop exists candidate 9999 1

module _ (system : System) (s : OutputSettings) where
  unfoldable pub next_rotated_path : Output → ℕ → Result Text
  next_rotated_path o rotation_time =
      let base = base_name s.active_name in
      let timestamp = system.stamp rotation_time in
      allocate (name_exists s o) (first_candidate base timestamp) (indexed_candidate base timestamp)

  -- A reading of the clock.
  abbrev pub read_clock : Output → Output × ℕ
  read_clock o = (record o { clock_reads = o.clock_reads + 1 }, system.now o.clock_reads)

  -- self._active_started_at_utc = self._now_fn()
  abbrev pub restart_age : Output → Output
  restart_age o = let (read, now) = read_clock o in record read { active_started_at_utc = now }

  -- A call of the file system that raises, or after which the next statements run.
  abbrev pub called : Output → Output
  called o = record o { system_calls = o.system_calls + 1 }

  abbrev pub attempted {ℓ} :
      {A : Type ℓ} → Option ℕ → Output → (Output → Output × Result A) → Output × Result A
  attempted (some front) o next = (called o, err os_error)
  attempted none o next = next (called o)

  abbrev pub attempt {ℓ} : {A : Type ℓ} → Output → (Output → Output × Result A) → Output × Result A
  attempt o next = attempted (system.faults o.system_calls) o next

  -- os.replace(active, rotated): a file of that name is lost; the active file's own name changes nothing.
  abbrev pub moved : Output → Text → Output
  moved o name = if equals_text s.active_name name then o else record o {
    active = none;
    closed = without name o.closed ++ ((name, content_of o.active) ∷ []);
  }

  -- mkdir, os.replace and a new start.
  abbrev pub replaced : Output → Result Text → Output × Result (Option Text)
  replaced o (err raised) = (o, err raised)
  replaced o (ok name) =
      attempt o (λ made. attempt made (λ done. (restart_age (moved done name), ok (some name))))

  abbrev pub rotation_time_of : Option ℕ → Output → Output × ℕ
  rotation_time_of (some t) o = (o, t)
  rotation_time_of none o = read_clock o

  unfoldable pub rotate_active_file : Option ℕ → Output → Output × Result (Option Text)
  rotate_active_file rotation_time o =
      let (timed, t) = rotation_time_of rotation_time o in
      if not (active_file_has_content o)
      then (restart_age o, ok none)
      else replaced timed (next_rotated_path timed t)

  unfoldable pub rotate_if_needed : ℕ → Output → Output × Result (Option Text)
  rotate_if_needed next_write_size o =
      let (read, now) = read_clock o in
      let size = active_file_size o in
      if not s.rotation_enabled
      then (o, ok none)
      else if active_file_has_content o
          && leb (o.active_started_at_utc + s.rotate_seconds * 1000000) now
      then rotate_active_file (some now) read
      else if ltb 0 size && ltb s.rotate_max_bytes (size + next_write_size)
      then rotate_active_file (some now) read
      else (read, ok none)

  -- The open file with these bytes more.
  abbrev pub extended : Output → List ℕ → Output
  extended o bytes = record (called o) { active = some (content_of o.active ++ bytes) }

  -- handle.write(payload), and the result of a write that returns.
  abbrev pub written : Option ℕ → List ℕ → Option Text → Output → Output × Result JsonlWriteResult
  written (some front) payload rotated o = (extended o (take front payload), err os_error)
  written none payload rotated o =
      (extended o payload, ok (record { bytes_written = length payload; rotated_path = rotated }))

  abbrev pub write : List ℕ → Option Text → Output → Output × Result JsonlWriteResult
  write payload rotated o = written (system.faults o.system_calls) payload rotated o

  abbrev pub append_payload :
      List ℕ → Output × Result (Option Text) → Output × Result JsonlWriteResult
  append_payload payload (o, err raised) = (o, err raised)
  append_payload payload (o, ok rotated) =
      attempt o (λ made. attempt made (λ opened. write payload rotated opened))

  -- The part of `_write_encoded_record` behind `json.dumps`.
  unfoldable pub write_payload : List ℕ → Output → Output × Result JsonlWriteResult
  write_payload payload o = append_payload payload (rotate_if_needed (length payload) o)
