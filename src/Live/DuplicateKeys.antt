-- ===== src/Live/DuplicateKeys.antt =====
-- `_DuplicateKeyAccounting` of oad_parser/live/writer.py. Its in-memory table maps a key to a count
-- and is a dictionary here.
use oad_parser.Common.{ℕ, ◌+◌, Option, none, some, List, [], ◌∷◌, ◌==◌, ltb, if◌then◌else◌}
use oad_parser.Common.Text.{Text}
use oad_parser.Common.Dict.{lookup, insert}

pub record DuplicateKeyAccounting : Type 0 where
  pub duplicate_key_counts : List (Text × ℕ)
  pub unique_keys_seen : ℕ
  pub keys_with_duplicates : ℕ
  pub max_key_count : ℕ
  pub observations : ℕ
  pub last_key : Option Text
  pub last_key_count : ℕ

abbrev pub new_accounting : DuplicateKeyAccounting
new_accounting = record {
  duplicate_key_counts = [];
  unique_keys_seen = 0;
  keys_with_duplicates = 0;
  max_key_count = 0;
  observations = 0;
  last_key = none;
  last_key_count = 0;
}

-- What `register` does after it has the row: the count it writes, and the counters of keys.
abbrev pub next_count : Option ℕ → ℕ
next_count none = 1
next_count (some count) = count + 1

abbrev pub unique_after : Option ℕ → ℕ → ℕ
unique_after none unique = unique + 1
unique_after (some count) unique = unique

abbrev pub duplicated_after : Option ℕ → ℕ → ℕ
duplicated_after none duplicated = duplicated
duplicated_after (some count) duplicated = if count + 1 == 2 then duplicated + 1 else duplicated

-- The state after the call, and the count it returns.
unfoldable pub register : Text → DuplicateKeyAccounting → DuplicateKeyAccounting × ℕ
register duplicate_key s =
    let row = lookup duplicate_key s.duplicate_key_counts in
    let count = next_count row in
    (
      record {
        duplicate_key_counts = insert duplicate_key count s.duplicate_key_counts;
        unique_keys_seen = unique_after row s.unique_keys_seen;
        keys_with_duplicates = duplicated_after row s.keys_with_duplicates;
        max_key_count = if ltb s.max_key_count count then count else s.max_key_count;
        observations = s.observations + 1;
        last_key = some duplicate_key;
        last_key_count = count;
      },
      count,
    )

-- Calls in order.
unfoldable pub register_all : List Text → DuplicateKeyAccounting → DuplicateKeyAccounting
register_all [] s = s
register_all (key ∷ keys) s = register_all keys (register key s).0
