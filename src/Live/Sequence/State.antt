-- ===== src/Live/Sequence/State.antt =====
-- The state of `LiveSequenceState` of oad_parser/live/pipeline.py, and the parts of a record that it
-- reads. Its dictionaries are lists of entries, the last written first.
use oad_parser.Common.{
  ℕ, Option, none, some, List, [], ◌∷◌, ◌++◌, Bool, true, false, ◌&&◌, ◌==◌, if◌then◌else◌, map,
}
use oad_parser.Common.Int.{ℤ, pos}
use oad_parser.Common.Text.{Text, codes, strip}
use oad_parser.Common.Value.{
  Value, null, boolean, integer, Fields, end, field, Python, get, str, is_truthy, is_hashable,
  equals_key, nonempty_text,
}
use oad_parser.Detect.Record.{Floats}
use oad_parser.Live.Alerts.Evidence.{picked, same}

-- The values of a tuple, and `==` between tuples.
abbrev pub Key : Type 0
Key = List Value

unfoldable pub equals_tuple : Key → Key → Bool
equals_tuple [] [] = true
equals_tuple [] (w ∷ ws) = false
equals_tuple (v ∷ vs) [] = false
equals_tuple (v ∷ vs) (w ∷ ws) = equals_key v w && equals_tuple vs ws

-- A tuple with a list or a dictionary has no hash.
abbrev pub has_hash : Key → Bool
has_hash [] = true
has_hash (v ∷ vs) = is_hashable v && has_hash vs

abbrev pub at_key {ℓ} : {A : Type ℓ} → Key → List (Key × A) → Option A
at_key key [] = none
at_key key ((k, a) ∷ entries) =
    let rest = at_key key entries in if equals_tuple k key then some a else rest

-- `datetime.fromisoformat(text)`, where it returns, and the n-th reading of `datetime.utcnow()`, each
-- as `timestamp()` and `isoformat()`.
pub record Datetimes (fs : Floats) : Type 0 where
  pub from_iso : Text → Option (fs.Float × Text)
  pub utcnow : ℕ → fs.Float × Text

module _ (fs : Floats) where
  pub record LiveSequenceState : Type 0 where
    pub last_sequence_by_key : List (Key × ℤ)
    pub last_radar_timestamp_by_key : List (Key × fs.Float)
    pub last_router_timestamp_by_key : List (Key × fs.Float)
    pub duplicate_window_by_key : List (Key × List (fs.Float × Text))
    pub clock_reads : ℕ

  -- What a step leaves: the state, the record and its alerts.
  abbrev pub Step : Type 0
  Step = LiveSequenceState × Fields × List Fields

abbrev pub key_fields : List Text
key_fields =
    codes "source_ip"
    ∷ codes "destination_ip"
    ∷ codes "source_port"
    ∷ codes "destination_port"
    ∷ codes "artcc"
    ∷ codes "site_id"
    ∷ codes "channel"
    ∷ codes "message_code"
    ∷ []

unfoldable pub sequence_key : Fields → Key
sequence_key record' = map (λ name. get name record') key_fields

abbrev pub duplicate_key : Fields → Key
duplicate_key record' = sequence_key record'

-- `a or b`
abbrev or_value : Value → Value → Value
or_value a b = if is_truthy a then a else b

abbrev text_of_hash : Python → Value → Option Text
text_of_hash py null = none
text_of_hash py v = nonempty_text (strip (str py v))

unfoldable pub message_hash : Python → Fields → Option Text
message_hash py record' = text_of_hash py (
    or_value
      (or_value (get (codes "hash_message_sha256") record') (get (codes "fingerprint") record'))
      (get (codes "hash_payload_sha256") record'))

-- `text.replace("Z", "+00:00")`
unfoldable pub with_offset : Text → Text
with_offset [] = []
with_offset (c ∷ t) =
    let rest = with_offset t in if c == 90 then codes "+00:00" ++ rest else c ∷ rest

unfoldable pub feed_evidence : Fields → Fields
feed_evidence record' =
    picked
      (same (
        codes "source_ip"
        ∷ codes "source_port"
        ∷ codes "destination_ip"
        ∷ codes "destination_port"
        ∷ codes "artcc"
        ∷ codes "site_id"
        ∷ codes "channel"
        ∷ codes "message_code"
        ∷ []))
      record' (field (codes "message_name") (get (codes "message") record') end)

-- The number of an `int`, which a Boolean is too.
abbrev pub int_value : Value → Option ℤ
int_value (integer n) = some n
int_value (boolean true) = some (pos 1)
int_value (boolean false) = some (pos 0)
int_value _ = none
