-- ===== src/Live/Writer/Warnings.antt =====
-- The parse warnings of a record in oad_parser/live/writer.py: which dictionaries are warnings, and
-- which of them apply to the record.
use oad_parser.Common.{
  Bool, true, false, not, ◌&&◌, ◌||◌, Option, none, some, List, [], ◌∷◌, if◌then◌else◌, Result, ok,
  err, ◌>>=◌, type_error,
}
use oad_parser.Common.Text.{Text, codes, strip, contains_char, after_last}
use oad_parser.Common.Dict.{equals_text}
use oad_parser.Common.Value.{
  Value, sequence, Fields, Python, get, put, mappings_of, mappings, clean_str, is_text,
  nonempty_text, is_hashable, equals_key,
}

unfoldable pub warning_dicts : Value → List Fields
unfolding mappings_of
warning_dicts (sequence items) = mappings_of items
warning_dicts _ = []

module _ (py : Python) where
  abbrev candidate_code : Option Text → Option Text
  candidate_code none = none
  candidate_code (some message) =
      if contains_char 58 message then nonempty_text (strip (after_last 58 message)) else none

  unfoldable pub unknown_message_code_from_warning : Fields → Option Text
  unknown_message_code_from_warning warning =
      candidate_code (clean_str py (get (codes "message") warning))

  -- `_clean_str(record.get(key))`, or of the other key if that is `None`
  abbrev pub first_text : Option Text → Option Text → Option Text
  first_text none other = other
  first_text (some t) other = some t

  abbrev same_code : Option Text → Option Text → Bool
  same_code none record_code = true
  same_code (some t) none = true
  same_code (some t) (some u) = equals_text t u

  unfoldable pub parse_warning_applies_to_record : Fields → Fields → Bool
  unfolding unknown_message_code_from_warning
  parse_warning_applies_to_record record' warning =
      let code = clean_str py (get (codes "code") warning) in
      let name =
        first_text (clean_str py (get (codes "message") record'))
          (clean_str py (get (codes "cd2.message.name") record')) in
      let record_code =
        first_text (clean_str py (get (codes "message_code") record'))
          (clean_str py (get (codes "cd2.message.code") record')) in
      if not (is_text code (codes "unknown_message_code"))
      then true
      else (is_text name (codes "unknown") || is_text name (codes "none"))
        && same_code (unknown_message_code_from_warning warning) record_code

  -- What tells two warnings apart.
  abbrev pub WarningKey : Type 0
  WarningKey = Value × Value × Value

  abbrev pub key_of : Fields → WarningKey
  key_of w = (get (codes "code") w, get (codes "message") w, get (codes "parser_stage") w)

  abbrev pub has_hash : WarningKey → Bool
  has_hash (a, b, c) = is_hashable a && is_hashable b && is_hashable c

  abbrev pub equals_keys : WarningKey → WarningKey → Bool
  equals_keys (a, b, c) (a', b', c') = equals_key a a' && equals_key b b' && equals_key c c'

  unfoldable pub is_seen : WarningKey → List WarningKey → Bool
  is_seen key [] = false
  is_seen key (k ∷ seen) = equals_keys k key || is_seen key seen

  abbrev pub kept_with : Fields → Result (List Fields) → Result (List Fields)
  kept_with w rest = do ws ← rest; ok (w ∷ ws)

  unfoldable pub scope_loop : Fields → List WarningKey → List Fields → Result (List Fields)
  unfolding is_seen
  scope_loop record' seen [] = ok []
  scope_loop record' seen (w ∷ ws) =
      let skipped = scope_loop record' seen ws in
      let kept = kept_with w (scope_loop record' (key_of w ∷ seen) ws) in
      if not (parse_warning_applies_to_record record' w)
      then skipped
      else if not (has_hash (key_of w))
      then err (type_error "unhashable type")
      else if is_seen (key_of w) seen
      then skipped
      else kept

  unfoldable pub scope_warning_dicts_for_record : Fields → List Fields → Result (List Fields)
  unfolding scope_loop
  scope_warning_dicts_for_record record' warnings = scope_loop record' [] warnings

  abbrev scope_found : Fields → Fields → List Fields → Result Fields
  scope_found normalized source [] =
      ok (put (codes "parser.validation.warnings") (sequence (mappings [])) normalized)
  scope_found normalized source (w ∷ ws) = do
    scoped ← scope_warning_dicts_for_record source (w ∷ ws)
    ok (put (codes "parser.validation.warnings") (sequence (mappings scoped)) normalized)

  unfoldable pub scope_parser_validation_warnings_for_siem : Fields → Fields → Result Fields
  scope_parser_validation_warnings_for_siem normalized source =
      scope_found normalized source
        (warning_dicts (get (codes "parser.validation.warnings") normalized))
