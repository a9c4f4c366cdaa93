-- ===== src/Live/Sequence/Windows.antt =====
-- `_apply_duplicate_alert` of oad_parser/live/pipeline.py.
use oad_parser.Common.{
  ℕ, suc, Option, none, some, List, [], ◌∷◌, ◌++◌, Bool, true, false, leb, length, if◌then◌else◌,
}
use oad_parser.Common.Int.{ℤ, pos, leb_ℤ}
use oad_parser.Common.Text.{Text, codes, strip}
use oad_parser.Common.Value.{
  Value, integer, text, mapping, Fields, end, field, Python, get, str, is_truthy,
}
use oad_parser.Detect.Record.{Floats}
use oad_parser.Live.Alerts.Taxonomy.{ecg_cd2_004, make_alert}
use oad_parser.Live.Alerts.Config.{Numbers, EcgAlertConfig}
use oad_parser.Live.Sequence.State.{
  at_key, Datetimes, LiveSequenceState, Step, duplicate_key, message_hash, with_offset,
  feed_evidence,
}

module _ (py : Python) (fs : Floats) (n : Numbers fs) (dt : Datetimes fs) where
  abbrev parsed_or_now : Option (fs.Float × Text) → ℕ → (fs.Float × Text) × ℕ
  parsed_or_now none reads = (dt.utcnow reads, suc reads)
  parsed_or_now (some moment) reads = (moment, reads)

  abbrev is_blank : Text → Bool
  is_blank [] = true
  is_blank (c ∷ t) = false

  abbrev moment_of : Value → ℕ → (fs.Float × Text) × ℕ
  moment_of (text t) reads =
      if is_blank (strip t)
      then parsed_or_now none reads
      else parsed_or_now (dt.from_iso (with_offset t)) reads
  moment_of _ reads = parsed_or_now none reads

  unfoldable pub record_datetime : Fields → ℕ → (fs.Float × Text) × ℕ
  record_datetime record' reads = moment_of (get (codes "@timestamp") record') reads

  -- `str(record.get("@timestamp") or seen_at.isoformat())`
  abbrev seen_text : Fields → Text → Text
  seen_text record' iso =
      let stamp = get (codes "@timestamp") record' in if is_truthy stamp then str py stamp else iso

  unfoldable pub drop_stale : fs.Float → List (fs.Float × Text) → List (fs.Float × Text)
  drop_stale cutoff [] = []
  drop_stale cutoff ((t, stamp) ∷ window) =
      let rest = drop_stale cutoff window in if fs.lt t cutoff then rest else (t, stamp) ∷ window

  abbrev or_no_window : Option (List (fs.Float × Text)) → List (fs.Float × Text)
  or_no_window none = []
  or_no_window (some window) = window

  abbrev window_alert : Text → Fields → fs.Float → ℕ → Text → Text → Fields
  window_alert hash record' window_seconds count first_seen last_seen =
      make_alert ecg_cd2_004
        (codes
          "Duplicate payload/message hash repeated above threshold in the configured window; treat as duplicate/replay or capture-path anomaly until validated.")
        (field (codes "hash") (text hash) (
          field (codes "packet_count") (integer (pos count)) (
            field (codes "first_seen") (text first_seen) (
              field (codes "last_seen") (text last_seen) (
                field (codes "window_sec") (n.of_float window_seconds) (
                  field (codes "source_site_channel_tuple") (mapping (feed_evidence record'))
                    end))))))

  abbrev first_text : List (fs.Float × Text) → Text → Text
  first_text [] t = t
  first_text ((_, t) ∷ window) _ = t

  -- The window of the key without what is too old, and with the moment.
  unfoldable pub next_window :
      fs.Float → List (fs.Float × Text) → fs.Float × Text → List (fs.Float × Text)
  next_window seconds window (seen_at, stamp) =
      drop_stale (fs.sub seen_at seconds) window ++ ((seen_at, stamp) ∷ [])

  -- Whether the record is a duplicate, behind a hash, a window and a threshold.
  unfoldable pub note_duplicate :
      Text → fs.Float → ℤ → LiveSequenceState fs → Fields → List Fields → Bool × Step fs
  note_duplicate hash window_seconds threshold s record' alerts =
      let ((seen_at, iso), reads) = record_datetime record' s.clock_reads in
      let key = duplicate_key record' ++ (text hash ∷ []) in
      let stamp = seen_text record' iso in
      let window =
        next_window window_seconds (or_no_window (at_key key s.duplicate_window_by_key))
          (seen_at, stamp) in
      let s' = record s {
        duplicate_window_by_key = (key, window) ∷ s.duplicate_window_by_key;
        clock_reads = reads;
      } in
      let alert =
        window_alert hash record' window_seconds (length window) (first_text window stamp) stamp in
      if leb (length window) 1
      then (false, (s', record', alerts))
      else if leb_ℤ threshold (pos (length window))
      then (true, (s', record', alerts ++ (alert ∷ [])))
      else (true, (s', record', alerts))

  abbrev pub duplicate_with :
      Option fs.Float
      → Option ℤ
      → Option Text
      → LiveSequenceState fs
      → Fields
      → List Fields
      → Bool × Step fs
  duplicate_with (some seconds) (some threshold) (some hash) s record' alerts =
      note_duplicate hash seconds threshold s record' alerts
  duplicate_with (some seconds) (some threshold) none s record' alerts =
      (false, (s, record', alerts))
  duplicate_with (some seconds) none hash s record' alerts = (false, (s, record', alerts))
  duplicate_with none threshold hash s record' alerts = (false, (s, record', alerts))

  unfoldable pub apply_duplicate_alert :
      Option (EcgAlertConfig fs) → LiveSequenceState fs → Fields → List Fields → Bool × Step fs
  apply_duplicate_alert none s record' alerts = (false, (s, record', alerts))
  apply_duplicate_alert (some config) s record' alerts =
      duplicate_with config.duplicate_payload_window_seconds config.duplicate_payload_threshold
        (message_hash py record') s record' alerts
