-- ===== src/Live/Writer/Duplicates.antt =====
-- A record whose key was observed before is not written: `write_record` of
-- oad_parser/live/writer.py with its `_DuplicateKeyAccounting`.
use oad_parser.Common.{
  ℕ, ◌+◌, ◌<◌, ◌≡◌, ◌⊎◌, refl, sym, ap, ap₂, ◌∙◌, arith, Bool, true, false, Option, none, some,
  List, [], ◌∷◌, ◌++◌, Result, ok, err, ltb, if_intro, ◌&&◌, inl, inr,
}
use oad_parser.Common.Text.{Text}
use oad_parser.Common.Value.{Fields, Python}
use oad_parser.Live.DuplicateKeys.{DuplicateKeyAccounting, new_accounting, register, register_all}
use oad_parser.Live.Counts.{occurrences, register_all-occurrences}
use oad_parser.Live.Writer.Compact.{CompactOptions, compact_live_record}
use oad_parser.Live.Writer.Analysis.{analysis_duplicate_key}
use oad_parser.Live.Writer.Output.{System}
use oad_parser.Live.Writer.Writing.{
  RotatingJsonlWriter, Written, emit_record, emit_if, should_emit_record, write_encoded_record,
  write_observed, write_compact, write_record, register_duplicate_observation,
}

abbrev keys_of : Option Text → List Text
keys_of none = []
keys_of (some key) = key ∷ []

module _ (py : Python) (system : System) where
  -- The key of a record that is compacted and has one.
  abbrev pub keys_in : Result (Option Fields) → List Text
  keys_in (err raised) = []
  keys_in (ok none) = []
  keys_in (ok (some encoded)) = keys_of (analysis_duplicate_key py encoded)

  abbrev pub observed_keys : CompactOptions → List Fields → List Text
  observed_keys o [] = []
  observed_keys o (r ∷ rs) = keys_in (compact_live_record py o r) ++ observed_keys o rs

  abbrev pub write_all : List Fields → RotatingJsonlWriter → RotatingJsonlWriter
  write_all [] w = w
  write_all (r ∷ rs) w = write_all rs (write_record py system r w).0

  -- What writing leaves alone, the duplicates suppressed so far included.
  record Keeps (w w' : RotatingJsonlWriter) : Type 0 where
    accounting : w'.duplicate_accounting ≡ w.duplicate_accounting
    options : w'.options ≡ w.options

  emit_if-Keeps :
      (key : Option Text) (count : ℕ) (choice : Bool × Fields × RotatingJsonlWriter)
      (w : RotatingJsonlWriter)
      → Keeps w choice.2
      → Keeps w (emit_if py system key count choice).0
  unfolding emit_record write_encoded_record
  emit_if-Keeps key count (true, encoded, w') w k = record {
    accounting = k.accounting;
    options = k.options;
  }
  emit_if-Keeps key count (false, encoded, w') w k = record {
    accounting = k.accounting;
    options = k.options;
  }

  emit_if-duplicate_suppressed :
      (key : Option Text) (count : ℕ) (choice : Bool × Fields × RotatingJsonlWriter)
      → (emit_if py system key count choice).0.duplicate_suppressed ≡ choice.2.duplicate_suppressed
  unfolding emit_record write_encoded_record
  emit_if-duplicate_suppressed key count (true, encoded, w') = refl
  emit_if-duplicate_suppressed key count (false, encoded, w') = refl

  should_emit_record-Keeps :
      (source encoded : Fields) (w : RotatingJsonlWriter)
      → Keeps w (should_emit_record py system source encoded w).2
  unfolding should_emit_record
  should_emit_record-Keeps source encoded w = record {
    accounting = ground arith;
    options = ground arith;
  }

  should_emit_record-duplicate_suppressed :
      (source encoded : Fields) (w : RotatingJsonlWriter)
      → (should_emit_record py system source encoded w).2.duplicate_suppressed
        ≡ w.duplicate_suppressed
  unfolding should_emit_record
  should_emit_record-duplicate_suppressed source encoded w = ground arith

  emitted-Keeps :
      (source encoded : Fields) (key : Option Text) (w : RotatingJsonlWriter) (count : ℕ)
      → Keeps w (emit_if py system key count (should_emit_record py system source encoded w)).0
  emitted-Keeps source encoded key w count =
      emit_if-Keeps key count (should_emit_record py system source encoded w) w
        (should_emit_record-Keeps source encoded w)

  write_observed-Keeps :
      (source encoded : Fields) (key : Option Text) (w : RotatingJsonlWriter) (count : ℕ)
      → Keeps w (write_observed py system source encoded key (w, count)).0
  unfolding write_observed
  write_observed-Keeps source encoded none w count = emitted-Keeps source encoded none w count
  write_observed-Keeps source encoded (some key) w count =
      if_intro (λ (x : Written py system). Keeps w x.0) (ltb 1 count && true) _ _
        (λ _. record { accounting = refl; options = refl })
        (λ _. emitted-Keeps source encoded (some key) w count)

  register-accounting :
      (key : Option Text) (w : RotatingJsonlWriter)
      → (register_duplicate_observation py system key w).0.duplicate_accounting
        ≡ register_all (keys_of key) w.duplicate_accounting
  unfolding register_duplicate_observation register_all
  register-accounting none w = refl
  register-accounting (some key) w = refl

  write_compact-Keeps :
      (source : Fields) (compact : Result (Option Fields)) (w : RotatingJsonlWriter)
      → ((write_compact py system source compact w).0.duplicate_accounting
          ≡ register_all (keys_in compact) w.duplicate_accounting)
        × ((write_compact py system source compact w).0.options ≡ w.options)
  unfolding write_compact
  write_compact-Keeps source (err raised) w = (unfold register_all in refl, refl)
  write_compact-Keeps source (ok none) w = (unfold register_all in refl, refl)
  write_compact-Keeps source (ok (some encoded)) w =
      let key = analysis_duplicate_key py encoded in
      let k =
        write_observed-Keeps source encoded key
          (register_duplicate_observation py system key
            (record w { records_seen = w.records_seen + 1 })).0
          _ in
      (
        k.accounting ∙ register-accounting key _,
        k.options ∙ (unfold register_duplicate_observation in refl),
      )

  register_all-append :
      (keys more : List Text) (s : DuplicateKeyAccounting)
      → register_all (keys ++ more) s ≡ register_all more (register_all keys s)
  unfolding register_all
  register_all-append [] more s = refl
  register_all-append (key ∷ keys) more s = register_all-append keys more (register key s).0

  write_all-accounting :
      (rs : List Fields) (w : RotatingJsonlWriter)
      → (write_all rs w).duplicate_accounting
        ≡ register_all (observed_keys w.options rs) w.duplicate_accounting
  unfolding write_record
  write_all-accounting [] w = unfold register_all in refl
  write_all-accounting (r ∷ rs) w =
      let first = compact_live_record py w.options r in
      let (accounting, options) = write_compact-Keeps r first w in
      write_all-accounting rs (write_record py system r w).0
      ∙ ap₂ (λ o s. register_all (observed_keys o rs) s) options accounting
      ∙ sym
          (register_all-append (keys_in first) (observed_keys w.options rs) w.duplicate_accounting)

  write_all-options :
      (rs : List Fields) (w : RotatingJsonlWriter) → (write_all rs w).options ≡ w.options
  unfolding write_record
  write_all-options [] w = refl
  write_all-options (r ∷ rs) w =
      write_all-options rs (write_record py system r w).0
      ∙ (write_compact-Keeps r (compact_live_record py w.options r) w).1

  -- What `write_record` does to a record with a key, by how often the key was observed.
  abbrev pub DuplicateStep : ℕ → RotatingJsonlWriter → Written py system → Type 0
  DuplicateStep seen w (w', r) =
      ((seen ≡ 0) × (w'.duplicate_suppressed ≡ w.duplicate_suppressed))
      ⊎ ((0 < seen)
          × (w'.duplicate_suppressed ≡ w.duplicate_suppressed + 1)
          × (w'.output ≡ w.output)
          × (r ≡ ok (record { bytes_written = 0; rotated_path = none })))

  observed-DuplicateStep :
      (source encoded : Fields) (key : Text) (w' w : RotatingJsonlWriter) (count seen : ℕ)
      → w'.duplicate_suppressed ≡ w.duplicate_suppressed
      → w'.output ≡ w.output
      → count ≡ seen + 1
      → DuplicateStep seen w (write_observed py system source encoded (some key) (w', count))
  unfolding write_observed
  observed-DuplicateStep source encoded key w' w count seen d o e =
      if_intro (DuplicateStep seen w) (ltb 1 count && true) _ _
        (λ h. inr (ground arith, ap (λ n. n + 1) d, o, refl))
        λ h. inl (
          ground arith,
          emit_if-duplicate_suppressed (some key) count
                (should_emit_record py system source encoded w')
              ∙ should_emit_record-duplicate_suppressed source encoded w'
              ∙ d,
        )

  -- Let a writer that has observed no key write some records, and then one that is compacted and has a
  -- key. If none of the earlier records had that key, the record is not counted as a duplicate.
  -- Otherwise it is: nothing is written, the output files and the clock stay as they are, and the
  -- counter of suppressed duplicates goes up by one.
  pub write_record-duplicate :
      (rs : List Fields) (r encoded : Fields) (key : Text) (w : RotatingJsonlWriter)
      → w.duplicate_accounting ≡ new_accounting
      → compact_live_record py w.options r ≡ ok (some encoded)
      → analysis_duplicate_key py encoded ≡ some key
      → DuplicateStep
          (occurrences key (observed_keys w.options rs))
          (write_all rs w)
          (write_record py system r (write_all rs w))
  unfolding write_record write_compact register_duplicate_observation
  write_record-duplicate rs r encoded key w fresh c k =
      let w' = write_all rs w in
      let counted = (register_all-occurrences (observed_keys w.options rs) key).1 in
      let accounting =
        write_all-accounting rs w ∙ ap (register_all (observed_keys w.options rs)) fresh in
      rw (write_all-options rs w, c, k)
        (observed-DuplicateStep r encoded key _ w' _ (occurrences key (observed_keys w.options rs))
          refl refl (ap (λ s. (register key s).1) accounting ∙ counted))
