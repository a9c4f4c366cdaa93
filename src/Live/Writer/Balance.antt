-- ===== src/Live/Writer/Balance.antt =====
-- The counters of `RotatingJsonlWriter` of oad_parser/live/writer.py balance.
use oad_parser.Common.{
  ℕ, ◌+◌, ◌≤◌, ◌≡◌, arith, Bool, true, false, Option, none, some, List, [], ◌∷◌, Result, ok, err,
  if_intro, ltb, ◌==◌, ◌&&◌,
}
use oad_parser.Common.Text.{Text}
use oad_parser.Common.Value.{Fields, Python}
use oad_parser.Live.DuplicateKeys.{register}
use oad_parser.Live.Writer.Compact.{compact_live_record}
use oad_parser.Live.Writer.Analysis.{analysis_duplicate_key}
use oad_parser.Live.Writer.Output.{System}
use oad_parser.Live.Writer.Writing.{
  RotatingJsonlWriter, Written, emit_record, emit_if, should_emit_record, write_encoded_record,
  write_observed, write_compact, write_record, write_accounting_snapshot, rotate_now,
  register_duplicate_observation,
}

-- Every record that was seen was written or suppressed for one reason, and those with a key were
-- observed.
pub record IsBalanced (w : RotatingJsonlWriter) : Type 0 where
  pub balance :
      w.records_seen ≡ w.records_emitted + (w.duplicate_suppressed + w.sampled_normal_suppressed)
  pub observed : w.duplicate_accounting.observations ≤ w.records_seen

-- The calls that a client makes.
pub data Call : Type 0 where
  write : Fields → Call
  snapshot : Text → Call
  rotate : Call

module _ (py : Python) (system : System) where
  abbrev pub call : Call → RotatingJsonlWriter → RotatingJsonlWriter
  call (write source) w = (write_record py system source w).0
  call (snapshot reason) w = (write_accounting_snapshot py system reason w).0
  call rotate w = (rotate_now py system w).0

  abbrev pub call_all : List Call → RotatingJsonlWriter → RotatingJsonlWriter
  call_all [] w = w
  call_all (c ∷ calls) w = call_all calls (call c w)

  -- Before the last counter of a record is raised.
  record IsPending (w : RotatingJsonlWriter) : Type 0 where
    balance :
        w.records_seen
        ≡ w.records_emitted + (w.duplicate_suppressed + w.sampled_normal_suppressed) + 1
    observed : w.duplicate_accounting.observations ≤ w.records_seen

  emit_record-IsBalanced :
      (key : Option Text) (count : ℕ) (encoded : Fields) (w : RotatingJsonlWriter)
      → IsPending w
      → IsBalanced (emit_record py system key count encoded w).0
  unfolding emit_record write_encoded_record
  emit_record-IsBalanced key count encoded w p = record {
    balance = omega (arith, p.balance);
    observed = p.observed;
  }

  emit_if-IsBalanced :
      (key : Option Text) (count : ℕ) (choice : Bool × Fields × RotatingJsonlWriter)
      → IsPending choice.2
      → IsBalanced (emit_if py system key count choice).0
  emit_if-IsBalanced key count (true, encoded, w) p = emit_record-IsBalanced key count encoded w p
  emit_if-IsBalanced key count (false, encoded, w) p = record {
    balance = omega (arith, p.balance);
    observed = p.observed;
  }

  should_emit_record-IsPending :
      (source encoded : Fields) (w : RotatingJsonlWriter)
      → IsPending w
      → IsPending (should_emit_record py system source encoded w).2
  unfolding should_emit_record
  should_emit_record-IsPending source encoded w p = record {
    balance = ground arith;
    observed = ground arith;
  }

  write_observed-IsBalanced :
      (source encoded : Fields) (key : Option Text) (w : RotatingJsonlWriter) (count : ℕ)
      → IsPending w
      → IsBalanced (write_observed py system source encoded key (w, count)).0
  unfolding write_observed
  write_observed-IsBalanced source encoded none w count p =
      emit_if-IsBalanced none count (should_emit_record py system source encoded w)
        (should_emit_record-IsPending source encoded w p)
  write_observed-IsBalanced source encoded (some key) w count p =
      if_intro (λ (x : Written py system). IsBalanced x.0) (ltb 1 count && true) _ _
        (λ _. record { balance = omega (arith, p.balance); observed = p.observed })
        λ _.
          emit_if-IsBalanced (some key) count (should_emit_record py system source encoded w)
            (should_emit_record-IsPending source encoded w p)

  register-IsPending :
      (key : Option Text) (w : RotatingJsonlWriter)
      → IsBalanced w
      → IsPending
          (register_duplicate_observation py system key
            (record w { records_seen = w.records_seen + 1 })).0
  unfolding register_duplicate_observation register
  register-IsPending none w b = record {
    balance = omega (arith, b.balance);
    observed = omega (arith, b.observed);
  }
  register-IsPending (some key) w b = record {
    balance = omega (arith, b.balance);
    observed = omega (arith, b.observed);
  }

  write_compact-IsBalanced :
      (source : Fields) (compact : Result (Option Fields)) (w : RotatingJsonlWriter)
      → IsBalanced w
      → IsBalanced (write_compact py system source compact w).0
  unfolding write_compact
  write_compact-IsBalanced source (err raised) w b = b
  write_compact-IsBalanced source (ok none) w b = b
  write_compact-IsBalanced source (ok (some encoded)) w b =
      write_observed-IsBalanced source encoded (analysis_duplicate_key py encoded) _ _
        (register-IsPending (analysis_duplicate_key py encoded) w b)

  call-IsBalanced : (c : Call) (w : RotatingJsonlWriter) → IsBalanced w → IsBalanced (call c w)
  unfolding write_record write_accounting_snapshot rotate_now write_encoded_record
  call-IsBalanced (write source) w b =
      write_compact-IsBalanced source (compact_live_record py w.options source) w b
  call-IsBalanced (snapshot reason) w b =
      if_intro (λ (x : Written py system). IsBalanced x.0) (w.records_seen == 0) _ _ (λ _. b)
        λ _. record { balance = b.balance; observed = b.observed }
  call-IsBalanced rotate w b = record { balance = b.balance; observed = b.observed }

  -- Whatever is called, written, raised or rotated: if the counters balance before, every record
  -- that was seen is counted afterwards either as emitted, as a suppressed duplicate or as a
  -- suppressed normal record, and no more keys were observed than records seen.
  pub call_all-IsBalanced :
      (calls : List Call) (w : RotatingJsonlWriter) → IsBalanced w → IsBalanced (call_all calls w)
  call_all-IsBalanced [] w b = b
  call_all-IsBalanced (c ∷ calls) w b = call_all-IsBalanced calls (call c w) (call-IsBalanced c w b)
