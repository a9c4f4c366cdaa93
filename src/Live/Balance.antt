-- ===== src/Live/Balance.antt =====
-- The counters that `classify_live_frame` of oad_parser/live/classifier.py leaves in the metrics agree
-- with the outcomes that it returned.
use oad_parser.Common.{
  All, IsByte, ℕ, ◌+◌, ◌≡◌, refl, arith, Bool, true, false, Option, none, some, List, [], ◌∷◌,
  length, if◌then◌else◌, Result, err, ok, Returns,
}
use oad_parser.Udp.Frame.{UdpFrame, parse_ipv4_udp_frame}
use oad_parser.Udp.FrameLaws.{parse_ipv4_udp_frame_total}
use oad_parser.Ecg.Checked.{looks_like_ecg_candidate_payload}
use oad_parser.Ecg.CheckedTotal.{looks_like-Returns}
use oad_parser.Live.Metrics.{LiveMetrics, increment, packets_received, packets_parsed}
use oad_parser.Live.Classifier.{
  ClassifierOutcome, outcome_non_ipv4_or_non_udp, outcome_non_ecg_payload, outcome_ecg_candidate,
  LiveCaptureFrame, LiveFrameClassification, note, Classified, classify_payload, classify_parsed,
  classify_live_frame,
}

abbrev pub equals_outcome : ClassifierOutcome → ClassifierOutcome → Bool
equals_outcome outcome_non_ipv4_or_non_udp outcome_non_ipv4_or_non_udp = true
equals_outcome outcome_non_ecg_payload outcome_non_ecg_payload = true
equals_outcome outcome_ecg_candidate outcome_ecg_candidate = true
equals_outcome outcome_non_ipv4_or_non_udp outcome_non_ecg_payload = false
equals_outcome outcome_non_ipv4_or_non_udp outcome_ecg_candidate = false
equals_outcome outcome_non_ecg_payload outcome_non_ipv4_or_non_udp = false
equals_outcome outcome_non_ecg_payload outcome_ecg_candidate = false
equals_outcome outcome_ecg_candidate outcome_non_ipv4_or_non_udp = false
equals_outcome outcome_ecg_candidate outcome_non_ecg_payload = false

module _ (Seconds Datetime : Type 0) where
  abbrev pub Reply : Type 0
  Reply = Result (LiveFrameClassification Seconds Datetime)

  -- How many of the calls returned this outcome.
  abbrev pub tally : ClassifierOutcome → List Reply → ℕ
  tally o [] = 0
  tally o (err raised ∷ rs) = tally o rs
  tally o (ok c ∷ rs) = (if equals_outcome o c.outcome then 1 else 0) + tally o rs

  -- Calls in order, on the same metrics.
  abbrev pub classify_all :
      List (LiveCaptureFrame Seconds Datetime)
      → Option (LiveMetrics Seconds)
      → Option (LiveMetrics Seconds) × List Reply
  classify_all [] m = (m, [])
  classify_all (f ∷ fs) m =
      let (m', r) = classify_live_frame Seconds Datetime f m in
      let (end, rs) = classify_all fs m' in (end, r ∷ rs)

  -- From `m` to `m'` every counter of the classifier grew by what the replies say, and every call
  -- returned.
  pub record IsCounted (m : LiveMetrics Seconds) (rs : List Reply) (m' : LiveMetrics Seconds)
      : Type 0 where
    pub received : m'.packets_received ≡ m.packets_received + length rs
    pub no_udp :
        m'.non_ipv4_or_non_udp ≡ m.non_ipv4_or_non_udp + tally outcome_non_ipv4_or_non_udp rs
    pub no_ecg : m'.non_ecg ≡ m.non_ecg + tally outcome_non_ecg_payload rs
    pub candidates : m'.ecg_candidates ≡ m.ecg_candidates + tally outcome_ecg_candidate rs
    pub parsed :
        m'.packets_parsed
        ≡ m.packets_parsed + (tally outcome_non_ecg_payload rs + tally outcome_ecg_candidate rs)
    pub returned :
        tally outcome_non_ipv4_or_non_udp rs
          + (tally outcome_non_ecg_payload rs + tally outcome_ecg_candidate rs)
        ≡ length rs

  abbrev Step : LiveMetrics Seconds → Classified Seconds Datetime → Type 0
  Step m call =
      (m' : LiveMetrics Seconds) × (r : Reply) × (call ≡ (some m', r)) × IsCounted m (r ∷ []) m'

  classify_payload-IsCounted :
      (f : LiveCaptureFrame Seconds Datetime) (u : UdpFrame) (m : LiveMetrics Seconds)
      (candidate : Result Bool)
      → Returns candidate
      → Step m (
          classify_payload Seconds Datetime f u
            (note Seconds Datetime packets_parsed (note Seconds Datetime packets_received (some m)))
            candidate)
  unfolding classify_payload note increment
  classify_payload-IsCounted f u m (err raised) h = cc h.1
  classify_payload-IsCounted f u m (ok false) h = (
    _,
    _,
    refl,
    record {
      received = refl;
      no_udp = omega arith;
      no_ecg = refl;
      candidates = omega arith;
      parsed = refl;
      returned = refl;
    },
  )
  classify_payload-IsCounted f u m (ok true) h = (
    _,
    _,
    refl,
    record {
      received = refl;
      no_udp = omega arith;
      no_ecg = omega arith;
      candidates = refl;
      parsed = refl;
      returned = refl;
    },
  )

  classify_parsed-IsCounted :
      (f : LiveCaptureFrame Seconds Datetime) (m : LiveMetrics Seconds)
      (frame : Result (Option UdpFrame))
      → Returns frame
      → Step m (
          classify_parsed Seconds Datetime f
            (note Seconds Datetime packets_received (some m))
            frame)
  unfolding classify_parsed
  classify_parsed-IsCounted f m (err raised) h = cc h.1
  classify_parsed-IsCounted f m (ok none) h =
      unfold note increment in
      (
        _,
        _,
        refl,
        record {
          received = refl;
          no_udp = refl;
          no_ecg = omega arith;
          candidates = omega arith;
          parsed = omega arith;
          returned = refl;
        },
      )
  classify_parsed-IsCounted f m (ok (some u)) h =
      classify_payload-IsCounted f u m (looks_like_ecg_candidate_payload u.payload)
        (looks_like-Returns u.payload)

  classify_live_frame-IsCounted :
      (f : LiveCaptureFrame Seconds Datetime) (m : LiveMetrics Seconds)
      → All IsByte f.frame_bytes
      → Step m (classify_live_frame Seconds Datetime f (some m))
  unfolding classify_live_frame
  classify_live_frame-IsCounted f m h =
      classify_parsed-IsCounted f m (parse_ipv4_udp_frame f.frame_bytes)
        (parse_ipv4_udp_frame_total f.frame_bytes h)

  tally_cons :
      (o : ClassifierOutcome) (r : Reply) (rs : List Reply)
      → tally o (r ∷ rs) ≡ tally o (r ∷ []) + tally o rs
  tally_cons o (err raised) rs = omega arith
  tally_cons o (ok c) rs = omega arith

  IsCounted-cons :
      (m : LiveMetrics Seconds) (r : Reply) (m' : LiveMetrics Seconds) (rs : List Reply)
      (end : LiveMetrics Seconds)
      → IsCounted m (r ∷ []) m'
      → IsCounted m' rs end
      → IsCounted m (r ∷ rs) end
  IsCounted-cons m r m' rs end g h =
      let a = tally_cons outcome_non_ipv4_or_non_udp r rs in
      let b = tally_cons outcome_non_ecg_payload r rs in
      let c = tally_cons outcome_ecg_candidate r rs in
      record {
        received = omega (arith, g.received, h.received);
        no_udp = omega (arith, a, g.no_udp, h.no_udp);
        no_ecg = omega (arith, b, g.no_ecg, h.no_ecg);
        candidates = omega (arith, c, g.candidates, h.candidates);
        parsed = omega (arith, b, c, g.parsed, h.parsed);
        returned = omega (arith, a, b, c, g.returned, h.returned);
      }

  -- Frames of bytes that are classified in order leave metrics in which the received packets grew by the
  -- number of calls, each outcome's counter by the number of calls that returned it, and the parsed
  -- packets by the calls with one of the two outcomes behind the UDP parser; and every call returns
  -- one of the three outcomes.
  pub classify_all-IsCounted :
      (fs : List (LiveCaptureFrame Seconds Datetime)) (m : LiveMetrics Seconds)
      → All (λ f. All IsByte f.frame_bytes) fs
      → (end : LiveMetrics Seconds) × (rs : List Reply) × (classify_all fs (some m)
          ≡ (some end, rs))
        × (length rs ≡ length fs)
        × IsCounted m rs end
  classify_all-IsCounted [] m b = (
    m,
    [],
    refl,
    refl,
    record {
      received = omega arith;
      no_udp = omega arith;
      no_ecg = omega arith;
      candidates = omega arith;
      parsed = omega arith;
      returned = refl;
    },
  )
  classify_all-IsCounted (f ∷ fs) m b =
      let (m', r, e, g) = classify_live_frame-IsCounted f m b.0 in
      let (end, rs, k, n, h) = classify_all-IsCounted fs m' b.1 in
      (end, r ∷ rs, rw (e, k) refl, omega (arith, n), IsCounted-cons m r m' rs end g h)
