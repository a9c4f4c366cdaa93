-- ===== src/Ecg/PlotLaws.antt =====
-- The record that `parse_frame` of oad_parser/parsers/ecg.py makes of a block, against the envelope
-- that `extract_ecg_messages` makes of the same block.
use oad_parser.Common.{
  ok_injective, ℕ, zero, suc, ◌+◌, ◌*◌, ◌/◌, ◌≡◌, refl, sym, subst, ap, ap₂, ◌∙◌, ◌⊎◌, inl, inr,
  arith, Bool, true, false, not, ◌&&◌, ◌||◌, Option, none, some, List, ◌==◌, ltb, if_intro, ok,
  >>=-eq-ok, byte_at,
}
use oad_parser.Common.Text.{Text}
use oad_parser.Ecg.Block.{
  Flags, classify_message, message_type_of, MessageName, message_name, read_uint16,
  word_has_legacy_status_bit,
}
use oad_parser.Ecg.Envelope.{
  Endpoints, EcgMessageEnvelope, Outer, envelope_at, site_id_at, channel_of, radar_timestamp_at,
}
use oad_parser.Ecg.Plot.{
  ParsedPlot, Capture, create_plot, apply_word, plot_words_loop, is_radar_name, finish_plot,
  plot_at,
}
use oad_parser.Ecg.PlotRange.{InRange, plot_words_loop-InRange}

-- What a record takes over from the headers.
abbrev pub Header : Type 0
Header = Text × Text × ℕ × ℕ × MessageName × ℕ × ℕ × Endpoints

abbrev pub plot_header : ParsedPlot → Header
plot_header p = (
  p.artcc, p.site_id, p.sequence, p.channel, p.message, p.router_timestamp, p.radar_timestamp,
  p.endpoints,
)

abbrev pub envelope_header : EcgMessageEnvelope → Header
envelope_header e = (
  e.artcc, e.site_id, e.sequence, e.channel, e.message_name, e.router_timestamp, e.radar_timestamp,
  e.endpoints,
)

abbrev Keeps : ParsedPlot → ParsedPlot → Type 0
Keeps before after =
    (plot_header after ≡ plot_header before) × (after.message_type ≡ before.message_type)

apply_word-Keeps :
    (flags : Flags) (index word : ℕ) (plot : ParsedPlot)
    → Keeps plot (apply_word flags index word plot)
unfolding apply_word
apply_word-Keeps flags index word plot =
    if_intro (Keeps plot) (word_has_legacy_status_bit word) _ _ (λ _. (refl, refl))
      λ _.
        if_intro (Keeps plot) (index == 1) _ _ (λ _. (refl, refl))
          λ _.
            if_intro (Keeps plot) (index == 2) _ _ (λ _. (refl, refl))
              λ _.
                if_intro (Keeps plot) (index == 4) _ _ (λ _. (refl, refl))
                  λ _.
                    if_intro (Keeps plot)
                      ((index == 6) && flags.beacon_message && flags.modec_valid) _ _
                      (λ _. (refl, refl)) (λ _. (refl, refl))

plot_words_loop-Keeps :
    (payload : List ℕ) (start end : ℕ) (flags : Flags) (left index : ℕ) (plot : ParsedPlot)
    → Keeps plot (plot_words_loop payload start end flags left index plot)
unfolding plot_words_loop
plot_words_loop-Keeps payload start end flags zero index plot = (refl, refl)
plot_words_loop-Keeps payload start end flags (suc left) index plot =
    let word = read_uint16 payload (start + index * 2) in
    let (header, type) =
      plot_words_loop-Keeps payload start end flags left (index + 1)
        (apply_word flags index word plot) in
    let (header_once, type_once) = apply_word-Keeps flags index word plot in
    if_intro (Keeps plot) (ltb end (start + index * 2 + 2)) _ _ (λ _. (refl, refl))
      (λ _. (header ∙ header_once, type ∙ type_once))

-- A message that a record is made of.
abbrev pub is_reported : Flags → MessageName → Bool
is_reported flags name =
    flags.rtqc_message || ((flags.beacon_message || flags.search_message) && is_radar_name name)

-- The outcome for a message with these flags and header: a record or none.
abbrev pub Outcome : Flags → Header → MessageName → Option ParsedPlot → Type 0
Outcome flags header name q =
    ((is_reported flags name ≡ true)
      × ((p : ParsedPlot) × (q ≡ some p)
          × (plot_header p ≡ header)
          × (p.message_type ≡ some (message_type_of flags))
          × InRange p))
    ⊎ ((is_reported flags name ≡ false) × (q ≡ none))

reported : (b r m : Bool) → (b && not r && m) ≡ true → (r || (b && m)) ≡ true
reported true true m h = refl
reported true false m h = h
reported false true m h = refl
reported false false m h = h

rtqc_reported : (r x : Bool) → r ≡ true → (r || x) ≡ true
rtqc_reported true x t = refl
rtqc_reported false x t = cc t

unreported : (b r m : Bool) → (b && not r && m) ≡ false → r ≡ false → (r || (b && m)) ≡ false
unreported b true m h k = cc k
unreported true false m h k = h
unreported false false m h k = h

finish_plot-Outcome :
    (sha256 : List ℕ → Text) (payload : List ℕ) (start n : ℕ) (flags : Flags) (plot : ParsedPlot)
    → InRange plot
    → Outcome flags (plot_header plot) plot.message (finish_plot sha256 payload start n flags plot)
unfolding finish_plot
finish_plot-Outcome sha256 payload start n flags plot h =
    let b = flags.beacon_message || flags.search_message in
    let m = is_radar_name plot.message in
    let typed : ParsedPlot = record plot { message_type = some (message_type_of flags) } in
    let (header, type) = plot_words_loop-Keeps payload start (start + n) flags (n / 2) 0 typed in
    if_intro (Outcome flags (plot_header plot) plot.message) (b && not flags.rtqc_message && m) _ _
      (λ t. inl (
        reported b flags.rtqc_message m t,
        (
          _,
          refl,
          header,
          type,
          plot_words_loop-InRange payload start (start + n) flags (n / 2) 0 typed h,
        ),
      ))
      (λ no.
        if_intro (Outcome flags (plot_header plot) plot.message) flags.rtqc_message _ _
          (λ t. inl (rtqc_reported flags.rtqc_message (b && m) t, (_, refl, refl, refl, h)))
          (λ f. inr (unreported b flags.rtqc_message m no f, refl)))

-- The header of a block whose three bytes were read.
abbrev header_with : Outer → ℕ → ℕ → ℕ → ℕ → Header
header_with outer offset code sequence channel = (
  outer.artcc,
  site_id_at outer.payload offset,
  sequence,
  channel_of channel,
  message_name code,
  outer.router_timestamp,
  radar_timestamp_at outer.payload offset,
  outer.endpoints,
)

Outcome-along :
    {f g : Flags} {h k : Header} {a b : MessageName} {q r : Option ParsedPlot}
    → f ≡ g
    → h ≡ k
    → a ≡ b
    → q ≡ r
    → Outcome f h a q
    → Outcome g k b r
Outcome-along {f} {g} {h} {k} {a} {b} {q} {r} flags header name same o =
    subst (λ x. Outcome g k b x) same
      (subst (λ x. Outcome g k x q) name
        (subst (λ x. Outcome g x a q) header (subst (λ x. Outcome x h a q) flags o)))

-- Where a block gives an envelope and `parse_frame` comes to an outcome for the block: there is a
-- record exactly if the message is an RTQC message or a beacon or search message with a known name,
-- and then it has the envelope's header fields and message type, and its range, ACP, azimuth, mode 3
-- code and altitude are -1 or in the range of their bits.
pub plot_at-Outcome :
    (sha256 : List ℕ → Text) (now : Text) (capture : Capture) (outer : Outer) (offset n : ℕ)
    (e : EcgMessageEnvelope) (q : Option ParsedPlot)
    → envelope_at outer offset n ≡ ok e
    → plot_at sha256 now capture outer offset n ≡ ok q
    → Outcome e.flags (envelope_header e) e.message_name q
unfolding envelope_at plot_at create_plot
plot_at-Outcome sha256 now capture outer offset n e q of_envelope of_plot =
    let payload = outer.payload in
    let classified = classify_message payload (offset + 16) (n / 2) in
    let (flags, c, j) = >>=-eq-ok classified _ of_envelope in
    let (code, c_code, j) = >>=-eq-ok (byte_at payload (offset + 8)) _ j in
    let (sequence, c_seq, j) = >>=-eq-ok (byte_at payload (offset + 9)) _ j in
    let (channel, c_ch, j) = >>=-eq-ok (byte_at payload (offset + 10)) _ j in
    let made = ok_injective j in
    let (plot, created, k) = >>=-eq-ok (create_plot now capture outer offset) _ of_plot in
    let (flags', d, k) = >>=-eq-ok classified _ k in
    let (code', d_code, i) = >>=-eq-ok (byte_at payload (offset + 8)) _ created in
    let (sequence', d_seq, i) = >>=-eq-ok (byte_at payload (offset + 9)) _ i in
    let (channel', d_ch, i) = >>=-eq-ok (byte_at payload (offset + 10)) _ i in
    let built = ok_injective i in
    let header =
      ap plot_header (sym built)
      ∙ ap₂ (λ x y. header_with outer offset x y channel') (ok_injective (sym d_code ∙ c_code))
          (ok_injective (sym d_seq ∙ c_seq))
      ∙ ap (λ x. header_with outer offset code sequence x) (ok_injective (sym d_ch ∙ c_ch))
      ∙ ap envelope_header made in
    Outcome-along (ok_injective (sym d ∙ c) ∙ ap (λ x. x.flags) made) header (ap (λ h. h.4) header)
      (ok_injective k)
      (finish_plot-Outcome sha256 payload (offset + 16) n flags' plot
        (subst InRange built (tt, refl, tt, refl, omega arith)))
