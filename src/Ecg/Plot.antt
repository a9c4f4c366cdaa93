-- ===== src/Ecg/Plot.antt =====
-- `parse_frame` of oad_parser/parsers/ecg.py and the record `ParsedPlot` of oad_parser/models.py.
-- The hash of oad_parser/fingerprints.py is a parameter, and so is the time that
-- `datetime.now().isoformat()` gives where the caller passes no timestamp.
use oad_parser.Common.{
  ℕ, String, zero, suc, ◌+◌, ◌*◌, ◌/◌, ◌^◌, bit_and, Bool, true, false, not, ◌&&◌, ◌||◌, Option,
  none, some, List, [], ◌∷◌, ◌++◌, foldl, ◌==◌, ltb, length, if◌then◌else◌, Result, ok, ◌>>=◌,
  slice, byte_at, err, unfinished_loop,
}
use oad_parser.Common.Int.{ℤ, pos, negsuc, sub_ℕ}
use oad_parser.Common.Text.{Text, digits_of}
use oad_parser.Ecg.Layout.{
  ecg_message_block_header_bytes, bytes_per_word, message_code_offset, sequence_offset,
  channel_offset, range_word_index, range_word_mask, acp_word_index, word_data_mask,
  mode_3_word_index, altitude_word_index, altitude_word_mask, altitude_sign_mask,
  altitude_feet_scale,
}
use oad_parser.Ecg.Block.{
  read_uint16, finished, header_overrun, payload_overrun, skipped, block, next_block, Flags,
  classify_message, MessageType, message_type_of, MessageName, cd_2, cd_asr, mar, no_name,
  message_name, word_has_legacy_status_bit,
}
use oad_parser.Ecg.Envelope.{
  Endpoints, Outer, find_payload, has_valid_length, outer_of, site_id_at, channel_of,
  radar_timestamp_at,
}

-- A number that the source keeps as a float: the literal -1, or a count times the field's scale.
pub data Quantity : Type 0 where
  minus_one : Quantity
  scaled : ℕ → Quantity

-- `range_nm` counts eighths of a mile, `azimuth_degrees` 4096ths of a circle.
pub record ParsedPlot : Type 0 where
  pub timestamp : Text
  pub endpoints : Endpoints
  pub observer_interface : Option Text
  pub total_bytes : ℕ
  pub artcc : Text
  pub site_id : Text
  pub sequence : ℕ
  pub sequence_delta : Option ℤ
  pub channel : ℕ
  pub message : MessageName
  pub message_type : Option MessageType
  pub router_timestamp : ℕ
  pub radar_timestamp : ℕ
  pub range_nm : Quantity
  pub mode_3_code : ℤ
  pub acp : ℤ
  pub azimuth_degrees : Quantity
  pub altitude_feet : ℤ
  pub fingerprint : Option Text
  pub alert : Option String
  pub alert_details : Option String

-- What the caller passes to every plot of a frame.
pub record Capture : Type 0 where
  pub observer_interface : Option Text
  pub timestamp : Option Text
  pub total_bytes : ℕ

-- `timestamp or datetime.now().isoformat()`; an empty text is replaced too.
abbrev pub timestamp_or : Option Text → Text → Text
timestamp_or none now = now
timestamp_or (some []) now = now
timestamp_or (some (c ∷ cs)) now = c ∷ cs

unfoldable pub create_plot : Text → Capture → Outer → ℕ → Result ParsedPlot
create_plot now capture outer offset = do
  message_code ← byte_at outer.payload (offset + message_code_offset)
  sequence ← byte_at outer.payload (offset + sequence_offset)
  channel ← byte_at outer.payload (offset + channel_offset)
  ok (record {
    timestamp = timestamp_or capture.timestamp now;
    endpoints = outer.endpoints;
    observer_interface = capture.observer_interface;
    total_bytes = capture.total_bytes;
    artcc = outer.artcc;
    site_id = site_id_at outer.payload offset;
    sequence = sequence;
    sequence_delta = none;
    channel = channel_of channel;
    message = message_name message_code;
    message_type = none;
    router_timestamp = outer.router_timestamp;
    radar_timestamp = radar_timestamp_at outer.payload offset;
    range_nm = minus_one;
    mode_3_code = negsuc 0;
    acp = negsuc 0;
    azimuth_degrees = minus_one;
    altitude_feet = negsuc 0;
    fingerprint = none;
    alert = none;
    alert_details = none;
  })

-- `int(oct(value)[2:])`: the octal digits read as a decimal number.
unfoldable pub octal_as_decimal : ℕ → ℕ
octal_as_decimal value = foldl (λ n digit. n * 10 + digit) 0 (digits_of 8 value value)

unfoldable pub altitude_of : ℕ → ℤ
altitude_of word =
    let altitude = bit_and word altitude_word_mask * altitude_feet_scale in
    if bit_and word altitude_sign_mask / 2 ^ 11 == 1 then sub_ℕ 0 altitude else pos altitude

-- What the word at `index` sets in the record.
unfoldable pub apply_word : Flags → ℕ → ℕ → ParsedPlot → ParsedPlot
apply_word flags index word plot =
    if word_has_legacy_status_bit word
    then plot
    else if index == range_word_index
    then record plot { range_nm = scaled (bit_and word range_word_mask / 2 ^ 1) }
    else if index == acp_word_index
    then record plot {
      acp = pos (bit_and word word_data_mask);
      azimuth_degrees = scaled (bit_and word word_data_mask);
    }
    else if index == mode_3_word_index
    then record plot { mode_3_code = pos (octal_as_decimal (bit_and word word_data_mask)) }
    else if (index == altitude_word_index) && flags.beacon_message && flags.modec_valid
    then record plot { altitude_feet = altitude_of word }
    else plot

-- `for index in range(words):` of `_extract_plot_words`, with `left` rounds to go.
unfoldable pub plot_words_loop : List ℕ → ℕ → ℕ → Flags → ℕ → ℕ → ParsedPlot → ParsedPlot
plot_words_loop payload start end flags zero index plot = plot
plot_words_loop payload start end flags (suc left) index plot =
    let word_offset = start + index * bytes_per_word in
    let rest =
      plot_words_loop payload start end flags left (index + 1)
        (apply_word flags index (read_uint16 payload word_offset) plot) in
    if ltb end (word_offset + bytes_per_word) then plot else rest

abbrev pub is_radar_name : MessageName → Bool
is_radar_name cd_2 = true
is_radar_name cd_asr = true
is_radar_name mar = true
is_radar_name no_name = false

abbrev pub cons_some : Option ParsedPlot → List ParsedPlot → List ParsedPlot
cons_some none plots = plots
cons_some (some plot) plots = plot ∷ plots

module _ (sha256 : List ℕ → Text) where
  -- The bytes that identify a plot: the ECG header and the message.
  abbrev pub fingerprint_of : List ℕ → ℕ → ℕ → Text
  fingerprint_of payload start end =
      sha256 (slice payload 0 ecg_message_block_header_bytes ++ slice payload start end)

  -- The record of a block, or nothing where the source does not append it.
  unfoldable pub finish_plot : List ℕ → ℕ → ℕ → Flags → ParsedPlot → Option ParsedPlot
  finish_plot payload start n flags plot =
      let typed = record plot { message_type = some (message_type_of flags) } in
      if (flags.beacon_message || flags.search_message)
        && not flags.rtqc_message
        && is_radar_name plot.message
      then some
          (record (plot_words_loop payload start (start + n) flags (n / bytes_per_word) 0 typed) {
            fingerprint = some (fingerprint_of payload start (start + n));
          })
      else if flags.rtqc_message
      then some
          (record typed { alert = some "RTQC"; alert_details = some "RTQC message detected." })
      else none

  unfoldable pub plot_at : Text → Capture → Outer → ℕ → ℕ → Result (Option ParsedPlot)
  plot_at now capture outer offset n = do
    let start = offset + ecg_message_block_header_bytes
    plot ← create_plot now capture outer offset
    flags ← classify_message outer.payload start (n / bytes_per_word)
    ok (finish_plot outer.payload start n flags plot)

  unfoldable pub parse_loop : Text → Capture → Outer → ℕ → ℕ → Result (List ParsedPlot)
  parse_loop now capture outer zero offset = elim (next_block outer.payload offset) [
    | finished ↦ ok []
    | _ ↦ err unfinished_loop
  ]
  parse_loop now capture outer (suc fuel) offset = elim (next_block outer.payload offset) [
    | finished ↦ ok []
    | header_overrun ↦ ok []
    | payload_overrun ↦ ok []
    | skipped ↦ parse_loop now capture outer fuel (offset + 1)
    | block n ↦ do
      plot ← plot_at now capture outer offset n
      rest ← parse_loop now capture outer fuel (offset + ecg_message_block_header_bytes + n)
      ok (cons_some plot rest)
  ]

  unfoldable pub parse_outer : Text → Capture → Outer → Result (List ParsedPlot)
  parse_outer now capture outer =
      if not (outer.ecg_message == 1)
      then ok []
      else parse_loop now capture outer (length outer.payload) ecg_message_block_header_bytes

  unfoldable pub parse_from : Text → Capture → List ℕ → Endpoints → Result (List ParsedPlot)
  parse_from now capture payload endpoints =
      if has_valid_length payload
      then (do outer ← outer_of payload endpoints; parse_outer now capture outer)
      else ok []

  abbrev pub parse_found : Text → Capture → Option (List ℕ × Endpoints) → Result (List ParsedPlot)
  parse_found now capture none = ok []
  parse_found now capture (some (payload, endpoints)) = parse_from now capture payload endpoints

  unfoldable pub parse_frame :
      Text → Option Text → Option Text → List ℕ → Bool → Result (List ParsedPlot)
  parse_frame now observer_interface timestamp frame skip_headers = do
    found ← find_payload frame skip_headers
    parse_found now
        (record {
          observer_interface = observer_interface;
          timestamp = timestamp;
          total_bytes = length frame;
        })
        found

  -- `records.extend(parse_frame(...))` over the frames; a frame that raises ends the loop.
  unfoldable pub parse_frames :
      Text → Option Text → Option Text → List (List ℕ) → Bool → Result (List ParsedPlot)
  parse_frames now observer_interface timestamp [] skip_headers = ok []
  parse_frames now observer_interface timestamp (frame ∷ frames) skip_headers = do
    plots ← parse_frame now observer_interface timestamp frame skip_headers
    rest ← parse_frames now observer_interface timestamp frames skip_headers
    ok (plots ++ rest)
