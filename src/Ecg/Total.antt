-- ===== src/Ecg/Total.antt =====
-- The ECG functions of oad_parser/parsers/ecg.py return on every frame of bytes.
use oad_parser.Common.{
  ok_injective, All, IsByte, ℕ, ◌+◌, ◌/◌, ◌≤◌, ◌≡◌, refl, sym, ap, >>=-eq-ok, arith, ◌==◌, ltb,
  Bool, true, false, ◌||◌, Option, none, some, List, [], ◌∷◌, length, if_intro, Result, ok, ◌>>=◌,
  Returns, Returns-bind, byte_at, byte_at_total,
}
use oad_parser.Common.Text.{Text}
use oad_parser.Udp.FrameLaws.{parse_ipv4_udp_frame_total}
use oad_parser.Ecg.Block.{classify_message}
use oad_parser.Ecg.Envelope.{
  Endpoints, Outer, find_payload, has_valid_length, outer_of, envelope_at, extract_from,
  extract_found, extract_ecg_messages, extract_loop,
}
use oad_parser.Ecg.Plot.{
  Capture, create_plot, plot_at, parse_loop, parse_outer, parse_from, parse_found, parse_frame,
  parse_frames,
}
use oad_parser.Ecg.Walk.{AreLaidOut, blocks_from, Walk-AreLaidOut}
use oad_parser.Ecg.Loops.{traverse, extract_loop-Walk, parse_loop-Walk}

first_word_fits :
    (words start total : ℕ) → (words == 0 || ltb total (start + 2)) ≡ false → start + 2 ≤ total
first_word_fits words start total h = ground arith

classify_message-Returns :
    (payload : List ℕ) (start words : ℕ) → Returns (classify_message payload start words)
unfolding classify_message
classify_message-Returns payload start words =
    if_intro Returns _ _ _ (λ _. (_, refl))
      λ h.
        let fits = first_word_fits words start (length payload) h in
        Returns-bind (byte_at payload start) _ (byte_at_total payload start (omega arith)) λ a _.
          Returns-bind (byte_at payload (start + 1)) _
            (byte_at_total payload (start + 1) (omega arith)) λ b _. (_, refl)

-- The bytes of a header that lies in the payload.
header-Returns {ℓ} :
    {A : Type ℓ} (payload : List ℕ) (offset : ℕ) (f : ℕ → ℕ → ℕ → A)
    → offset + 16 ≤ length payload
    → Returns (
        byte_at payload (offset + 8) >>= λ code. byte_at payload (offset + 9) >>= λ sequence.
        byte_at payload (offset + 10) >>= λ channel. ok (f code sequence channel))
header-Returns payload offset f h =
    Returns-bind (byte_at payload (offset + 8)) _ (byte_at_total payload (offset + 8) (omega arith))
      (λ _ _.
        Returns-bind (byte_at payload (offset + 9)) _
          (byte_at_total payload (offset + 9) (omega arith))
          (λ _ _.
            Returns-bind (byte_at payload (offset + 10)) _
              (byte_at_total payload (offset + 10) (omega arith)) (λ _ _. (_, refl))))

envelope_at-Returns :
    (outer : Outer) (offset n : ℕ)
    → offset + 16 + n ≤ length outer.payload
    → Returns (envelope_at outer offset n)
unfolding envelope_at
envelope_at-Returns outer offset n h =
    Returns-bind (classify_message outer.payload (offset + 16) (n / 2)) _
      (classify_message-Returns outer.payload (offset + 16) (n / 2))
      (λ flags _. header-Returns outer.payload offset _ (omega arith))

plot_at-Returns :
    (sha256 : List ℕ → Text) (now : Text) (capture : Capture) (outer : Outer) (offset n : ℕ)
    → offset + 16 + n ≤ length outer.payload
    → Returns (plot_at sha256 now capture outer offset n)
unfolding plot_at create_plot
plot_at-Returns sha256 now capture outer offset n h =
    Returns-bind (create_plot now capture outer offset) _
      (header-Returns outer.payload offset _ (omega arith))
      (λ plot _.
        Returns-bind (classify_message outer.payload (offset + 16) (n / 2)) _
          (classify_message-Returns outer.payload (offset + 16) (n / 2)) (λ _ _. (_, refl)))

traverse-Returns {ℓ} :
    {A : Type ℓ} (payload : List ℕ) (f : ℕ → ℕ → Result A)
    → ((offset n : ℕ) → offset + 16 + n ≤ length payload → Returns (f offset n))
    → (from : ℕ) (blocks : List (ℕ × ℕ)) → AreLaidOut payload from blocks
    → Returns (traverse f blocks)
unfolding traverse
traverse-Returns payload f h from [] a = ([], refl)
traverse-Returns payload f h from ((offset, n) ∷ blocks) (_, (fits, (_, (_, a)))) =
    let ih = traverse-Returns payload f h (offset + 16 + n) blocks a in
    Returns-bind (f offset n) _ (h offset n fits)
      (λ x _. Returns-bind (traverse f blocks) _ ih (λ xs _. (_, refl)))

pub extract_loop-Returns :
    (outer : Outer) (fuel offset : ℕ)
    → length outer.payload ≤ offset + fuel
    → Returns (extract_loop outer fuel offset)
extract_loop-Returns outer fuel offset h =
    let (blocks, end, w) = blocks_from outer.payload fuel offset h in
    rw (extract_loop-Walk outer fuel offset w h) (
      traverse-Returns outer.payload (envelope_at outer) (envelope_at-Returns outer) offset blocks
        (Walk-AreLaidOut outer.payload offset w))

pub parse_loop-Returns :
    (sha256 : List ℕ → Text) (now : Text) (capture : Capture) (outer : Outer) (fuel offset : ℕ)
    → length outer.payload ≤ offset + fuel
    → Returns (parse_loop sha256 now capture outer fuel offset)
parse_loop-Returns sha256 now capture outer fuel offset h =
    let (blocks, end, w) = blocks_from outer.payload fuel offset h in
    let plots = plot_at sha256 now capture outer in
    rw (parse_loop-Walk sha256 now capture outer fuel offset w h) (
      Returns-bind (traverse plots blocks) _
        (traverse-Returns outer.payload plots (plot_at-Returns sha256 now capture outer) offset
          blocks (Walk-AreLaidOut outer.payload offset w))
        (λ qs _. (_, refl)))

pub length_of-valid : (payload : List ℕ) → has_valid_length payload ≡ true → 18 ≤ length payload
unfolding has_valid_length
length_of-valid payload h = ground arith

pub outer_of-Returns :
    (payload : List ℕ) (endpoints : Endpoints)
    → 18 ≤ length payload
    → Returns (outer_of payload endpoints)
unfolding outer_of
outer_of-Returns payload endpoints h =
    Returns-bind (byte_at payload 8) _ (byte_at_total payload 8 (omega arith)) (λ _ _. (_, refl))

pub outer_of-payload :
    (payload : List ℕ) (endpoints : Endpoints) (outer : Outer)
    → outer_of payload endpoints ≡ ok outer
    → outer.payload ≡ payload
unfolding outer_of
outer_of-payload payload endpoints outer h =
    let (_, _, e) = >>=-eq-ok (byte_at payload 8) _ h in ap (λ o. o.payload) (sym (ok_injective e))

outer_fuel :
    (payload : List ℕ) (endpoints : Endpoints) (outer : Outer)
    → outer_of payload endpoints ≡ ok outer
    → length outer.payload ≤ 16 + length payload
outer_fuel payload endpoints outer h =
    omega (arith, ap (λ p. length p) (outer_of-payload payload endpoints outer h))

extract_from-Returns :
    (payload : List ℕ) (endpoints : Endpoints) → Returns (extract_from payload endpoints)
unfolding extract_from
extract_from-Returns payload endpoints =
    if_intro Returns (has_valid_length payload) _ _
      (λ h.
        Returns-bind (outer_of payload endpoints) _
          (outer_of-Returns payload endpoints (length_of-valid payload h))
          (λ outer e.
            extract_loop-Returns outer (length payload) 16 (outer_fuel payload endpoints outer e)))
      (λ _. ([], refl))

find_payload-Returns :
    (frame : List ℕ) (skip_headers : Bool)
    → All IsByte frame
    → Returns (find_payload frame skip_headers)
unfolding find_payload
find_payload-Returns frame true h =
    Returns-bind _ _ (parse_ipv4_udp_frame_total frame h) (λ udp _. (_, refl))
find_payload-Returns frame false h = (_, refl)

extract_found-Returns : (found : Option (List ℕ × Endpoints)) → Returns (extract_found found)
extract_found-Returns none = ([], refl)
extract_found-Returns (some (payload, endpoints)) = extract_from-Returns payload endpoints

-- `extract_ecg_messages` returns on every frame of bytes, with or without headers: no read is out of
-- range, no length overflows, and the loop over the blocks ends, since a loop that has not ended within
-- one round for each byte of the payload would come to the error `unfinished_loop`.
pub extract_ecg_messages_total :
    (frame : List ℕ) (skip_headers : Bool)
    → All IsByte frame
    → Returns (extract_ecg_messages frame skip_headers)
unfolding extract_ecg_messages
extract_ecg_messages_total frame skip_headers h =
    Returns-bind _ _ (find_payload-Returns frame skip_headers h)
      (λ found _. extract_found-Returns found)

module _ (sha256 : List ℕ → Text) (now : Text) (capture : Capture) where
  parse_outer-Returns : (outer : Outer) → Returns (parse_outer sha256 now capture outer)
  unfolding parse_outer
  parse_outer-Returns outer =
      if_intro Returns _ _ _ (λ _. ([], refl))
        (λ _. parse_loop-Returns sha256 now capture outer (length outer.payload) 16 (omega arith))

  parse_from-Returns :
      (payload : List ℕ) (endpoints : Endpoints)
      → Returns (parse_from sha256 now capture payload endpoints)
  unfolding parse_from
  parse_from-Returns payload endpoints =
      if_intro Returns (has_valid_length payload) _ _
        (λ h.
          Returns-bind (outer_of payload endpoints) _
            (outer_of-Returns payload endpoints (length_of-valid payload h))
            (λ outer _. parse_outer-Returns outer))
        (λ _. ([], refl))

  parse_found-Returns :
      (found : Option (List ℕ × Endpoints)) → Returns (parse_found sha256 now capture found)
  parse_found-Returns none = ([], refl)
  parse_found-Returns (some (payload, endpoints)) = parse_from-Returns payload endpoints

pub parse_frame_total :
    (sha256 : List ℕ → Text) (now : Text) (interface timestamp : Option Text) (frame : List ℕ)
    (skip_headers : Bool)
    → All IsByte frame
    → Returns (parse_frame sha256 now interface timestamp frame skip_headers)
unfolding parse_frame
parse_frame_total sha256 now interface timestamp frame skip_headers h =
    Returns-bind _ _ (find_payload-Returns frame skip_headers h)
      (λ found _. parse_found-Returns sha256 now _ found)

-- `parse_frames` returns on every list of frames of bytes, whatever the hash and the time are: no read
-- is out of range, no length overflows, and on every frame the loop over the blocks ends, since a loop
-- that has not ended within one round for each byte of the payload would come to `unfinished_loop`.
pub parse_frames_total :
    (sha256 : List ℕ → Text) (now : Text) (interface timestamp : Option Text)
    (frames : List (List ℕ)) (skip_headers : Bool)
    → All (All IsByte) frames
    → Returns (parse_frames sha256 now interface timestamp frames skip_headers)
unfolding parse_frames
parse_frames_total sha256 now interface timestamp [] skip_headers h = ([], refl)
parse_frames_total sha256 now interface timestamp (frame ∷ frames) skip_headers h =
    let ih = parse_frames_total sha256 now interface timestamp frames skip_headers h.1 in
    Returns-bind _ _ (parse_frame_total sha256 now interface timestamp frame skip_headers h.0)
      (λ plots _. Returns-bind _ _ ih (λ rest _. (_, refl)))
