-- ===== src/Pcap/RoundTrip.antt =====
-- A file that is written as oad_parser/ingest/pcap.py describes it is read back packet by packet.
use oad_parser.Common.{
  ℕ, zero, suc, ◌+◌, ◌/◌, ◌%◌, ◌≤◌, ◌<◌, ◌≡◌, refl, subst, ap, ap₂, map, All, ◌∙◌, arith, Bool,
  true, false, none, some, List, [], ◌∷◌, ◌++◌, ltb, length, take, drop, if◌then◌else◌, parse_error,
  length-append, take_front, take-append_length, drop-append_length,
}
use oad_parser.Pcap.Reader.{
  Round, end_of_file, packets_of, failed, PcapPacket, Endian, little, big, uint32_of, pcap_format,
  next_packet, packet, packet_loop, iter_pcap_packets,
}

-- The four bytes of a number below 2 ^ 32.
abbrev pub uint32_bytes : Endian → ℕ → List ℕ
uint32_bytes little n = n % 256 ∷ n / 256 % 256 ∷ n / 65536 % 256 ∷ n / 16777216 ∷ []
uint32_bytes big n = n / 16777216 ∷ n / 65536 % 256 ∷ n / 256 % 256 ∷ n % 256 ∷ []

uint32_of-bytes : (endian : Endian) (n : ℕ) → uint32_of endian (uint32_bytes endian n) ≡ n
uint32_of-bytes little n = omega arith
uint32_of-bytes big n = omega arith

length-uint32_bytes : (endian : Endian) (n : ℕ) → length (uint32_bytes endian n) ≡ 4
length-uint32_bytes little n = refl
length-uint32_bytes big n = refl

drop_front : (xs ys : List ℕ) (n : ℕ) → length xs ≡ n → drop n (xs ++ ys) ≡ ys
drop_front xs ys n h = subst (λ k. drop k (xs ++ ys) ≡ ys) h (drop-append_length xs ys)

-- A captured packet with the length it had on the wire.
pub record Captured : Type 0 where
  pub seconds : ℕ
  pub fraction : ℕ
  pub original_length : ℕ
  pub captured_bytes : List ℕ

abbrev pub packet_bytes : Endian → Captured → List ℕ
packet_bytes endian c =
    uint32_bytes endian c.seconds
    ++ (uint32_bytes endian c.fraction
        ++ (uint32_bytes endian (length c.captured_bytes)
            ++ (uint32_bytes endian c.original_length ++ c.captured_bytes)))

abbrev pub file_bytes : Endian → List Captured → List ℕ
file_bytes endian [] = []
file_bytes endian (c ∷ cs) = packet_bytes endian c ++ file_bytes endian cs

-- The packet that the reader yields for it.
abbrev pub read_back : ℕ → Captured → PcapPacket
read_back resolution c = record {
  timestamp_seconds = c.seconds;
  timestamp_fraction = c.fraction;
  data_bytes = c.captured_bytes;
  timestamp_fraction_resolution = resolution;
}

-- `packet_from` with its four numbers already read.
abbrev packet_with : ℕ → ℕ → ℕ → ℕ → ℕ → List ℕ → Round
packet_with resolution seconds fraction incl_len orig_len rest =
    if ltb orig_len incl_len
    then failed (parse_error "pcap captured packet length exceeds original packet length")
    else if ltb (length (take incl_len rest)) incl_len
    then failed (parse_error "pcap packet length exceeds file size")
    else packet
        (record {
          timestamp_seconds = seconds;
          timestamp_fraction = fraction;
          data_bytes = take incl_len rest;
          timestamp_fraction_resolution = resolution;
        })
        (drop incl_len rest)

not_longer : (a b : ℕ) → a ≤ b → ltb b a ≡ false
not_longer a b h = ground arith

packet_with-captured :
    (resolution : ℕ) (c : Captured) (tail : List ℕ)
    → length c.captured_bytes ≤ c.original_length
    → packet_with resolution c.seconds c.fraction
        (length c.captured_bytes)
        c.original_length
        (c.captured_bytes ++ tail)
      ≡ packet (read_back resolution c) tail
packet_with-captured resolution c tail h =
    let front = take-append_length c.captured_bytes tail in
    let back = drop-append_length c.captured_bytes tail in
    let fits = not_longer (length c.captured_bytes) c.original_length h in
    let whole = not_longer (length c.captured_bytes) (length c.captured_bytes) (omega arith) in
    rw (fits, front, back, whole) refl

numbers_read :
    (endian : Endian) (resolution : ℕ) (c : Captured) (rest : List ℕ)
    → packet_with resolution
        (uint32_of endian (uint32_bytes endian c.seconds))
        (uint32_of endian (uint32_bytes endian c.fraction))
        (uint32_of endian (uint32_bytes endian (length c.captured_bytes)))
        (uint32_of endian (uint32_bytes endian c.original_length))
        rest
      ≡ packet_with resolution c.seconds c.fraction (length c.captured_bytes) c.original_length rest
numbers_read endian resolution c rest =
    let read = uint32_of-bytes endian in
    ap₂
      (λ s f.
        packet_with resolution s f
          (uint32_of endian (uint32_bytes endian (length c.captured_bytes)))
          (uint32_of endian (uint32_bytes endian c.original_length)) rest)
      (read c.seconds) (read c.fraction)
    ∙ ap₂ (λ i o. packet_with resolution c.seconds c.fraction i o rest)
        (read (length c.captured_bytes)) (read c.original_length)

next_packet-captured :
    (endian : Endian) (resolution : ℕ) (c : Captured) (tail : List ℕ)
    → length c.captured_bytes ≤ c.original_length
    → next_packet endian resolution (packet_bytes endian c ++ tail)
      ≡ packet (read_back resolution c) tail
unfolding next_packet
next_packet-captured little resolution c tail h =
    numbers_read little resolution c (c.captured_bytes ++ tail)
    ∙ packet_with-captured resolution c tail h
next_packet-captured big resolution c tail h =
    numbers_read big resolution c (c.captured_bytes ++ tail)
    ∙ packet_with-captured resolution c tail h

abbrev pub FitsWire : Captured → Type 0
FitsWire c = length c.captured_bytes ≤ c.original_length

next_packet-end :
    (endian : Endian) (resolution : ℕ) → next_packet endian resolution [] ≡ end_of_file
unfolding next_packet
next_packet-end endian resolution = refl

packet_loop-end :
    (endian : Endian) (resolution fuel : ℕ) (file : List ℕ)
    → next_packet endian resolution file ≡ end_of_file
    → packet_loop endian resolution (suc fuel) file ≡ ([], none)
unfolding packet_loop
packet_loop-end endian resolution fuel file e = rw (e, packet_loop) refl

packet_loop-packet :
    (endian : Endian) (resolution fuel : ℕ) (file rest : List ℕ) (p : PcapPacket)
    (ps : List PcapPacket)
    → next_packet endian resolution file ≡ packet p rest
    → packet_loop endian resolution fuel rest ≡ (ps, none)
    → packet_loop endian resolution (suc fuel) file ≡ (p ∷ ps, none)
unfolding packet_loop
packet_loop-packet endian resolution fuel file rest p ps e k = rw (e, k, packet_loop) refl

packet_loop-file_bytes :
    (endian : Endian) (resolution fuel : ℕ) (cs : List Captured)
    → All FitsWire cs
    → length cs < fuel
    → packet_loop endian resolution fuel (file_bytes endian cs)
      ≡ (map (read_back resolution) cs, none)
packet_loop-file_bytes endian resolution zero cs fit h = absurd (omega arith)
packet_loop-file_bytes endian resolution (suc fuel) [] fit h =
    packet_loop-end endian resolution fuel [] (next_packet-end endian resolution)
packet_loop-file_bytes endian resolution (suc fuel) (c ∷ cs) (fits, fit) h =
    let ih = packet_loop-file_bytes endian resolution fuel cs fit (omega arith) in
    packet_loop-packet endian resolution fuel (file_bytes endian (c ∷ cs)) (file_bytes endian cs)
      (read_back resolution c) (map (read_back resolution) cs)
      (next_packet-captured endian resolution c (file_bytes endian cs) fits) ih

-- The magic number of a format.
abbrev pub magic_bytes : Endian → Bool → List ℕ
magic_bytes little false = 0xd4 ∷ 0xc3 ∷ 0xb2 ∷ 0xa1 ∷ []
magic_bytes big false = 0xa1 ∷ 0xb2 ∷ 0xc3 ∷ 0xd4 ∷ []
magic_bytes little true = 0x4d ∷ 0x3c ∷ 0xb2 ∷ 0xa1 ∷ []
magic_bytes big true = 0xa1 ∷ 0xb2 ∷ 0x3c ∷ 0x4d ∷ []

abbrev pub resolution_of : Bool → ℕ
resolution_of false = 1000000
resolution_of true = 1000000000

magic_read :
    (endian : Endian) (nano : Bool)
    → pcap_format (magic_bytes endian nano) ≡ some (endian, resolution_of nano)
unfolding pcap_format
magic_read little false = refl
magic_read little true = refl
magic_read big false = refl
magic_read big true = refl

length-file_bytes :
    (endian : Endian) (cs : List Captured) → length cs ≤ length (file_bytes endian cs)
length-file_bytes endian [] = omega arith
length-file_bytes little (c ∷ cs) =
    let ih = length-file_bytes little cs in
    omega (arith, ih, length-append c.captured_bytes (file_bytes little cs))
length-file_bytes big (c ∷ cs) =
    let ih = length-file_bytes big cs in
    omega (arith, ih, length-append c.captured_bytes (file_bytes big cs))

iter_pcap_packets-parts :
    (magic settings body : List ℕ)
    → length magic ≡ 4
    → length settings ≡ 20
    → iter_pcap_packets (magic ++ settings ++ body) ≡ packets_of (pcap_format magic) body
unfolding iter_pcap_packets
iter_pcap_packets-parts magic settings body four twenty =
    let whole : length (magic ++ settings) ≡ 24 =
      omega (arith, length-append magic settings, four, twenty) in
    rw
      (
        take_front (magic ++ settings) body 24 whole,
        take_front magic settings 4 four,
        whole,
        drop_front (magic ++ settings) body 24 whole,
      )
      refl

length-magic_bytes : (endian : Endian) (nano : Bool) → length (magic_bytes endian nano) ≡ 4
length-magic_bytes little false = refl
length-magic_bytes little true = refl
length-magic_bytes big false = refl
length-magic_bytes big true = refl

-- A file that starts with one of the four magic numbers and twenty bytes of settings, and goes on with
-- packets no longer than they were on the wire, is read to exactly these packets, with their times
-- and the resolution of the magic number, and without an error.
pub iter_pcap_packets-file :
    (endian : Endian) (nano : Bool) (settings : List ℕ) (cs : List Captured)
    → length settings ≡ 20
    → All FitsWire cs
    → iter_pcap_packets (magic_bytes endian nano ++ settings ++ file_bytes endian cs)
      ≡ (map (read_back (resolution_of nano)) cs, none)
iter_pcap_packets-file endian nano settings cs twenty fit =
    let body = file_bytes endian cs in
    iter_pcap_packets-parts (magic_bytes endian nano) settings body (length-magic_bytes endian nano)
      twenty
    ∙ ap (λ format. packets_of format body) (magic_read endian nano)
    ∙ packet_loop-file_bytes endian (resolution_of nano) (length body + 1) cs fit
        (omega (arith, length-file_bytes endian cs))
