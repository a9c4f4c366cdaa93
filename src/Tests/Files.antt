-- ===== src/Tests/Files.antt =====
-- A capture file of two packets, for oad_parser/ingest/pcap.py, and a run of keys, for
-- oad_parser/live/writer.py.
use oad_parser.Common.{
  ◌+◌, ◌≤◌, ◌≡◌, refl, arith, true, none, List, [], ◌∷◌, ◌++◌, map, length, replicate,
}
use oad_parser.Common.Text.{Text}
use oad_parser.Pcap.Reader.{little, iter_pcap_packets}
use oad_parser.Pcap.RoundTrip.{
  Captured, magic_bytes, file_bytes, read_back, resolution_of, iter_pcap_packets-file,
}
use oad_parser.Live.DuplicateKeys.{new_accounting, register, register_all}
use oad_parser.Live.Counts.{count_of, occurrences, register_all-occurrences}

abbrev captured : List Captured
captured =
    record { seconds = 1000; fraction = 5; original_length = 3; captured_bytes = 1 ∷ 2 ∷ [] }
    ∷ record { seconds = 1001; fraction = 6; original_length = 0; captured_bytes = [] }
    ∷ []

iter_pcap_packets-file_example :
    iter_pcap_packets (magic_bytes little true ++ replicate 20 0 ++ file_bytes little captured)
    ≡ (map (read_back (resolution_of true)) captured, none)
iter_pcap_packets-file_example =
    iter_pcap_packets-file little true (replicate 20 0) captured refl
      (omega arith, (omega arith, tt))

abbrev keys : List Text
keys = (1 ∷ []) ∷ (2 ∷ []) ∷ (1 ∷ []) ∷ []

register_all-occurrences_example :
    (count_of (1 ∷ []) (register_all keys new_accounting) ≡ occurrences (1 ∷ []) keys)
    × ((register (1 ∷ []) (register_all keys new_accounting)).1 ≡ occurrences (1 ∷ []) keys + 1)
    × ((register_all keys new_accounting).observations ≡ length keys)
    × (occurrences (1 ∷ []) keys ≤ (register_all keys new_accounting).max_key_count)
    × (top : Text) × (occurrences top keys ≡ (register_all keys new_accounting).max_key_count)
register_all-occurrences_example = register_all-occurrences keys (1 ∷ [])
