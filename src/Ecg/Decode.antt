-- ===== src/Ecg/Decode.antt =====
-- `_decode_text` and `_strip_trailing_null` of oad_parser/parsers/ecg.py: ASCII, else UTF-8 in
-- which each maximal ill-formed part becomes U+FFFD, as Python's "replace" handler does.
use oad_parser.Common.{
  ℕ, ◌+◌, ◌-◌, ◌*◌, Bool, true, ◌&&◌, List, [], ◌∷◌, ◌++◌, ltb, leb, ◌==◌, if◌then◌else◌,
}
use oad_parser.Common.Text.{Text}

unfoldable pub is_ascii : List ℕ → Bool
is_ascii [] = true
is_ascii (b ∷ bs) = ltb b 128 && is_ascii bs

abbrev pub in_range : ℕ → ℕ → ℕ → Bool
in_range lo hi b = leb lo b && leb b hi

abbrev pub replacement : ℕ
replacement = 0xfffd

-- How many continuation bytes the lead byte announces, and the range of the first of them.
pub record Lead : Type 0 where
  pub more : ℕ
  pub low : ℕ
  pub high : ℕ
  pub bits : ℕ

unfoldable pub lead_of : ℕ → Lead
lead_of b =
    if in_range 0xc2 0xdf b
    then record { more = 1; low = 0x80; high = 0xbf; bits = b - 0xc0 }
    else if b == 0xe0
    then record { more = 2; low = 0xa0; high = 0xbf; bits = 0 }
    else if b == 0xed
    then record { more = 2; low = 0x80; high = 0x9f; bits = 13 }
    else if in_range 0xe1 0xef b
    then record { more = 2; low = 0x80; high = 0xbf; bits = b - 0xe0 }
    else if b == 0xf0
    then record { more = 3; low = 0x90; high = 0xbf; bits = 0 }
    else if in_range 0xf1 0xf3 b
    then record { more = 3; low = 0x80; high = 0xbf; bits = b - 0xf0 }
    else if b == 0xf4
    then record { more = 3; low = 0x80; high = 0x8f; bits = 4 }
    else record { more = 0; low = 0; high = 0; bits = 0 }

-- A first byte: a character of its own, a lead byte with continuation bytes to come, or an error.
-- What is left to do after it: characters to emit, and the continuation state.
pub record Utf8State : Type 0 where
  pub left : ℕ
  pub low : ℕ
  pub high : ℕ
  pub bits : ℕ

abbrev pub between : Utf8State
between = record { left = 0; low = 0; high = 0; bits = 0 }

unfoldable pub first_byte : ℕ → Text × Utf8State
first_byte b =
    let lead = lead_of b in
    if ltb b 128
    then (b ∷ [], between)
    else if lead.more == 0
    then (replacement ∷ [], between)
    else ([], record { left = lead.more; low = lead.low; high = lead.high; bits = lead.bits })

-- A byte where a continuation is due: it is taken, or it ends an ill-formed part and is read as a
-- first byte.
unfoldable pub next_byte : Utf8State → ℕ → Text × Utf8State
next_byte s b =
    if s.left == 0
    then first_byte b
    else if in_range s.low s.high b
    then (if s.left == 1 then ((s.bits * 64 + (b - 0x80)) ∷ [], between) else (
      [],
      record { left = s.left - 1; low = 0x80; high = 0xbf; bits = s.bits * 64 + (b - 0x80) },
    ))
    else (replacement ∷ (first_byte b).0, (first_byte b).1)

unfoldable pub utf_8_replace : Utf8State → List ℕ → Text
utf_8_replace s [] = if s.left == 0 then [] else replacement ∷ []
utf_8_replace s (b ∷ bs) = (next_byte s b).0 ++ utf_8_replace (next_byte s b).1 bs

unfoldable pub decode_text : List ℕ → Text
decode_text value = if is_ascii value then value else utf_8_replace between value

-- A character goes if it is null and nothing is left behind it.
abbrev pub keep_unless_null : ℕ → Text → Text
keep_unless_null c [] = if c == 0 then [] else c ∷ []
keep_unless_null c (d ∷ ds) = c ∷ d ∷ ds

-- value.rstrip("\x00")
unfoldable pub strip_trailing_null : Text → Text
strip_trailing_null [] = []
strip_trailing_null (c ∷ cs) = keep_unless_null c (strip_trailing_null cs)
