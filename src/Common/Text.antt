-- ===== src/Common/Text.antt =====
-- Texts that the program formats, as lists of code points, decimal and octal digits, and the methods of `str`.
use Prim.Native.Nat.{ℕ, zero, suc, ◌+◌, ◌/◌, ◌%◌}
use Prim.Native.Char.{code}
use Prim.Native.String.{String}
use mathlib.Core.Bool.{Bool, true, false, ◌&&◌, ◌||◌}
use mathlib.Core.List.{List, [], ◌∷◌, ◌++◌, reverse}
use oad_parser.Common.Tests.{ltb, leb, ◌==◌, if◌then◌else◌}

abbrev pub Text : Type 0
Text = List ℕ

-- A literal of the source, as its code points.
abbrev pub codes : String → Text
codes String.[] = []
codes (String.◌∷◌ c s) = code c ∷ codes s

-- The digits of `n`, most significant first; `n` itself bounds how many there are.
unfoldable pub digits_of : ℕ → ℕ → ℕ → List ℕ
digits_of base zero n = n ∷ []
digits_of base (suc fuel) n = elim (ltb n base) [
  | true ↦ n ∷ []
  | false ↦ digits_of base fuel (n / base) ++ (n % base ∷ [])
]

unfoldable pub digit_codes : List ℕ → Text
digit_codes [] = []
digit_codes (d ∷ ds) = (48 + d) ∷ digit_codes ds

-- str(n)
unfoldable pub decimal : ℕ → Text
unfolding digits_of digit_codes
decimal n = digit_codes (digits_of 10 n n)

-- separator.join(texts)
unfoldable pub join : Text → List Text → Text
join separator [] = []
join separator (t ∷ []) = t
join separator (t ∷ u ∷ ts) = t ++ (separator ++ join separator (u ∷ ts))

-- c.isspace()
unfoldable pub is_space : ℕ → Bool
is_space c =
    (leb 9 c && leb c 13)
    || (leb 28 c && leb c 32)
    || c == 133
    || c == 160
    || c == 5760
    || (leb 8192 c && leb c 8202)
    || c == 8232
    || c == 8233
    || c == 8239
    || c == 8287
    || c == 12288

unfoldable pub drop_spaces : Text → Text
unfolding is_space
drop_spaces [] = []
drop_spaces (c ∷ t) = let rest = drop_spaces t in if is_space c then rest else c ∷ t

-- text.strip()
unfoldable pub strip : Text → Text
unfolding drop_spaces
strip t = reverse (drop_spaces (reverse (drop_spaces t)))

unfoldable pub before : ℕ → Text → Text
before c [] = []
before c (d ∷ t) = let rest = before c t in if d == c then [] else d ∷ rest

unfoldable pub contains_char : ℕ → Text → Bool
contains_char c [] = false
contains_char c (d ∷ t) = d == c || contains_char c t

-- text.rsplit(separator, 1)[-1], for a separator of one character
unfoldable pub after_last : ℕ → Text → Text
unfolding before
after_last c t = reverse (before c (reverse t))

abbrev pub lower_char : ℕ → ℕ
lower_char c = if leb 65 c && leb c 90 then c + 32 else if c == 8490 then 107 else c

-- text.lower(), as far as ASCII results go: `A` to `Z`, and the Kelvin sign.
unfoldable pub lower : Text → Text
lower [] = []
lower (c ∷ t) = lower_char c ∷ lower t

-- text.startswith(prefix)
unfoldable pub starts_with : Text → Text → Bool
starts_with t [] = true
starts_with [] (p ∷ prefix) = false
starts_with (c ∷ t) (p ∷ prefix) = (c == p) && starts_with t prefix

-- text.endswith(suffix)
unfoldable pub ends_with : Text → Text → Bool
unfolding starts_with
ends_with t suffix = starts_with (reverse t) (reverse suffix)
