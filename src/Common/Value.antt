-- ===== src/Common/Value.antt =====
-- Python's values that the records of the live path hold, and its dictionaries, in the order of
-- insertion. A float is given by its `repr` and, if it is whole, by that integer. The methods of the
-- standard library that the program calls on such values and cannot be read here are a `Python`.
use oad_parser.Common.Tests.{◌==◌, if◌then◌else◌}
use oad_parser.Common.Int.{ℤ, pos, negsuc}
use oad_parser.Common.Text.{Text, codes, decimal, strip}
use oad_parser.Common.Dict.{equals_text}
use mathlib.Core.Bool.{Bool, true, false, not, ◌||◌}
use mathlib.Core.Option.{Option, none, some}
use mathlib.Core.List.{List, [], ◌∷◌}
use Prim.Native.Nat.{ℕ, ◌+◌}

mutual
  pub data Value : Type 0 where
    null : Value
    boolean : Bool → Value
    integer : ℤ → Value
    floating : Option ℤ → Text → Value
    text : Text → Value
    binary : List ℕ → Value
    sequence : Items → Value
    mapping : Fields → Value

  pub data Items : Type 0 where
    done : Items
    item : Value → Items → Items

  pub data Fields : Type 0 where
    end : Fields
    field : Text → Value → Fields → Fields

-- `str` of bytes, a list or a dictionary; `json.dumps` with or without sorted keys, in UTF-8;
-- `hashlib.sha256(...).hexdigest()`; and `c.isalpha()` and `c.isalnum()`.
pub record Python : Type 0 where
  pub repr : Value → Text
  pub dumps : Bool → Value → List ℕ
  pub sha256_hex : List ℕ → Text
  pub is_alpha : ℕ → Bool
  pub is_alnum : ℕ → Bool

abbrev pub is_null : Value → Bool
is_null null = true
is_null _ = false

-- `d[key]`, if the key is there
unfoldable pub find : Text → Fields → Option Value
find key end = none
find key (field k v d) = let rest = find key d in if equals_text k key then some v else rest

abbrev pub or_null : Option Value → Value
or_null none = null
or_null (some v) = v

-- `d.get(key)`
unfoldable pub get : Text → Fields → Value
unfolding find
get key d = or_null (find key d)

-- `key in d`
unfoldable pub has_key : Text → Fields → Bool
has_key key end = false
has_key key (field k v d) = equals_text k key || has_key key d

-- `d[key] = value`: a key that is there keeps its place.
unfoldable pub put : Text → Value → Fields → Fields
put key value end = field key value end
put key value (field k v d) =
    let rest = put key value d in if equals_text k key then field k value d else field k v rest

-- `d.setdefault(key, value)`
unfoldable pub set_default : Text → Value → Fields → Fields
unfolding has_key put
set_default key value d = if has_key key d then d else put key value d

-- `d.pop(key, None)`
unfoldable pub pop : Text → Fields → Fields
pop key end = end
pop key (field k v d) = let rest = pop key d in if equals_text k key then d else field k v rest

-- The elements of a list.
unfoldable pub items_of : Items → List Value
items_of done = []
items_of (item v vs) = v ∷ items_of vs

unfoldable pub sequence_of : List Value → Items
sequence_of [] = done
sequence_of (v ∷ vs) = item v (sequence_of vs)

-- The dictionaries of a list.
unfoldable pub mappings_of : Items → List Fields
mappings_of done = []
mappings_of (item (mapping d) vs) = d ∷ mappings_of vs
mappings_of (item null vs) = mappings_of vs
mappings_of (item (boolean _) vs) = mappings_of vs
mappings_of (item (integer _) vs) = mappings_of vs
mappings_of (item (floating _ _) vs) = mappings_of vs
mappings_of (item (text _) vs) = mappings_of vs
mappings_of (item (binary _) vs) = mappings_of vs
mappings_of (item (sequence _) vs) = mappings_of vs

-- A list of dictionaries.
unfoldable pub mappings : List Fields → Items
mappings [] = done
mappings (d ∷ ds) = item (mapping d) (mappings ds)

unfoldable pub decimal_ℤ : ℤ → Text
unfolding decimal
decimal_ℤ (pos n) = decimal n
decimal_ℤ (negsuc n) = 45 ∷ decimal (n + 1)

-- `str(value)`
unfoldable pub str : Python → Value → Text
unfolding decimal_ℤ
str py null = codes "None"
str py (boolean true) = codes "True"
str py (boolean false) = codes "False"
str py (integer n) = decimal_ℤ n
str py (floating whole repr) = repr
str py (text t) = t
str py (binary bytes) = py.repr (binary bytes)
str py (sequence items) = py.repr (sequence items)
str py (mapping d) = py.repr (mapping d)

abbrev pub equals_int : ℤ → ℤ → Bool
equals_int (pos m) (pos n) = m == n
equals_int (pos m) (negsuc n) = false
equals_int (negsuc m) (pos n) = false
equals_int (negsuc m) (negsuc n) = m == n

-- The integer that a value equals.
abbrev pub as_integer : Value → Option ℤ
as_integer (boolean true) = some (pos 1)
as_integer (boolean false) = some (pos 0)
as_integer (integer n) = some n
as_integer (floating whole repr) = whole
as_integer _ = none

abbrev pub equals_whole : Option ℤ → ℤ → Bool
equals_whole none n = false
equals_whole (some m) n = equals_int m n

abbrev pub equals_text_value : Value → Text → Bool
equals_text_value (text s) t = equals_text s t
equals_text_value _ t = false

-- `bool(value)`
abbrev pub is_truthy : Value → Bool
is_truthy null = false
is_truthy (boolean b) = b
is_truthy (integer n) = not (equals_int n (pos 0))
is_truthy (floating whole repr) = not (equals_whole whole (pos 0))
is_truthy (text []) = false
is_truthy (text (c ∷ t)) = true
is_truthy (binary []) = false
is_truthy (binary (b ∷ bs)) = true
is_truthy (sequence done) = false
is_truthy (sequence (item v vs)) = true
is_truthy (mapping end) = false
is_truthy (mapping (field k v d)) = true

-- A dictionary key: lists and dictionaries have no hash.
abbrev pub is_hashable : Value → Bool
is_hashable (sequence items) = false
is_hashable (mapping d) = false
is_hashable _ = true

abbrev pub equals_float : Option ℤ → Text → Value → Bool
equals_float whole repr (floating none r) = equals_text repr r
equals_float whole repr v = false

-- `==` between values that have a hash.
unfoldable pub equals_key : Value → Value → Bool
equals_key null v = is_null v
equals_key (text s) v = equals_text_value v s
equals_key (binary s) (binary t) = equals_text s t
equals_key (binary s) _ = false
equals_key (boolean true) v = equals_whole (as_integer v) (pos 1)
equals_key (boolean false) v = equals_whole (as_integer v) (pos 0)
equals_key (integer n) v = equals_whole (as_integer v) n
equals_key (floating (some n) repr) v = equals_whole (as_integer v) n
equals_key (floating none repr) v = equals_float none repr v
equals_key (sequence items) v = false
equals_key (mapping d) v = false

-- `_clean_str` of oad_parser/live/writer.py and oad_parser/live/alerts.py
abbrev pub nonempty_text : Text → Option Text
nonempty_text [] = none
nonempty_text (c ∷ t) = some (c ∷ t)

unfoldable pub clean_str : Python → Value → Option Text
clean_str py null = none
clean_str py v = nonempty_text (strip (str py v))

-- `_clean_str(value) == t`
abbrev pub is_text : Option Text → Text → Bool
is_text none t = false
is_text (some s) t = equals_text s t

abbrev pub text_or_null : Option Text → Value
text_or_null none = null
text_or_null (some t) = text t

unfoldable pub contains_text : Text → List Text → Bool
contains_text t [] = false
contains_text t (u ∷ us) = equals_text u t || contains_text t us
