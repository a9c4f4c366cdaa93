-- ===== src/Decoders/Registry.antt =====
-- `DecoderRegistry` of oad_parser/decoders/registry.py. The decoders give a message of any type.
use oad_parser.Common.{
  Bool, true, false, Option, none, some, List, [], ◌∷◌, ◌==◌, ltb, if◌then◌else◌,
}
use oad_parser.Common.Text.{Text}
use oad_parser.Common.Dict.{lookup, insert}
use oad_parser.Cd2.Frame.{Cd2Frame}

-- The `ValueError`s of the registry, with what their texts name.
pub data RegistryError : Type 0 where
  name_required : RegistryError
  already_registered : Text → RegistryError
  unknown_decoder : Text → List Text → RegistryError

pub data Reply {ℓ} (A : Type ℓ) : Type ℓ where
  value : A → Reply A
  raised : RegistryError → Reply A

-- `<=` on strings
unfoldable pub leb_text : Text → Text → Bool
leb_text [] t = true
leb_text (c ∷ cs) [] = false
leb_text (c ∷ cs) (d ∷ ds) = let rest = leb_text cs ds in if c == d then rest else ltb c d

abbrev pub insert_sorted : Text → List Text → List Text
insert_sorted t [] = t ∷ []
insert_sorted t (u ∷ us) =
    let rest = insert_sorted t us in if leb_text t u then t ∷ u ∷ us else u ∷ rest

module _ {ℓ} (Message : Type ℓ) where
  pub record DecoderEntry : Type ℓ where
    pub name : Text
    pub description : Text
    pub decode : Cd2Frame → Message

  abbrev pub DecoderRegistry : Type ℓ
  DecoderRegistry = List (Text × DecoderEntry)

  abbrev pub is_some_entry : Option DecoderEntry → Bool
  is_some_entry none = false
  is_some_entry (some entry) = true

  abbrev pub is_blank : Text → Bool
  is_blank [] = true
  is_blank (c ∷ cs) = false

  -- `register`; an exception leaves the registry as it was.
  unfoldable pub register_entry : DecoderEntry → DecoderRegistry → Reply DecoderRegistry
  register_entry entry registry =
      if is_blank entry.name
      then raised name_required
      else if is_some_entry (lookup entry.name registry)
      then raised (already_registered entry.name)
      else value (insert entry.name entry registry)

  -- `sorted(self._decoders)`
  unfoldable pub names : DecoderRegistry → List Text
  names [] = []
  names ((name, entry) ∷ registry) = insert_sorted name (names registry)

  abbrev pub found_or_raise : Text → List Text → Option DecoderEntry → Reply DecoderEntry
  found_or_raise name available none = raised (unknown_decoder name available)
  found_or_raise name available (some entry) = value entry

  unfoldable pub get_entry : Text → DecoderRegistry → Reply DecoderEntry
  get_entry name registry = found_or_raise name (names registry) (lookup name registry)

  abbrev pub decoded_by : Cd2Frame → Reply DecoderEntry → Reply Message
  decoded_by frame (value entry) = value (entry.decode frame)
  decoded_by frame (raised error) = raised error

  unfoldable pub decode_by_name : Text → Cd2Frame → DecoderRegistry → Reply Message
  decode_by_name name frame registry = decoded_by frame (get_entry name registry)
