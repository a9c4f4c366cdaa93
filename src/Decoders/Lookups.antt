-- ===== src/Decoders/Lookups.antt =====
-- What registration in oad_parser/decoders/registry.py does to lookups.
use oad_parser.Common.{◌≡◌, refl, subst, false, if_intro}
use oad_parser.Common.Text.{Text}
use oad_parser.Common.Dict.{equals_text, equals_text_refl, lookup, lookup-insert_other, insert}
use oad_parser.Decoders.Registry.{
  value, raised, already_registered, DecoderEntry, DecoderRegistry, is_some_entry, is_blank,
  register_entry, get_entry,
}

value_injective {ℓ} : {A : Type ℓ} {a b : A} → value a ≡ value b → a ≡ b
value_injective h = cc

module _ {ℓ} (Message : Type ℓ) where
  -- What a registration that succeeds says of the entry and the registry.
  accepted :
      (entry : DecoderEntry Message) (registry after : DecoderRegistry Message)
      → register_entry Message entry registry ≡ value after
      → (is_blank Message entry.name ≡ false)
        × (is_some_entry Message (lookup entry.name registry) ≡ false)
        × (insert entry.name entry registry ≡ after)
  unfolding register_entry
  accepted entry registry after h =
      if_intro
        (λ x.
          x ≡ value after
          → (is_blank Message entry.name ≡ false)
            × (is_some_entry Message (lookup entry.name registry) ≡ false)
            × (insert entry.name entry registry ≡ after))
        (is_blank Message entry.name) _ _ (λ _ e. cc e)
        (λ full.
          if_intro
            (λ x.
              x ≡ value after
              → (is_blank Message entry.name ≡ false)
                × (is_some_entry Message (lookup entry.name registry) ≡ false)
                × (insert entry.name entry registry ≡ after))
            (is_some_entry Message (lookup entry.name registry)) _ _ (λ _ e. cc e)
            (λ new e. (full, new, value_injective e)))
        h

  again :
      (entry : DecoderEntry Message) (registry : DecoderRegistry Message)
      → is_blank Message entry.name ≡ false
      → register_entry Message entry (insert entry.name entry registry)
        ≡ raised (already_registered entry.name)
  unfolding register_entry
  again entry registry full = rw (full, equals_text_refl entry.name) refl

  found :
      (entry : DecoderEntry Message) (registry : DecoderRegistry Message)
      → get_entry Message entry.name (insert entry.name entry registry) ≡ value entry
  unfolding get_entry
  found entry registry = rw (equals_text_refl entry.name) refl

  -- After a registration that succeeds: the name was not empty and had no entry, the lookup of the name
  -- gives the entry, a second registration of it is refused, and every other name finds what it found
  -- before.
  pub register_entry-lookup :
      (entry : DecoderEntry Message) (registry after : DecoderRegistry Message) (other : Text)
      → register_entry Message entry registry ≡ value after
      → equals_text entry.name other ≡ false
      → (is_blank Message entry.name ≡ false)
        × (is_some_entry Message (lookup entry.name registry) ≡ false)
        × (get_entry Message entry.name after ≡ value entry)
        × (register_entry Message entry after ≡ raised (already_registered entry.name))
        × (lookup other after ≡ lookup other registry)
  register_entry-lookup entry registry after other h different =
      let (full, new, same) = accepted entry registry after h in
      (
        full,
        new,
        subst (λ r. get_entry Message entry.name r ≡ value entry) same (found entry registry),
        subst (λ r. register_entry Message entry r ≡ raised (already_registered entry.name)) same
            (again entry registry full),
        subst (λ r. lookup other r ≡ lookup other registry) same
            (lookup-insert_other entry.name other entry registry different),
      )
