-- ===== src/Container/Applied.antt =====
-- What an update or a removal does to the entries, and the two ways of applying one.
use dots_rust.Prelude.{◌≡◌, ap, ◌∙◌, true, Option, none, some, if◌then◌else◌, Bool-cases, inl, inr}
use dots_rust.PropertySet.{PropertySet}
use dots_rust.Dynamic.Kind.{DynamicStructDescriptor, name_of, properties_of}
use dots_rust.Dynamic.Copy.Laws.{AreTagged}
use dots_rust.Dynamic.Copy.Overlay.{IsConsistent}
use dots_rust.Container.Map.{Bytes, find, same_key, find-insert, find-remove}
use dots_rust.Container.{
  Values, typed, dynamic, ContainerValue, Converted, Transmission, Entry, ContainerState,
  DotsHeader, is_removal, key_bytes, valid_set, into_value, convert_payload, merged_entry, apply,
  apply_converted,
}

module _ (values : Values) where
  -- What the container holds of the key after a transmission that it admits.
  abbrev pub stored_after :
      DotsHeader → PropertySet → Converted values → Option (Entry values) → Option (Entry values)
  stored_after header fallback value old =
      if is_removal header then none else some (merged_entry values header fallback value old)

  -- A transmission that the container admits changes what is stored under the key of its payload and
  -- under no other key: nothing is stored there after a removal, and else the merged or the new entry.
  pub apply-find :
      (txn : Transmission values) (state : ContainerState values) (value : Converted values)
      (j : Bytes)
      → convert_payload values txn.payload state.descriptor ≡ some value
      → let key = key_bytes values txn.payload in
        find j (apply values txn state).entries ≡ (
          if same_key key j
          then stored_after txn.header (valid_set values txn.payload) value (find key state.entries)
          else find j state.entries)
  unfolding apply
  apply-find txn state value j admitted =
      let key = key_bytes values txn.payload in
      let fallback = valid_set values txn.payload in
      let result : (apply_converted values txn.header fallback key state
            (convert_payload values txn.payload state.descriptor))
          ≡ apply_converted values txn.header fallback key state (some value) =
        ap (apply_converted values txn.header fallback key state) admitted in
      ap (λ (s : ContainerState values). find j s.entries) result
      ∙ elim (Bool-cases (is_removal txn.header)) [
        | inl gone ↦ rw gone (find-remove key j state.entries)
        | inr kept ↦ rw kept (
            find-insert key j
              (merged_entry values txn.header fallback value (find key state.entries))
              state.entries)
      ]

-- What the container relies on: descriptors that are pointer-identical have one name.
pub record ValuesLaws (values : Values) : Type 0 where
  pub same_static-names :
      (a d : values.Static)
      → values.same_static a d ≡ true
      → values.static_name a ≡ values.static_name d
  pub same_arc-names :
      (a d : DynamicStructDescriptor) → values.same_arc a d ≡ true → name_of a ≡ name_of d

module _ (values : Values) where
  -- The update of a dynamic value by a dynamic one is between values that are consistent, with tags of
  -- 1 to 31 that are distinct in the descriptor; a typed value is not updated by a typed one.
  abbrev pub IsSoundPair : ContainerValue values → ContainerValue values → Type 0
  IsSoundPair (typed a) (typed b) = ⊥
  IsSoundPair (typed a) (dynamic d) = Unit
  IsSoundPair (dynamic d) (typed b) = Unit
  IsSoundPair (dynamic d) (dynamic s) =
      AreTagged (properties_of d.descriptor) × IsConsistent d × IsConsistent s

  abbrev pub IsSoundUpdate : Option (Converted values) → Option (Entry values) → Type 0
  IsSoundUpdate none old = Unit
  IsSoundUpdate (some c) none = Unit
  IsSoundUpdate (some c) (some e) = IsSoundPair e.value (into_value values c)
