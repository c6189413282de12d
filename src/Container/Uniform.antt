-- ===== src/Container/Uniform.antt =====
-- The representation invariant: a static container holds typed values only, a dynamic one dynamic values.
use dots_rust.Prelude.{
  Option, none, some, List, [], ◌∷◌, Bool-cases, Option-cases, inl, inr, All, unwrap_or, str_eq,
  Ordering,
}
use dots_rust.PropertySet.{PropertySet}
use dots_rust.Container.Map.{Bytes, find, insert, remove, same_key, compare_bytes, placed}
use dots_rust.Container.{
  Values, Payload, typed, wire, ContainerDescriptor, static, dynamic, ContainerValue, Converted,
  borrowed_typed, borrowed_dynamic, owned, Transmission, Entry, ContainerState, DotsHeader,
  is_removal, key_bytes, valid_set, convert_payload, admit, payload_name, descriptor_name,
  decode_dynamic, decode_typed, map_option, merge_into, into_value, value_copy_from, merged_entry,
  apply, apply_converted,
}

module _ (values : Values) where
  unfoldable pub Fits : ContainerDescriptor values → ContainerValue values → Type 0
  Fits (static d) (typed a) = Unit
  Fits (static d) (dynamic s) = ⊥
  Fits (dynamic d) (typed a) = ⊥
  Fits (dynamic d) (dynamic s) = Unit

  abbrev pub EntryFits : ContainerDescriptor values → Bytes × Entry values → Type 0
  EntryFits d item = Fits d (item.1.value)

  unfoldable pub IsUniform : ContainerState values → Type 0
  IsUniform state = All (EntryFits state.descriptor) state.entries

  OptionFits : ContainerDescriptor values → Option (ContainerValue values) → Type 0
  OptionFits d none = Unit
  OptionFits d (some v) = Fits d v

  find-All :
      (d : ContainerDescriptor values) (k : Bytes) (m : List (Bytes × Entry values))
      → All (EntryFits d) m
      → OptionFits d (map_option (λ (e : Entry values). e.value) (find k m))
  unfolding find OptionFits
  find-All d k [] h = tt
  find-All d k ((j, e) ∷ rest) (fits, h) = elim (Bool-cases (same_key j k)) [
    | inl here ↦ rw here fits
    | inr other ↦ rw other (find-All d k rest h)
  ]

  placed-All :
      (d : ContainerDescriptor values) (o : Ordering) (new old : Bytes × Entry values)
      (rest inserted : List (Bytes × Entry values))
      → EntryFits d new
      → EntryFits d old
      → All (EntryFits d) rest
      → All (EntryFits d) inserted
      → All (EntryFits d) (placed o new old rest inserted)
  placed-All d Ordering.lt new old rest inserted hn ho hr hi = (hn, (ho, hr))
  placed-All d Ordering.eq new old rest inserted hn ho hr hi = (hn, hr)
  placed-All d Ordering.gt new old rest inserted hn ho hr hi = (ho, hi)

  insert-All :
      (d : ContainerDescriptor values) (k : Bytes) (e : Entry values)
      (m : List (Bytes × Entry values))
      → Fits d e.value
      → All (EntryFits d) m
      → All (EntryFits d) (insert k e m)
  unfolding insert
  insert-All d k e [] he h = (he, tt)
  insert-All d k e (item ∷ rest) he (hi, h) =
      placed-All d (compare_bytes k (item.0)) (k, e) item rest (insert k e rest) he hi h
        (insert-All d k e rest he h)

  remove-All :
      (d : ContainerDescriptor values) (k : Bytes) (m : List (Bytes × Entry values))
      → All (EntryFits d) m
      → All (EntryFits d) (remove k m)
  unfolding remove
  remove-All d k [] h = tt
  remove-All d k ((j, e) ∷ rest) (fits, h) = elim (Bool-cases (same_key j k)) [
    | inl here ↦ rw here (remove-All d k rest h)
    | inr other ↦ rw other (fits, remove-All d k rest h)
  ]

  -- What the container admits has its representation.
  ConvertedFits : ContainerDescriptor values → Option (Converted values) → Type 0
  ConvertedFits d none = Unit
  ConvertedFits d (some c) = Fits d (into_value values c)

  admit-Fits :
      (d : ContainerDescriptor values) (p : Payload values) → ConvertedFits d (admit values d p)
  unfolding admit decode_typed decode_dynamic ConvertedFits Fits into_value
  admit-Fits (static d) (typed a) =
      elim (Bool-cases (values.same_static (values.descriptor_of a) d)) [
        | inl same ↦ rw same tt
        | inr other ↦ rw other tt
      ]
  admit-Fits (dynamic d) (wire w) = elim (Bool-cases (values.same_arc w.descriptor d)) [
    | inl same ↦ rw same tt
    | inr other ↦ elim (Option-cases (values.decode_struct d (values.encode_dynamic w))) [
      | inl failed ↦ rw (other, failed) tt
      | inr (s, decoded) ↦ rw (other, decoded) tt
    ]
  ]
  admit-Fits (static d) (wire w) =
      elim (Option-cases (values.decode_any d (values.encode_dynamic w))) [
        | inl failed ↦ rw failed tt
        | inr (a, decoded) ↦ rw decoded tt
      ]
  admit-Fits (dynamic d) (typed a) =
      elim (Option-cases (values.decode_struct d (values.encode_typed a))) [
        | inl failed ↦ rw failed tt
        | inr (s, decoded) ↦ rw decoded tt
      ]

  convert_payload-Fits :
      (p : Payload values) (d : ContainerDescriptor values)
      → ConvertedFits d (convert_payload values p d)
  unfolding convert_payload ConvertedFits
  convert_payload-Fits p d =
      elim (Bool-cases (str_eq (payload_name values p) (descriptor_name values d))) [
        | inl same ↦ rw same (admit-Fits d p)
        | inr foreign ↦ rw foreign tt
      ]

  value_copy_from-Fits :
      (d : ContainerDescriptor values) (dst src : ContainerValue values) (mask : PropertySet)
      → Fits d dst
      → Fits d (value_copy_from values dst src mask)
  unfolding Fits value_copy_from
  value_copy_from-Fits (static d) (typed a) (typed b) mask h = tt
  value_copy_from-Fits (static d) (typed a) (dynamic b) mask h = tt
  value_copy_from-Fits (static d) (dynamic a) src mask h = absurd h
  value_copy_from-Fits (dynamic d) (typed a) src mask h = absurd h
  value_copy_from-Fits (dynamic d) (dynamic a) (typed b) mask h = tt
  value_copy_from-Fits (dynamic d) (dynamic a) (dynamic b) mask h = tt

  merge_into-Fits :
      (d : ContainerDescriptor values) (c : Converted values) (dst : ContainerValue values)
      (mask : PropertySet)
      → Fits d dst
      → Fits d (merge_into values c dst mask)
  unfolding Fits merge_into
  merge_into-Fits (static d) (borrowed_typed s) (typed a) mask h = tt
  merge_into-Fits (static d) (borrowed_dynamic s) (typed a) mask h = tt
  merge_into-Fits (dynamic d) (borrowed_typed s) (dynamic a) mask h = tt
  merge_into-Fits (dynamic d) (borrowed_dynamic s) (dynamic a) mask h = tt
  merge_into-Fits (static d) (borrowed_typed s) (dynamic a) mask h = absurd h
  merge_into-Fits (static d) (borrowed_dynamic s) (dynamic a) mask h = absurd h
  merge_into-Fits (dynamic d) (borrowed_typed s) (typed a) mask h = absurd h
  merge_into-Fits (dynamic d) (borrowed_dynamic s) (typed a) mask h = absurd h
  merge_into-Fits d (owned s) dst mask h = value_copy_from-Fits d dst s mask h

  merged_entry-Fits :
      (d : ContainerDescriptor values) (header : DotsHeader) (fallback : PropertySet)
      (c : Converted values) (old : Option (Entry values))
      → Fits d (into_value values c)
      → OptionFits d (map_option (λ (e : Entry values). e.value) old)
      → Fits d (merged_entry values header fallback c old).value
  unfolding merged_entry OptionFits
  merged_entry-Fits d header fallback c none hc ho = hc
  merged_entry-Fits d header fallback c (some e) hc ho =
      merge_into-Fits d c e.value (unwrap_or header.attributes fallback) ho

  apply_converted-IsUniform :
      (header : DotsHeader) (fallback : PropertySet) (key : Bytes) (state : ContainerState values)
      (c : Option (Converted values))
      → ConvertedFits state.descriptor c
      → IsUniform state
      → IsUniform (apply_converted values header fallback key state c)
  unfolding IsUniform ConvertedFits
  apply_converted-IsUniform header fallback key state none hc h = h
  apply_converted-IsUniform header fallback key state (some c) hc h =
      elim (Bool-cases (is_removal header)) [
        | inl gone ↦ rw gone (remove-All state.descriptor key state.entries h)
        | inr kept ↦ rw kept (
            insert-All state.descriptor key
              (merged_entry values header fallback c (find key state.entries)) state.entries
              (merged_entry-Fits state.descriptor header fallback c (find key state.entries) hc
                (find-All state.descriptor key state.entries h))
              h)
      ]

  -- Applying any transmission keeps the representation: if a static container held typed values only,
  -- or a dynamic one dynamic values only, it still does.
  pub apply-IsUniform :
      (txn : Transmission values) (state : ContainerState values)
      → IsUniform state
      → IsUniform (apply values txn state)
  unfolding apply
  apply-IsUniform txn state h =
      apply_converted-IsUniform txn.header (valid_set values txn.payload)
        (key_bytes values txn.payload) state (convert_payload values txn.payload state.descriptor)
        (convert_payload-Fits txn.payload state.descriptor) h
