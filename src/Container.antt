-- ===== src/Container.antt =====
-- The cache mirror `DynContainer` of crates/dots-rs-transport/src/container.rs. The lock is not modelled:
-- each operation runs under it from start to end. Typed values, which live in raw memory, the CBOR
-- codec and pointer identity are an interface, `Values`. Times are bit patterns of floats.
use dots_rust.Prelude.{
  ℕ, suc, ◌-◌, ◌%◌, ◌^◌, String, Bool, true, false, Option, none, some, List, [], ◌∷◌,
  if◌then◌else◌, length, str_eq, unwrap_or, not,
}
use dots_rust.PropertySet.{PropertySet}
use dots_rust.Dynamic.Flags.{StructFlags, is_cached}
use dots_rust.Dynamic.Kind.{DynamicStructDescriptor, name_of}
use dots_rust.Dynamic.Value.{DynamicStruct}
use dots_rust.Dynamic.Copy.{copy_from, copy_take}
mod Types
pub use Types.*
pub mod Map
use Map.{Bytes, find, insert, remove}
pub mod Applied
pub mod Classified
pub mod Replayed
pub mod Uniform
pub mod Promoted
mod Examples

module _ (values : Values) where
  pub data Payload : Type 0 where
    typed : values.Any → Payload
    wire : DynamicStruct → Payload

  pub data ContainerDescriptor : Type 0 where
    static : values.Static → ContainerDescriptor
    dynamic : DynamicStructDescriptor → ContainerDescriptor

  pub data ContainerValue : Type 0 where
    typed : values.Any → ContainerValue
    dynamic : DynamicStruct → ContainerValue

  pub data Converted : Type 0 where
    borrowed_typed : values.Any → Converted
    borrowed_dynamic : DynamicStruct → Converted
    owned : ContainerValue → Converted

  pub record Transmission : Type 0 where
    pub header : DotsHeader
    pub payload : Payload

  -- `DynContainerEntry`
  pub record Entry : Type 0 where
    pub value : ContainerValue
    pub clone_info : CloneInfo

  pub record ContainerState : Type 0 where
    pub descriptor : ContainerDescriptor
    pub entries : List (Bytes × Entry)

  pub record DispatchOutcome : Type 0 where
    pub operation : Operation
    pub updated_value : ContainerValue
    pub clone_info : CloneInfo

  unfoldable pub descriptor_name : ContainerDescriptor → String
  descriptor_name (static d) = values.static_name d
  descriptor_name (dynamic d) = name_of d

  unfoldable pub payload_name : Payload → String
  payload_name (typed a) = values.static_name (values.descriptor_of a)
  payload_name (wire w) = name_of w.descriptor

  unfoldable pub key_bytes : Payload → Bytes
  key_bytes (typed a) = values.typed_key a
  key_bytes (wire w) = values.dynamic_key w

  unfoldable pub valid_set : Payload → PropertySet
  valid_set (typed a) = values.typed_valid a
  valid_set (wire w) = w.valid

  unfoldable pub value_valid : ContainerValue → PropertySet
  value_valid (typed a) = values.typed_valid a
  value_valid (dynamic d) = d.valid

  -- `ContainerValue::copy_from`; two variants that differ are left alone, as in a release build.
  unfoldable pub value_copy_from : ContainerValue → ContainerValue → PropertySet → ContainerValue
  value_copy_from (typed a) (typed b) mask = typed (values.typed_copy_from a b mask)
  value_copy_from (dynamic a) (dynamic b) mask = dynamic (copy_from a b mask)
  value_copy_from dst src mask = dst

  -- `ContainerValue::copy_take`; the source is dropped behind it.
  unfoldable pub value_copy_take : ContainerValue → ContainerValue → PropertySet → ContainerValue
  value_copy_take (typed a) (typed b) mask = typed (values.typed_copy_take a b mask).0
  value_copy_take (dynamic a) (dynamic b) mask = dynamic (copy_take a b mask).0
  value_copy_take dst src mask = dst

  unfoldable pub merge_into : Converted → ContainerValue → PropertySet → ContainerValue
  unfolding value_copy_from
  merge_into (borrowed_typed s) (typed d) mask = typed (values.typed_copy_from d s mask)
  merge_into (borrowed_dynamic s) (dynamic d) mask = dynamic (copy_from d s mask)
  merge_into (owned s) dst mask = value_copy_from dst s mask
  merge_into (borrowed_typed s) (dynamic d) mask = dynamic d
  merge_into (borrowed_dynamic s) (typed d) mask = typed d

  unfoldable pub into_value : Converted → ContainerValue
  into_value (borrowed_typed a) = typed a
  into_value (borrowed_dynamic d) = dynamic d
  into_value (owned v) = v

  unfoldable pub decode_dynamic : Bytes → DynamicStructDescriptor → Option ContainerValue
  decode_dynamic bytes d = map_option (λ s. dynamic s) (values.decode_struct d bytes)

  unfoldable pub decode_typed : Bytes → values.Static → Option ContainerValue
  decode_typed bytes d = map_option (λ a. typed a) (values.decode_any d bytes)

  -- The `match` behind the test of the names.
  unfoldable pub admit : ContainerDescriptor → Payload → Option Converted
  unfolding decode_dynamic decode_typed
  admit (static d) (typed a) =
      if values.same_static (values.descriptor_of a) d then some (borrowed_typed a) else none
  admit (dynamic d) (wire w) =
      if values.same_arc w.descriptor d
      then some (borrowed_dynamic w)
      else map_option owned (decode_dynamic (values.encode_dynamic w) d)
  admit (static d) (wire w) = map_option owned (decode_typed (values.encode_dynamic w) d)
  admit (dynamic d) (typed a) = map_option owned (decode_dynamic (values.encode_typed a) d)

  unfoldable pub convert_payload : Payload → ContainerDescriptor → Option Converted
  unfolding admit descriptor_name payload_name
  convert_payload payload descriptor =
      if str_eq (payload_name payload) (descriptor_name descriptor)
      then admit descriptor payload
      else none

  -- The two representations that match are moved through, with no test of the names.
  unfoldable pub convert_payload_owned : Payload → ContainerDescriptor → Option ContainerValue
  unfolding convert_payload into_value
  convert_payload_owned (typed a) (static d) =
      if values.same_static (values.descriptor_of a) d
      then some (typed a)
      else map_option into_value (convert_payload (typed a) (static d))
  convert_payload_owned (wire w) (dynamic d) =
      if values.same_arc w.descriptor d
      then some (dynamic w)
      else map_option into_value (convert_payload (wire w) (dynamic d))
  convert_payload_owned payload descriptor =
      map_option into_value (convert_payload payload descriptor)

  -- `Entry::Occupied` and `Entry::Vacant`
  unfoldable pub merged_entry : DotsHeader → PropertySet → Converted → Option Entry → Entry
  unfolding merge_into into_value
  merged_entry header fallback value (some entry) = record {
    value = merge_into value entry.value (unwrap_or header.attributes fallback);
    clone_info = updated update header entry.clone_info;
  }
  merged_entry header fallback value none = record {
    value = into_value value;
    clone_info = created header;
  }

  abbrev pub apply_converted :
      DotsHeader → PropertySet → Bytes → ContainerState → Option Converted → ContainerState
  apply_converted header fallback key state none = state
  apply_converted header fallback key state (some value) =
      if is_removal header
      then record state { entries = remove key state.entries }
      else record state {
        entries =
            insert key (merged_entry header fallback value (find key state.entries)) state.entries;
      }

  unfoldable pub apply : Transmission → ContainerState → ContainerState
  unfolding convert_payload key_bytes valid_set
  apply txn state =
      apply_converted txn.header (valid_set txn.payload) (key_bytes txn.payload) state
        (convert_payload txn.payload state.descriptor)

  unfoldable pub taken_entry : DotsHeader → PropertySet → ContainerValue → Option Entry → Entry
  unfolding value_copy_take
  taken_entry header fallback value (some entry) = record {
    value = value_copy_take entry.value value (unwrap_or header.attributes fallback);
    clone_info = updated update header entry.clone_info;
  }
  taken_entry header fallback value none = record { value = value; clone_info = created header }

  abbrev pub apply_taken :
      DotsHeader → PropertySet → Bytes → ContainerState → Option ContainerValue → ContainerState
  apply_taken header fallback key state none = state
  apply_taken header fallback key state (some value) =
      if is_removal header
      then record state { entries = remove key state.entries }
      else record state {
        entries =
            insert key (taken_entry header fallback value (find key state.entries)) state.entries;
      }

  unfoldable pub apply_owned : Transmission → ContainerState → ContainerState
  unfolding convert_payload_owned key_bytes valid_set
  apply_owned txn state =
      apply_taken txn.header (valid_set txn.payload) (key_bytes txn.payload) state
        (convert_payload_owned txn.payload state.descriptor)

  -- The extracted entry, merged with the payload of the removal.
  unfoldable pub removed_outcome : DotsHeader → PropertySet → Converted → Entry → DispatchOutcome
  unfolding merge_into
  removed_outcome header fallback value entry = record {
    operation = removal;
    updated_value = merge_into value entry.value (unwrap_or header.attributes fallback);
    clone_info = updated removal header entry.clone_info;
  }

  unfoldable pub stored_outcome : Option Entry → Entry → DispatchOutcome
  stored_outcome none entry = record {
    operation = create;
    updated_value = entry.value;
    clone_info = entry.clone_info;
  }
  stored_outcome (some old) entry = record {
    operation = update;
    updated_value = entry.value;
    clone_info = entry.clone_info;
  }

  abbrev pub classify_removed :
      DotsHeader
      → PropertySet
      → Bytes
      → ContainerState
      → Converted
      → Option Entry
      → Option DispatchOutcome × ContainerState
  classify_removed header fallback key state value none = (none, state)
  classify_removed header fallback key state value (some entry) = (
    some (removed_outcome header fallback value entry),
    record state { entries = remove key state.entries },
  )

  abbrev pub classify_converted :
      DotsHeader
      → PropertySet
      → Bytes
      → ContainerState
      → Option Converted
      → Option DispatchOutcome × ContainerState
  classify_converted header fallback key state none = (none, state)
  classify_converted header fallback key state (some value) =
      let old = find key state.entries in
      if is_removal header
      then classify_removed header fallback key state value old
      else let entry = merged_entry header fallback value old in
        (some (stored_outcome old entry), record state { entries = insert key entry state.entries })

  unfoldable pub apply_and_classify :
      Transmission → ContainerState → Option DispatchOutcome × ContainerState
  unfolding convert_payload key_bytes valid_set
  apply_and_classify txn state =
      classify_converted txn.header (valid_set txn.payload) (key_bytes txn.payload) state
        (convert_payload txn.payload state.descriptor)

  -- The header of an entry's replay, when `left` more come behind it.
  abbrev pub replay_header : String → ℕ → Entry → DotsHeader
  replay_header name left entry = record {
    type_name = some name;
    sent_time = entry.clone_info.last_update_time;
    server_sent_time = entry.clone_info.last_update_time;
    attributes = some (value_valid entry.value);
    sender = entry.clone_info.last_update_sender;
    from_cache = some (left % 2 ^ 32);
    remove_obj = none;
    is_from_myself = none;
    subscription_id = none;
  }

  -- `total - 1 - i` for the entry at the index `i`
  abbrev pub replay_from :
      String → ℕ → ℕ → List (Bytes × Entry) → List (DotsHeader × (ContainerValue × CloneInfo))
  replay_from name total i [] = []
  replay_from name total i ((key, entry) ∷ rest) =
      (replay_header name (total - 1 - i) entry, (entry.value, entry.clone_info))
      ∷ replay_from name total (suc i) rest

  unfoldable pub replay : ContainerState → List (DotsHeader × (ContainerValue × CloneInfo))
  unfolding descriptor_name
  replay state =
      replay_from (descriptor_name state.descriptor) (length state.entries) 0 state.entries

  -- What promotion keeps of an entry.
  abbrev pub promote_entry :
      values.Static → Bytes × Entry → List (Bytes × Entry) → List (Bytes × Entry)
  promote_entry d (key, entry) rest = elim entry.value [
    | typed a ↦ (key, entry) ∷ rest
    | dynamic s ↦ elim (values.decode_any d (values.encode_dynamic s)) [
      | none ↦ rest
      | some a ↦ (key, record entry { value = typed a }) ∷ rest
    ]
  ]

  unfoldable pub promote_entries : values.Static → List (Bytes × Entry) → List (Bytes × Entry)
  promote_entries d [] = []
  promote_entries d (item ∷ rest) = promote_entry d item (promote_entries d rest)

  unfoldable pub promote_to_static : values.Static → ContainerState → ContainerState
  unfolding promote_entries
  promote_to_static d state = elim state.descriptor [
    | static e ↦ state
    | dynamic e ↦ record state { descriptor = static d; entries = promote_entries d state.entries }
  ]
