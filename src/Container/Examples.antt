-- ===== src/Container/Examples.antt =====
-- The theorems on containers at concrete inputs, and runs.
use dots_rust.Prelude.{
  ℕ, ◌≡◌, refl, Bool, true, false, Option, none, some, [], ◌∷◌, map, length, arith, str_eq,
  if◌then◌else◌,
}
use dots_rust.Dynamic.Kind.{
  DynamicFieldKind, DynamicStructDescriptor, descriptor, Properties, property, name_of,
}
use dots_rust.Dynamic.Value.{DynamicValue, DynamicStruct, get}
use dots_rust.PropertySet
use dots_rust.Dynamic.Copy.{copy_from}
use dots_rust.Container.Map.{Bytes, find, same_key}
use dots_rust.Container.{
  Values, typed, wire, static, dynamic, borrowed_typed, Transmission, Entry, ContainerState,
  DotsHeader, CloneInfo, create, removal, map_option, key_bytes, valid_set, convert_payload, admit,
  payload_name, descriptor_name, apply, apply_and_classify, replay,
}
use dots_rust.Container.Applied.{stored_after, apply-find}
use dots_rust.Container.Classified.{
  origin, expected_operation, expected_origin, event_of, told_of, apply_and_classify-state,
  apply_and_classify-stored, apply_and_classify-removed,
}
use dots_rust.Container.Uniform.{Fits, IsUniform, apply-IsUniform}
use dots_rust.Container.Replayed.{countdown, left_of, instance_of, stored_of, replay_counts_down}

abbrev key_of : Option DynamicValue → Bytes
key_of (some (DynamicValue.u32 n)) = n ∷ []
key_of _ = []

-- Typed values that are structs with a descriptor, of which the property 1 is the key, and a CBOR codec
-- that refuses everything.
abbrev plain : Values
plain = record {
  Static = DynamicStructDescriptor;
  Any = DynamicStruct;
  static_name = name_of;
  descriptor_of = λ a. a.descriptor;
  same_static = λ a d. str_eq (name_of a) (name_of d);
  same_arc = λ a d. str_eq (name_of a) (name_of d);
  typed_valid = λ a. a.valid;
  typed_key = λ a. key_of (get a 1);
  dynamic_key = λ a. key_of (get a 1);
  typed_copy_from = copy_from;
  typed_copy_take = λ a b mask. (copy_from a b mask, b);
  encode_typed = λ a. [];
  encode_dynamic = λ a. [];
  decode_any = λ d bytes. none;
  decode_struct = λ d bytes. none;
}

abbrev pinger : DynamicStructDescriptor
pinger = descriptor "Pinger" 1 (
    property "id" 1 true DynamicFieldKind.u32
      (property "seq" 2 false DynamicFieldKind.u64 Properties.end))

abbrev ping : ℕ → DynamicStruct
ping seq = record {
  descriptor = pinger;
  valid = 6;
  properties = (1, DynamicValue.u32 7) ∷ (2, DynamicValue.u64 seq) ∷ [];
}

abbrev header_of : Option Bool → DotsHeader
header_of remove_obj = record {
  type_name = some "Pinger";
  sent_time = some 100;
  server_sent_time = none;
  attributes = some 6;
  sender = some 2;
  from_cache = none;
  remove_obj = remove_obj;
  is_from_myself = none;
  subscription_id = none;
}

abbrev first_info : CloneInfo
first_info = record {
  last_operation = create;
  last_update_time = some 50;
  last_update_sender = some 3;
  created_time = some 50;
  created_sender = some 3;
}

-- A container with one instance.
abbrev mirror : ContainerState plain
mirror = record {
  descriptor = static pinger;
  entries = (7 ∷ [], record { value = typed (ping 1); clone_info = first_info }) ∷ [];
}

abbrev update_ping : Transmission plain
update_ping = record { header = header_of none; payload = typed (ping 2) }

abbrev remove_ping : Transmission plain
remove_ping = record { header = header_of (some true); payload = typed (ping 2) }

admitted : convert_payload plain (typed (ping 2)) (static pinger) ≡ some (borrowed_typed (ping 2))
unfolding convert_payload admit payload_name descriptor_name
admitted = refl

apply-find_example :
    let key = key_bytes plain (typed (ping 2)) in
    find (7 ∷ []) (apply plain update_ping mirror).entries ≡ (
      if same_key key (7 ∷ [])
      then stored_after plain
          (header_of none)
          (valid_set plain (typed (ping 2)))
          (borrowed_typed (ping 2))
          (find key mirror.entries)
      else find (7 ∷ []) mirror.entries)
apply-find_example = apply-find plain update_ping mirror (borrowed_typed (ping 2)) (7 ∷ []) admitted

-- A dynamic container with one instance, and an update in the dynamic form.
abbrev dynamic_mirror : ContainerState plain
dynamic_mirror = record {
  descriptor = dynamic pinger;
  entries = (7 ∷ [], record { value = dynamic (ping 1); clone_info = first_info }) ∷ [];
}

abbrev dynamic_update : Transmission plain
dynamic_update = record { header = header_of none; payload = wire (ping 2) }

apply_and_classify-state_example :
    (apply_and_classify plain update_ping mirror).1 ≡ apply plain update_ping mirror
apply_and_classify-state_example = apply_and_classify-state plain update_ping mirror

apply_and_classify-stored_example :
    let key = key_bytes plain (typed (ping 2)) in
    let told = apply_and_classify plain update_ping mirror in
    (e : Entry plain) × (find key told.1.entries ≡ some e)
    × (told.0 ≡ some (event_of plain e))
    × (e.clone_info.last_operation ≡ expected_operation plain (find key mirror.entries))
    × (origin plain e.clone_info ≡ expected_origin plain (header_of none) (find key mirror.entries))
apply_and_classify-stored_example =
    apply_and_classify-stored plain update_ping mirror (borrowed_typed (ping 2)) refl admitted

apply_and_classify-removed_example :
    let key = key_bytes plain (typed (ping 2)) in
    let told = apply_and_classify plain remove_ping mirror in
    (find key told.1.entries ≡ none)
    × (map_option (told_of plain) told.0
        ≡ map_option
            (λ (e : Entry plain). (removal, origin plain e.clone_info))
            (find key mirror.entries))
apply_and_classify-removed_example =
    apply_and_classify-removed plain remove_ping mirror (borrowed_typed (ping 2)) refl admitted

replay_counts_down_example :
    (map (left_of plain) (replay plain mirror) ≡ countdown (length mirror.entries))
    × (map (instance_of plain) (replay plain mirror) ≡ map (stored_of plain) mirror.entries)
replay_counts_down_example = replay_counts_down plain mirror (omega arith)

mirror-IsUniform : IsUniform plain mirror
unfolding IsUniform Fits
mirror-IsUniform = (tt, tt)

apply-IsUniform_example : IsUniform plain (apply plain update_ping mirror)
apply-IsUniform_example = apply-IsUniform plain update_ping mirror mirror-IsUniform

learned : ContainerState plain
learned = record {
  descriptor = dynamic pinger;
  entries = (7 ∷ [], record { value = dynamic (ping 1); clone_info = first_info }) ∷ [];
}
