-- ===== src/Container/Types.antt =====
-- The interface `Values` of a container, and the types that do not depend on it: `Operation`, `CloneInfo`
-- of crates/dots-rs-transport/src/container.rs and `DotsHeader` of crates/dots-rs-model/src/connection.rs.
use dots_rust.Prelude.{ℕ, String, Bool, false, Option, none, some, unwrap_or}
use dots_rust.PropertySet.{PropertySet}
use dots_rust.Dynamic.Kind.{DynamicStructDescriptor}
use dots_rust.Dynamic.Value.{DynamicStruct}
use dots_rust.Container.Map.{Bytes}

pub record Values : Type 1 where
  -- `&'static StructDescriptor` and `AnyStruct`
  pub Static : Type 0
  pub Any : Type 0
  pub static_name : Static → String
  pub descriptor_of : Any → Static
  -- `ptr::eq` and `Arc::ptr_eq`
  pub same_static : Static → Static → Bool
  pub same_arc : DynamicStructDescriptor → DynamicStructDescriptor → Bool
  pub typed_valid : Any → PropertySet
  pub typed_key : Any → Bytes
  pub dynamic_key : DynamicStruct → Bytes
  pub typed_copy_from : Any → Any → PropertySet → Any
  pub typed_copy_take : Any → Any → PropertySet → Any × Any
  pub encode_typed : Any → Bytes
  pub encode_dynamic : DynamicStruct → Bytes
  pub decode_any : Static → Bytes → Option Any
  pub decode_struct : DynamicStructDescriptor → Bytes → Option DynamicStruct

pub data Operation : Type 0 where
  create update removal : Operation

pub record CloneInfo : Type 0 where
  pub last_operation : Operation
  pub last_update_time : Option ℕ
  pub last_update_sender : Option ℕ
  pub created_time : Option ℕ
  pub created_sender : Option ℕ

pub record DotsHeader : Type 0 where
  pub type_name : Option String
  pub sent_time : Option ℕ
  pub server_sent_time : Option ℕ
  pub attributes : Option PropertySet
  pub sender : Option ℕ
  pub from_cache : Option ℕ
  pub remove_obj : Option Bool
  pub is_from_myself : Option Bool
  pub subscription_id : Option ℕ

-- `header.remove_obj == Some(true)`
abbrev pub is_removal : DotsHeader → Bool
is_removal header = unwrap_or header.remove_obj false

-- What a container stores about a value that came with the header.
abbrev pub created : DotsHeader → CloneInfo
created header = record {
  last_operation = create;
  last_update_time = header.sent_time;
  last_update_sender = header.sender;
  created_time = header.sent_time;
  created_sender = header.sender;
}

abbrev pub updated : Operation → DotsHeader → CloneInfo → CloneInfo
updated operation header info = record info {
  last_operation = operation;
  last_update_time = header.sent_time;
  last_update_sender = header.sender;
}

abbrev pub map_option {ℓ κ} : {A : Type ℓ} {B : Type κ} → (A → B) → Option A → Option B
map_option f none = none
map_option f (some a) = some (f a)
