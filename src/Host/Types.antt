-- ===== src/Host/Types.antt =====
-- The state of the broker of crates/dots-rs-transport/src/host.rs, its messages, and its interface
-- `Env`: typed values, the CBOR codec of the messages, floats. A `SharedWriter` is the address of a
-- `GuestWriter`; a `HashSet` is a map to the unit type.
use dots_rust.Prelude.{ℕ, String, Bool, Option, List, [], ◌∷◌, if◌then◌else◌}
use dots_rust.PropertySet
use dots_rust.PropertySet.{PropertySet}
use dots_rust.Dynamic.Flags.{StructFlags}
use dots_rust.Dynamic.Kind.{DynamicStructDescriptor, DynamicEnumDescriptor, flags_of, key_mask}
use dots_rust.Dynamic.Value.{DynamicStruct}
use dots_rust.Dynamic.Copy.{copy_take}
use dots_rust.Filter.Wire.{DotsFilter}
use dots_rust.Filter.Floats.{Floats}
use dots_rust.Filter.Compile.{CompiledPredicate}
use dots_rust.Container.Map.{Bytes}
use dots_rust.Container.{Values, Payload, typed, wire, DotsHeader}
use dots_rust.Host.Writer.{GuestWriter, GuestStats}

-- `HOST_ID`
abbrev pub host_id : ℕ
host_id = 1

pub data DotsMemberEvent : Type 0 where
  join leave kill : DotsMemberEvent

pub record DotsMember : Type 0 where
  pub group_name : Option String
  pub event : Option DotsMemberEvent
  pub client : Option ℕ
  pub subscription_id : Option ℕ
  pub filter : Option DotsFilter

pub record DotsCacheInfo : Type 0 where
  pub type_name : Option String
  pub start_transmission : Option Bool
  pub end_transmission : Option Bool
  pub end_descriptor_request : Option Bool

pub record DotsEcho : Type 0 where
  pub request : Option Bool
  pub identifier : Option ℕ
  pub sequence_number : Option ℕ
  pub data_text : Option String

pub record DotsDescriptorRequest : Type 0 where
  pub whitelist : Option (List String)
  pub blacklist : Option (List String)

pub record DotsMsgConnect : Type 0 where
  pub client_name : Option String
  pub preload_cache : Option Bool
  pub preload_client_finished : Option Bool
  pub auth_challenge_response : Option String
  pub cnonce : Option String

pub record DotsServerCapabilities : Type 0 where
  pub filtered_subscriptions : Option Bool

pub record DotsMsgHello : Type 0 where
  pub server_name : Option String
  pub auth_challenge : Option ℕ
  pub authentication_required : Option Bool
  pub capabilities : Option DotsServerCapabilities

pub record DotsMsgConnectResponse : Type 0 where
  pub server_name : Option String
  pub client_id : Option ℕ
  pub accepted : Option Bool
  pub preload : Option Bool
  pub preload_finished : Option Bool

pub data DotsConnectionState : Type 0 where
  early_subscribe connected closed : DotsConnectionState

-- `DescriptorEntry` of crates/dots-rs-model/src/registry.rs
pub data DescriptorEntry : Type 0 where
  struct : DynamicStructDescriptor → DescriptorEntry
  enum : DynamicEnumDescriptor → DescriptorEntry

pub record Env : Type 1 where
  pub values : Values
  pub floats : Floats
  pub static_flags : values.Static → StructFlags
  -- the tag and the `is_key` of each property
  pub static_properties : values.Static → List (ℕ × Bool)
  -- `AnyStruct::from_struct_value_with_mask`
  pub masked : values.Any → PropertySet → values.Any
  -- `encode_transmission_with_mask_into` of a payload, `encode_frame_with_header`, and
  -- `encode_transmission_into` of the messages
  pub encode_masked : DotsHeader → Payload values → PropertySet → Bytes
  pub encode_frame : DotsHeader → Bytes → Bytes
  pub encode_cache_info : DotsHeader → DotsCacheInfo → Bytes
  pub encode_echo : DotsHeader → DotsEcho → Bytes
  pub encode_descriptor : DotsHeader → DynamicStructDescriptor → Bytes
  pub encode_hello : DotsHeader → DotsMsgHello → Bytes
  pub encode_response : DotsHeader → DotsMsgConnectResponse → Bytes
  -- `Transmittable::valid_set` of the messages
  pub cache_info_valid : DotsCacheInfo → PropertySet
  pub hello_valid : DotsMsgHello → PropertySet
  pub response_valid : DotsMsgConnectResponse → PropertySet
  pub echo_valid : DotsEcho → PropertySet
  pub descriptor_valid : DynamicStructDescriptor → PropertySet
  -- `decode_typed_from_slice` and `DynamicStruct::decode`
  pub decode_member : Bytes → Option DotsMember
  pub decode_echo : Bytes → Option DotsEcho
  pub decode_request : Bytes → Option DotsDescriptorRequest
  pub decode_clear_cache : Bytes → Option (Option (List String))
  pub decode_connect : Bytes → Option DotsMsgConnect
  pub decode_wire : DynamicStructDescriptor → Bytes → Option DynamicStruct
  -- the name, and the descriptor that the registry builds from it
  pub decode_struct_data : Bytes → Option (Option String)
  pub build_struct : List (String × DescriptorEntry) → Bytes → Option DynamicStructDescriptor
  pub decode_enum_data : Bytes → Option (Option String)
  pub build_enum : List (String × DescriptorEntry) → Bytes → Option DynamicEnumDescriptor

pub record GuestRecord : Type 0 where
  pub client_name : Option String
  pub write_half : ℕ

pub record FilteredSub : Type 0 where
  pub filter : DotsFilter
  pub compiled : CompiledPredicate
  pub writer : ℕ
  pub visible : List (Bytes × Unit {0})

pub record Group : Type 0 where
  pub unfiltered_subs : List (ℕ × ℕ)
  pub filtered_subs : List ((ℕ × ℕ) × FilteredSub)

pub record ConnectionTransition : Type 0 where
  pub client_id : ℕ
  pub client_name : Option String
  pub state : DotsConnectionState
  pub final_stats : Option GuestStats

module _ (env : Env) where
  pub record CachedEntry : Type 0 where
    pub payload : Payload env.values
    pub created_from : Option ℕ
    pub last_update_sender : Option ℕ
    pub last_update_time : Option ℕ
    pub attributes : PropertySet

  abbrev pub Pool : Type 0
  Pool = List (String × List (Bytes × CachedEntry))

  -- `HostTransceiver` with its `HostInner`, the writers by address, and what the handler was told.
  pub record Host : Type 0 where
    pub self_name : String
    pub groups : List (String × Group)
    pub guests : List (ℕ × GuestRecord)
    pub next_client_id : ℕ
    pub pool : Pool
    pub entries : List (String × DescriptorEntry)
    pub static_structs : List (String × env.values.Static)
    pub writers : ℕ → GuestWriter
    pub next_address : ℕ
    pub transitions : List ConnectionTransition

  -- `Payload::flags`
  unfoldable pub payload_flags : Payload env.values → StructFlags
  payload_flags (typed a) = env.static_flags (env.values.descriptor_of a)
  payload_flags (wire d) = flags_of d.descriptor

  key_tags : PropertySet → List (ℕ × Bool) → PropertySet
  key_tags s [] = s
  key_tags s ((tag, is_key) ∷ rest) =
      key_tags (if is_key then PropertySet.with_tag s tag else s) rest

  -- `Payload::key_set`
  unfoldable pub key_set : Payload env.values → PropertySet
  unfolding key_tags key_mask
  key_set (typed a) =
      key_tags PropertySet.empty (env.static_properties (env.values.descriptor_of a))
  key_set (wire d) = key_mask d.descriptor

  -- `Payload::copy_take`; a payload of the other representation takes the place of the old one.
  unfoldable pub payload_copy_take :
      Payload env.values → Payload env.values → PropertySet → Payload env.values
  payload_copy_take (typed a) (typed b) mask = typed (env.values.typed_copy_take a b mask).0
  payload_copy_take (wire a) (wire b) mask = wire (copy_take a b mask).0
  payload_copy_take slot other mask = other
