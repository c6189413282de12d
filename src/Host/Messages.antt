-- ===== src/Host/Messages.antt =====
-- What the broker does with a guest's message, and with what it publishes itself:
-- `handle_connected_message` with its handlers, and `publish_or_remove_with_mask`, of
-- crates/dots-rs-transport/src/host.rs. `now` is the time; log lines are left out.
use dots_rust.Prelude.{
  ℕ, String, Bool, true, false, Option, none, some, ◌||◌, if◌then◌else◌, str_eq, unwrap_or, is_some,
}
use dots_rust.Prelude.Assoc.{lookup, put, string_key}
use dots_rust.PropertySet
use dots_rust.PropertySet.{PropertySet, union, intersection}
use dots_rust.Dynamic.Kind.{name_of}
use dots_rust.Filter.Wire.{DotsFilter}
use dots_rust.Container.Map.{Bytes}
use dots_rust.Container.{Payload, typed, wire, DotsHeader}
use dots_rust.Host.Writer.{is_empty}
use dots_rust.Host.Types.{
  Env, Host, DotsMember, DotsMemberEvent, join, leave, kill, DotsEcho, struct, enum, Group, host_id,
  key_set,
}
use dots_rust.Host.Groups.{writer_for, join_group, leave_group, leave_filtered_sub}
use dots_rust.Host.Publish.{cache_and_fan_out, enqueue_at}
use dots_rust.Host.Replay.{
  no_header, cached_struct, struct_entry, replay_cache_to, handle_filtered_join,
}
use dots_rust.Host.Removal.{handle_clear_cache}
use dots_rust.Host.Descriptors.{handle_descriptor_request}

-- `RawTransmission`, without its size
pub record RawTransmission : Type 0 where
  pub header : DotsHeader
  pub payload : Bytes

abbrev pub has_filtered_subs : Option Group → Bool
has_filtered_subs none = false
has_filtered_subs (some g) = if is_empty g.filtered_subs then false else true

module _ (env : Env) where
  -- A join with only one of a filter and an id is dropped.
  abbrev pub join_by : ℕ → String → Option DotsFilter → Option ℕ → ℕ → Host env → Host env
  join_by client_id name (some filter) (some sub_id) now host =
      handle_filtered_join env client_id name sub_id filter now host
  join_by client_id name none none now host =
      replay_cache_to env client_id name now (join_group env client_id name host)
  join_by client_id name (some filter) none now host = host
  join_by client_id name none (some sub_id) now host = host

  abbrev pub leave_by : ℕ → String → Option ℕ → Host env → Host env
  leave_by client_id name (some sub_id) host = leave_filtered_sub env client_id name sub_id host
  leave_by client_id name none host = leave_group env client_id name host

  abbrev pub member_event :
      ℕ → String → DotsMember → Option DotsMemberEvent → ℕ → Host env → Host env
  member_event client_id name m (some join) now host =
      join_by client_id name m.filter m.subscription_id now host
  member_event client_id name m (some leave) now host =
      leave_by client_id name m.subscription_id host
  member_event client_id name m (some kill) now host = host
  member_event client_id name m none now host = host

  abbrev pub member_of_group : ℕ → DotsMember → Option String → ℕ → Host env → Host env
  member_of_group client_id m none now host = host
  member_of_group client_id m (some name) now host = member_event client_id name m m.event now host

  unfoldable pub handle_member : ℕ → Bytes → ℕ → Host env → Host env
  unfolding handle_filtered_join replay_cache_to join_group leave_filtered_sub leave_group
  handle_member client_id payload now host = elim (env.decode_member payload) [
    | none ↦ host
    | some m ↦ member_of_group client_id m m.group_name now host
  ]

  -- A reply goes to the guest, if it is still there.
  unfoldable pub reply_to : ℕ → Bytes → Host env → Host env
  unfolding writer_for enqueue_at
  reply_to client_id frame host = elim (writer_for env client_id host) [
    | none ↦ host
    | some writer ↦ record host { writers = enqueue_at writer frame host.writers }
  ]

  unfoldable pub echo_reply : DotsEcho → ℕ → Bytes
  echo_reply echo now =
      let reply = record echo { request = some false } in
      env.encode_echo
        (record no_header {
          type_name = some "DotsEcho";
          attributes = some (env.echo_valid reply);
          sender = some host_id;
          sent_time = some now;
          server_sent_time = some now;
        })
        reply

  unfoldable pub handle_echo : ℕ → Bytes → ℕ → Host env → Host env
  unfolding reply_to echo_reply
  handle_echo client_id payload now host = elim (env.decode_echo payload) [
    | none ↦ host
    | some echo ↦
        if unwrap_or echo.request false then reply_to client_id (echo_reply echo now) host else host
  ]

  abbrev pub known : Option String → Host env → Bool
  known none host = false
  known (some name) host = is_some (lookup name host.entries)

  -- A descriptor of a name that is taken is dropped.
  unfoldable pub register_incoming_struct : Bytes → Host env → Host env
  register_incoming_struct payload host = elim (env.decode_struct_data payload) [
    | none ↦ host
    | some name ↦ if known name host then host else elim (env.build_struct host.entries payload) [
      | none ↦ host
      | some d ↦ record host { entries = put (name_of d) (struct d) host.entries }
    ]
  ]

  unfoldable pub register_incoming_enum : Bytes → Host env → Host env
  register_incoming_enum payload host = elim (env.decode_enum_data payload) [
    | none ↦ host
    | some name ↦ if known name host then host else elim (env.build_enum host.entries payload) [
      | none ↦ host
      | some d ↦ record host { entries = put d.name (enum d) host.entries }
    ]
  ]

  -- The sender is stamped when the guest left it out; the server's time is always.
  unfoldable pub stamped : ℕ → ℕ → DotsHeader → DotsHeader
  stamped client_id now header = record header {
    sender = some (unwrap_or header.sender client_id);
    server_sent_time = some now;
  }

  -- The payload is decoded for a cached type or for filtered subscriptions.
  unfoldable pub decoded : String → Bytes → Host env → Option (Payload env.values)
  decoded name payload host =
      let d = struct_entry (lookup name host.entries) in
      if (if cached_struct d then true else has_filtered_subs (lookup name host.groups))
      then elim d [
        | none ↦ none
        | some shape ↦ elim (env.decode_wire shape payload) [
          | none ↦ none
          | some value ↦ some (wire value)
        ]
      ]
      else none

  unfoldable pub forward : ℕ → String → RawTransmission → ℕ → Host env → Host env
  unfolding stamped decoded cache_and_fan_out
  forward client_id name raw now host =
      let header = stamped client_id now raw.header in
      cache_and_fan_out env name header (env.encode_frame header raw.payload)
        (decoded name raw.payload host) 0 host

  -- `DotsMsgError`, and the handshake's messages that come too late, are dropped.
  abbrev pub is_dropped : String → Bool
  is_dropped name =
      str_eq name "DotsMsgError"
      || (str_eq name "DotsMsgConnect"
          || (str_eq name "DotsMsgConnectResponse" || str_eq name "DotsMsgHello"))

  -- A descriptor is learned before it is passed on.
  unfoldable pub learned : String → Bytes → Host env → Host env
  unfolding register_incoming_struct register_incoming_enum
  learned name payload host =
      if str_eq name "StructDescriptorData"
      then register_incoming_struct payload host
      else if str_eq name "EnumDescriptorData"
      then register_incoming_enum payload host
      else host

  abbrev pub dispatch : ℕ → Option String → RawTransmission → ℕ → Host env → Host env
  dispatch client_id none raw now host = host
  dispatch client_id (some name) raw now host =
      if str_eq name "DotsMember"
      then handle_member client_id raw.payload now host
      else if str_eq name "DotsEcho"
      then handle_echo client_id raw.payload now host
      else if str_eq name "DotsDescriptorRequest"
      then handle_descriptor_request env client_id raw.payload now host
      else if str_eq name "DotsClearCache"
      then handle_clear_cache env raw.payload now host
      else if is_dropped name
      then host
      else forward client_id name raw now (learned name raw.payload host)

  unfoldable pub handle_connected_message : ℕ → RawTransmission → ℕ → Host env → Host env
  unfolding handle_member handle_echo forward learned
  handle_connected_message client_id raw now host =
      dispatch client_id raw.header.type_name raw now host

  -- `payload_as_dynamic`
  unfoldable pub payload_as_dynamic :
      String → env.values.Any → PropertySet → Host env → Option (Payload env.values)
  payload_as_dynamic name value mask host = elim (lookup name host.static_structs) [
    | none ↦ none
    | some d ↦
        if env.values.same_static d (env.values.descriptor_of value)
        then some (typed (env.masked value mask))
        else none
  ]

  unfoldable pub publish_or_remove_with_mask :
      env.values.Any → PropertySet → Option Bool → ℕ → Host env → Host env
  unfolding payload_as_dynamic cache_and_fan_out key_set
  publish_or_remove_with_mask value included remove now host =
      let name = env.values.static_name (env.values.descriptor_of value) in
      let mask =
        intersection (union included (key_set env (typed value))) (env.values.typed_valid value) in
      let header = record no_header {
        type_name = some name;
        attributes = some mask;
        sender = some host_id;
        sent_time = some now;
        server_sent_time = some now;
        remove_obj = remove;
      } in
      cache_and_fan_out env name header (env.encode_masked header (typed value) mask)
        (payload_as_dynamic name value mask host) host_id host

  unfoldable pub publish : env.values.Any → ℕ → Host env → Host env
  unfolding publish_or_remove_with_mask
  publish value now host =
      publish_or_remove_with_mask value (env.values.typed_valid value) none now host

  unfoldable pub publish_with_mask : env.values.Any → PropertySet → ℕ → Host env → Host env
  unfolding publish_or_remove_with_mask
  publish_with_mask value included now host =
      publish_or_remove_with_mask value included none now host

  -- `HostTransceiver::remove`
  unfoldable pub remove_value : env.values.Any → ℕ → Host env → Host env
  unfolding publish_or_remove_with_mask
  remove_value value now host =
      publish_or_remove_with_mask value PropertySet.empty (some true) now host
