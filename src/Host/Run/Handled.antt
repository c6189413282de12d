-- ===== src/Host/Run/Handled.antt =====
-- The messages of a guest and the publishes of the application, and the well-formed broker.
use dots_rust.Prelude.{ℕ, String, Bool, Option, none, some, Option-cases, inl, inr}
use dots_rust.Prelude.Assoc.{string_key, nat_key}
use dots_rust.PropertySet.{PropertySet}
use dots_rust.Container.Map.{Bytes}
use dots_rust.Host.Types.{Env, Host}
use dots_rust.Host.Groups.{writer_for}
use dots_rust.Host.Removal.{clear_types, cleared_entries, handle_clear_cache}
use dots_rust.Host.Descriptors.{handle_descriptor_request}
use dots_rust.Host.Messages.{
  RawTransmission, handle_echo, register_incoming_struct, register_incoming_enum, forward, learned,
  dispatch, handle_connected_message, publish_or_remove_with_mask,
}
use dots_rust.Host.Run.{
  if_holds, IsWell, cache_and_fan_out-IsWell, route_removals-IsWell, with_writers-IsWell,
  with_entries-IsWell,
}
use dots_rust.Host.Run.Members.{reply_to-IsWell, handle_member-IsWell}

module _ (env : Env) where
  handle_echo-IsWell :
      (client_id : ℕ) (payload : Bytes) (now : ℕ) (host : Host env)
      → IsWell env host
      → IsWell env (handle_echo env client_id payload now host)
  unfolding handle_echo
  handle_echo-IsWell client_id payload now host h = elim (Option-cases (env.decode_echo payload)) [
    | inl e ↦ rw (e, handle_echo) h
    | inr (m, e) ↦
        rw (e, handle_echo) (if_holds (IsWell env) _ _ _ (reply_to-IsWell env client_id _ host h) h)
  ]

  handle_descriptor_request-IsWell :
      (client_id : ℕ) (payload : Bytes) (now : ℕ) (host : Host env)
      → IsWell env host
      → IsWell env (handle_descriptor_request env client_id payload now host)
  unfolding handle_descriptor_request
  handle_descriptor_request-IsWell client_id payload now host h =
      elim (Option-cases (env.decode_request payload)) [
        | inl e ↦ rw (e, handle_descriptor_request) h
        | inr (r, e) ↦ elim (Option-cases (writer_for env client_id host)) [
          | inl e' ↦ rw (e, e', handle_descriptor_request) h
          | inr (a, e') ↦ rw (e, e', handle_descriptor_request) (with_writers-IsWell env _ host h)
        ]
      ]

  handle_clear_cache-IsWell :
      (payload : Bytes) (now : ℕ) (host : Host env)
      → IsWell env host
      → IsWell env (handle_clear_cache env payload now host)
  unfolding handle_clear_cache clear_types
  handle_clear_cache-IsWell payload now host h =
      elim (Option-cases (env.decode_clear_cache payload)) [
        | inl e ↦ rw (e, handle_clear_cache) h
        | inr (none, e) ↦ rw (e, handle_clear_cache) h
        | inr (some names, e) ↦
            rw (e, handle_clear_cache)
              (route_removals-IsWell env (cleared_entries env now host.pool names) host h)
      ]

  register_incoming_struct-IsWell :
      (payload : Bytes) (host : Host env)
      → IsWell env host
      → IsWell env (register_incoming_struct env payload host)
  unfolding register_incoming_struct
  register_incoming_struct-IsWell payload host h =
      elim (Option-cases (env.decode_struct_data payload)) [
        | inl e ↦ rw (e, register_incoming_struct) h
        | inr (name, e) ↦ elim (Option-cases (env.build_struct host.entries payload)) [
          | inl e' ↦ rw (e, e', register_incoming_struct) (if_holds (IsWell env) _ _ _ h h)
          | inr (d, e') ↦
              rw (e, e', register_incoming_struct)
                (if_holds (IsWell env) _ _ _ h (with_entries-IsWell env _ host h))
        ]
      ]

  register_incoming_enum-IsWell :
      (payload : Bytes) (host : Host env)
      → IsWell env host
      → IsWell env (register_incoming_enum env payload host)
  unfolding register_incoming_enum
  register_incoming_enum-IsWell payload host h =
      elim (Option-cases (env.decode_enum_data payload)) [
        | inl e ↦ rw (e, register_incoming_enum) h
        | inr (name, e) ↦ elim (Option-cases (env.build_enum host.entries payload)) [
          | inl e' ↦ rw (e, e', register_incoming_enum) (if_holds (IsWell env) _ _ _ h h)
          | inr (d, e') ↦
              rw (e, e', register_incoming_enum)
                (if_holds (IsWell env) _ _ _ h (with_entries-IsWell env _ host h))
        ]
      ]

  learned-IsWell :
      (name : String) (payload : Bytes) (host : Host env)
      → IsWell env host
      → IsWell env (learned env name payload host)
  unfolding learned
  learned-IsWell name payload host h =
      if_holds (IsWell env) _ _ _ (register_incoming_struct-IsWell payload host h)
        (if_holds (IsWell env) _ _ _ (register_incoming_enum-IsWell payload host h) h)

  dispatch-IsWell :
      (client_id : ℕ) (name : Option String) (raw : RawTransmission) (now : ℕ) (host : Host env)
      → IsWell env host
      → IsWell env (dispatch env client_id name raw now host)
  unfolding forward
  dispatch-IsWell client_id none raw now host h = h
  dispatch-IsWell client_id (some name) raw now host h =
      if_holds (IsWell env) _ _ _ (handle_member-IsWell env client_id raw.payload now host h) (
        if_holds (IsWell env) _ _ _ (handle_echo-IsWell client_id raw.payload now host h) (
          if_holds (IsWell env) _ _ _
            (handle_descriptor_request-IsWell client_id raw.payload now host h)
            (if_holds (IsWell env) _ _ _ (handle_clear_cache-IsWell raw.payload now host h) (
              if_holds (IsWell env) _ _ _ h (
                cache_and_fan_out-IsWell env name _ _ _ _ _
                  (learned-IsWell name raw.payload host h))))))

  pub handle_connected_message-IsWell :
      (client_id : ℕ) (raw : RawTransmission) (now : ℕ) (host : Host env)
      → IsWell env host
      → IsWell env (handle_connected_message env client_id raw now host)
  unfolding handle_connected_message
  handle_connected_message-IsWell client_id raw now host h =
      dispatch-IsWell client_id raw.header.type_name raw now host h

  pub publish-IsWell :
      (value : env.values.Any) (included : PropertySet) (remove : Option Bool) (now : ℕ)
      (host : Host env)
      → IsWell env host
      → IsWell env (publish_or_remove_with_mask env value included remove now host)
  unfolding publish_or_remove_with_mask
  publish-IsWell value included remove now host h = cache_and_fan_out-IsWell env _ _ _ _ _ host h
