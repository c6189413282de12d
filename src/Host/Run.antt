-- ===== src/Host/Run.antt =====
-- The broker as a machine: what guests, the application and the sockets make it do, in any order.
use dots_rust.Prelude.{
  ℕ, ◌+◌, ◌<◌, ◌^◌, ◌≡◌, refl, sym, ap, ◌∙◌, String, Bool, true, false, Option, none, some, List,
  [], ◌∷◌, if◌then◌else◌, arith, Option-cases, inl, inr, unwrap_or, str_eq,
}
use dots_rust.Prelude.Assoc.{lookup, put, string_key, nat_key}
use dots_rust.PropertySet.{PropertySet}
use dots_rust.Dynamic.Kind.{DynamicStructDescriptor}
use dots_rust.Filter.Wire.{DotsFilter}
use dots_rust.Filter.Compile.{CompiledPredicate, Outcome, compile}
use dots_rust.Container.Map.{Bytes}
use dots_rust.Container.{Payload, DotsHeader, Transmission, valid_set}
use dots_rust.Host.Writer.{GuestWriter, is_empty}
use dots_rust.Host.Types.{
  Env, Host, DotsMember, DotsMemberEvent, join, leave, kill, DescriptorEntry, GuestRecord, host_id,
  ConnectionTransition, closed,
}
use dots_rust.Host.Groups.{
  with_registry, accept, writer_for, join_group, leave_group, leave_filtered_sub, set_client_name,
  drop_guest, shutdown, add_filtered_sub,
}
use dots_rust.Host.Publish.{cache_and_fan_out, incoming}
use dots_rust.Host.Replay.{
  replay_cache_to, handle_filtered_join, filtered_join, compiled_join, struct_entry, no_predicate,
}
use dots_rust.Host.Removal.{
  name_of_guest, route_synthetic_removal, route_removals, cleanup_entries,
  cleanup_entries_for_guest, guest_stats, remove_guest, clear_types, cleared_entries,
  handle_clear_cache, fire_transition,
}
use dots_rust.Host.Descriptors.{handle_descriptor_request}
use dots_rust.Host.Messages.{
  RawTransmission, handle_member, join_by, leave_by, member_event, member_of_group, handle_echo,
  reply_to, register_incoming_struct, register_incoming_enum, known, forward, learned, dispatch,
  handle_connected_message, publish_or_remove_with_mask, is_dropped,
}
use dots_rust.Host.Registered.{writer_in}
use dots_rust.Host.Registered.Members.{
  Registered, join_group-Registered, leave_group-Registered, leave_filtered_sub-Registered,
  add_filtered_sub-Registered,
}
use dots_rust.Host.Registered.Guests.{
  accept-Registered, drop_guest-Registered, set_client_name-Registered,
}
use dots_rust.Host.Registered.Traffic.{cache_and_fan_out-Registered}
use dots_rust.Host.Pooled.{IsPooled, cached-IsPooled}
pub mod Members
pub mod Handled
pub mod Reached

-- What both results of a test have, its result has.
pub if_holds {ℓ κ} :
    {A : Type ℓ} (P : A → Type κ) (b : Bool) (x y : A) → P x → P y → P (if b then x else y)
if_holds P true x y p q = p
if_holds P false x y p q = q

module _ (env : Env) where
  -- The groups and the pool are well-formed.
  pub record IsWell (host : Host env) : Type 0 where
    pub registered : Registered env host
    pub pooled : IsPooled env host.pool

  pub with_registry-IsWell :
      (self_name : String) (entries : List (String × DescriptorEntry))
      (static_structs : List (String × env.values.Static))
      → IsWell (with_registry env self_name entries static_structs)
  unfolding with_registry lookup
  with_registry-IsWell self_name entries static_structs = record {
    registered = record {
      guests_map = tt;
      groups_map = tt;
      live = tt;
      apart = λ i j a p q. cc;
      allocated = λ i a p. cc;
      identified = λ i a p. cc;
      started = omega arith;
    };
    pooled = record { pool_map = tt; used = tt };
  }

  cache_and_fan_out-pool :
      (name : String) (header : DotsHeader) (frame : Bytes) (payload : Option (Payload env.values))
      (exclude : ℕ) (host : Host env)
      → IsPooled env host.pool
      → IsPooled env (cache_and_fan_out env name header frame payload exclude host).pool
  unfolding cache_and_fan_out
  cache_and_fan_out-pool name header frame none exclude host h = h
  cache_and_fan_out-pool name header frame (some payload) exclude host h =
      let p = incoming env header payload in
      if_holds (IsPooled env) p.is_cached _ _ (cached-IsPooled env name p host.pool h) h

  pub cache_and_fan_out-IsWell :
      (name : String) (header : DotsHeader) (frame : Bytes) (payload : Option (Payload env.values))
      (exclude : ℕ) (host : Host env)
      → IsWell host
      → IsWell (cache_and_fan_out env name header frame payload exclude host)
  cache_and_fan_out-IsWell name header frame payload exclude host h = record {
    registered =
        cache_and_fan_out-Registered env name header frame payload exclude host h.registered;
    pooled = cache_and_fan_out-pool name header frame payload exclude host h.pooled;
  }

  route_synthetic_removal-IsWell :
      (name : String) (txn : Transmission env.values) (host : Host env)
      → IsWell host
      → IsWell (route_synthetic_removal env name txn host)
  unfolding route_synthetic_removal
  route_synthetic_removal-IsWell name txn host h =
      cache_and_fan_out-IsWell name txn.header
        (env.encode_masked txn.header txn.payload (valid_set env.values txn.payload))
        (some txn.payload) host_id host h

  pub route_removals-IsWell :
      (removals : List (String × Transmission env.values)) (host : Host env)
      → IsWell host
      → IsWell (route_removals env removals host)
  unfolding route_removals
  route_removals-IsWell [] host h = h
  route_removals-IsWell ((name, txn) ∷ rest) host h =
      route_removals-IsWell rest (route_synthetic_removal env name txn host)
        (route_synthetic_removal-IsWell name txn host h)

  pub guest_stats-IsWell :
      (client_id : ℕ) (host : Host env) → IsWell host → IsWell (guest_stats env client_id host).1
  unfolding guest_stats
  guest_stats-IsWell client_id host h = elim (Option-cases (writer_for env client_id host)) [
    | inl e ↦ rw (e, guest_stats) h
    | inr (a, e) ↦ rw (e, guest_stats) (record { registered = h.registered; pooled = h.pooled })
  ]

  pub drop_guest-IsWell :
      (client_id : ℕ) (host : Host env) → IsWell host → IsWell (drop_guest env client_id host)
  drop_guest-IsWell client_id host h = record {
    registered = drop_guest-Registered env client_id host h.registered;
    pooled = unfold drop_guest in h.pooled;
  }

  pub fire_transition-IsWell :
      (t : ConnectionTransition) (host : Host env)
      → IsWell host
      → IsWell (fire_transition env t host)
  unfolding fire_transition
  fire_transition-IsWell t host h = record { registered = h.registered; pooled = h.pooled }

  pub remove_guest-IsWell :
      (client_id now : ℕ) (host : Host env)
      → IsWell host
      → IsWell (remove_guest env client_id now host)
  unfolding remove_guest cleanup_entries_for_guest
  remove_guest-IsWell client_id now host h =
      let cleaned = cleanup_entries_for_guest env client_id now host in
      let snapped = (guest_stats env client_id cleaned).1 in
      fire_transition-IsWell
        (record {
          client_id = client_id;
          client_name = name_of_guest env client_id snapped;
          state = closed;
          final_stats = (guest_stats env client_id cleaned).0;
        })
        (drop_guest env client_id snapped)
        (drop_guest-IsWell client_id snapped (
          guest_stats-IsWell client_id cleaned
            (route_removals-IsWell (cleanup_entries env client_id now host host.pool) host h)))

  pub shutdown-IsWell : (host : Host env) → IsWell host → IsWell (shutdown env host)
  unfolding shutdown lookup
  shutdown-IsWell host h = record {
    registered = record {
      guests_map = tt;
      groups_map = tt;
      live = tt;
      apart = λ i j a p q. cc;
      allocated = λ i a p. cc;
      identified = λ i a p. cc;
      started = h.registered.started;
    };
    pooled = record { pool_map = tt; used = tt };
  }

  -- A change of the queues or of the registry.
  abbrev pub with_writers : (ℕ → GuestWriter) → Host env → Host env
  with_writers writers host = record host { writers = writers }

  pub with_writers-IsWell :
      (writers : ℕ → GuestWriter) (host : Host env)
      → IsWell host
      → IsWell (with_writers writers host)
  with_writers-IsWell writers host h = record { registered = h.registered; pooled = h.pooled }

  pub with_entries-IsWell :
      (entries : List (String × DescriptorEntry)) (host : Host env)
      → IsWell host
      → IsWell (record host { entries = entries })
  with_entries-IsWell entries host h = record { registered = h.registered; pooled = h.pooled }
