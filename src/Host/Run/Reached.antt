-- ===== src/Host/Run/Reached.antt =====
-- The broker as a machine: its steps, its runs, and what holds in every state of a run.
use dots_rust.Prelude.{ℕ, ◌≡◌, List, ◌+◌, ◌<◌, ◌^◌, String, Bool, Option, some}
use dots_rust.Prelude.Assoc.{string_key, nat_key}
use dots_rust.PropertySet.{PropertySet}
use dots_rust.Container.Map.{Bytes}
use dots_rust.Container.{Payload, DotsHeader}
use dots_rust.Host.Publish.{cache_and_fan_out}
use dots_rust.Host.Replay.{filtered_insert}
use dots_rust.Host.Registered.{writer_in}
use dots_rust.Host.Writer.{GuestWriter}
use dots_rust.Host.Types.{Env, Host, FilteredSub, DescriptorEntry, ConnectionTransition}
use dots_rust.Host.Groups.{
  with_registry, accept, set_client_name, shutdown, join_group, leave_group, leave_filtered_sub,
  drop_guest,
}
use dots_rust.Host.Removal.{remove_guest, fire_transition}
use dots_rust.Host.Messages.{RawTransmission, handle_connected_message, publish_or_remove_with_mask}
use dots_rust.Host.Registered.Guests.{accept-Registered}
use dots_rust.Host.Run.{
  drop_guest-IsWell, IsWell, with_registry-IsWell, cache_and_fan_out-IsWell, remove_guest-IsWell,
  shutdown-IsWell, with_writers, with_writers-IsWell, with_entries-IsWell, fire_transition-IsWell,
}
use dots_rust.Host.Run.Members.{
  filtered_insert-IsWell, join_group-IsWell, leave_group-IsWell, leave_filtered_sub-IsWell,
  set_client_name-IsWell,
}
use dots_rust.Host.Run.Handled.{handle_connected_message-IsWell, publish-IsWell}

module _ (env : Env) where
  -- What changes the broker: a guest that is accepted, names itself, sends a message or goes; the
  -- application that publishes or shuts down; the handler that is told; the queues, which the drainers,
  -- the handshake and the statistics change. An operation that takes the lock more than once may be
  -- interrupted by others: its critical sections are steps too. The second one of a filtered join comes
  -- with whatever the first one read earlier.
  pub data Step (host : Host env) : Host env → Type 0 where
    accepts : Step host (accept env host).1
    names :
        (client_id : ℕ) (name : Option String) → Step host (set_client_name env client_id name host)
    receives :
        (client_id : ℕ) (raw : RawTransmission) (now : ℕ)
        → Step host (handle_connected_message env client_id raw now host)
    inserts :
        (client_id : ℕ) (name : String) (sub_id : ℕ) (sub : FilteredSub)
        (found : List (DotsHeader × Payload env.values × Bytes))
        → Step host (filtered_insert env client_id name sub_id (sub, found) host)
    departs : (client_id now : ℕ) → Step host (remove_guest env client_id now host)
    publishes :
        (value : env.values.Any) (included : PropertySet) (remove : Option Bool) (now : ℕ)
        → Step host (publish_or_remove_with_mask env value included remove now host)
    tells : (t : ConnectionTransition) → Step host (fire_transition env t host)
    writes : (writers : ℕ → GuestWriter) → Step host (with_writers env writers host)
    shuts_down : Step host (shutdown env host)
    joins : (client_id : ℕ) (name : String) → Step host (join_group env client_id name host)
    leaves : (client_id : ℕ) (name : String) → Step host (leave_group env client_id name host)
    leaves_filtered :
        (client_id : ℕ) (name : String) (sub_id : ℕ)
        → Step host (leave_filtered_sub env client_id name sub_id host)
    drops : (client_id : ℕ) → Step host (drop_guest env client_id host)
    fans_out :
        (name : String) (header : DotsHeader) (frame : Bytes)
        (payload : Option (Payload env.values)) (exclude : ℕ)
        → Step host (cache_and_fan_out env name header frame payload exclude host)
    registers :
        (entries : List (String × DescriptorEntry)) → Step host (record host { entries = entries })

  pub data Reach (first : Host env) : Host env → Type 0 where
    start : Reach first first
    later : {host next : Host env} → Reach first host → Step host next → Reach first next

  -- The id that is handed out is not the last one of a `u32`; the guest whose filtered subscription is
  -- inserted is connected, with the writer that the first critical section found.
  abbrev pub IsOrderly : {host next : Host env} → Step host next → Type 0
  IsOrderly {host} accepts = host.next_client_id + 1 < 2 ^ 32
  IsOrderly {host} (inserts client_id name sub_id sub found) =
      writer_in host.guests client_id ≡ some sub.writer
  IsOrderly (names client_id name) = Unit
  IsOrderly (receives client_id raw now) = Unit
  IsOrderly (departs client_id now) = Unit
  IsOrderly (publishes value included remove now) = Unit
  IsOrderly (tells t) = Unit
  IsOrderly (writes writers) = Unit
  IsOrderly shuts_down = Unit
  IsOrderly (joins client_id name) = Unit
  IsOrderly (leaves client_id name) = Unit
  IsOrderly (leaves_filtered client_id name sub_id) = Unit
  IsOrderly (drops client_id) = Unit
  IsOrderly (fans_out name header frame payload exclude) = Unit
  IsOrderly (registers entries) = Unit

  abbrev pub AreOrderly : {first host : Host env} → Reach first host → Type 0
  AreOrderly start = Unit
  AreOrderly (later r s) = AreOrderly r × IsOrderly s

  Step-IsWell :
      {host next : Host env} (s : Step host next) → IsOrderly s → IsWell env host → IsWell env next
  Step-IsWell {host} accepts room h = record {
    registered = accept-Registered env host room h.registered;
    pooled = unfold accept in h.pooled;
  }
  Step-IsWell {host} (names client_id name) o h = set_client_name-IsWell env client_id name host h
  Step-IsWell {host} (receives client_id raw now) o h =
      handle_connected_message-IsWell env client_id raw now host h
  Step-IsWell {host} (inserts client_id name sub_id sub found) connected h =
      filtered_insert-IsWell env client_id name sub_id sub found host connected h
  Step-IsWell {host} (departs client_id now) o h = remove_guest-IsWell env client_id now host h
  Step-IsWell {host} (publishes value included remove now) o h =
      publish-IsWell env value included remove now host h
  Step-IsWell {host} (tells t) o h = fire_transition-IsWell env t host h
  Step-IsWell {host} (writes writers) o h = with_writers-IsWell env writers host h
  Step-IsWell {host} shuts_down o h = shutdown-IsWell env host h
  Step-IsWell {host} (joins client_id name) o h = join_group-IsWell env client_id name host h
  Step-IsWell {host} (leaves client_id name) o h = leave_group-IsWell env client_id name host h
  Step-IsWell {host} (leaves_filtered client_id name sub_id) o h =
      leave_filtered_sub-IsWell env client_id name sub_id host h
  Step-IsWell {host} (drops client_id) o h = drop_guest-IsWell env client_id host h
  Step-IsWell {host} (fans_out name header frame payload exclude) o h =
      cache_and_fan_out-IsWell env name header frame payload exclude host h
  Step-IsWell {host} (registers entries) o h = with_entries-IsWell env entries host h

  run-IsWell :
      {first host : Host env} (r : Reach first host)
      → AreOrderly r
      → IsWell env first
      → IsWell env host
  run-IsWell start o h = h
  run-IsWell (later r s) o h = Step-IsWell s o.1 (run-IsWell r o.0 h)

  -- From its start on, in whatever order guests, messages, publishes, departures, shutdowns and the
  -- critical sections of all of these follow each other, the broker is well-formed: every subscriber of
  -- every group is a connected guest with its own writer, no group is empty, no two guests share a
  -- writer, client ids are above the host's and below the next one to be given, and every type in the
  -- pool has an instance. It asks that the client ids do not run out, and that a guest is still
  -- connected, with its writer, when its filtered subscription is inserted; a shutdown between the two
  -- critical sections of a filtered join breaks that.
  pub Reach-IsWell :
      (self_name : String) (entries : List (String × DescriptorEntry))
      (static_structs : List (String × env.values.Static)) {host : Host env}
      (r : Reach (with_registry env self_name entries static_structs) host)
      → AreOrderly r
      → IsWell env host
  Reach-IsWell self_name entries static_structs r o =
      run-IsWell r o (with_registry-IsWell env self_name entries static_structs)
