-- ===== src/Host/Removal.antt =====
-- Removals that the broker makes itself, and the end of a guest: `cleanup_entries_for_guest`,
-- `remove_guest`, `handle_clear_cache` of crates/dots-rs-transport/src/host.rs. `now` is the time.
use dots_rust.Prelude.{
  ℕ, String, Bool, true, false, Option, none, some, List, [], ◌∷◌, ◌++◌, ◌==◌, if◌then◌else◌,
  unwrap_or,
}
use dots_rust.Prelude.Assoc.{lookup, string_key, nat_key}
use dots_rust.Dynamic.Flags.{is_cleanup}
use dots_rust.Dynamic.Kind.{DynamicStructDescriptor, flags_of}
use dots_rust.Container.Map.{Bytes}
use dots_rust.Container.{Transmission, valid_set}
use dots_rust.Host.Writer.{GuestStats, snapshot_stats}
use dots_rust.Host.Types.{Env, Host, CachedEntry, Pool, ConnectionTransition, closed, host_id}
use dots_rust.Host.Groups.{writer_for, drop_guest, set_writer}
use dots_rust.Host.Publish.{cache_and_fan_out}
use dots_rust.Host.Replay.{no_header, struct_entry}

-- `Some(client_id) == sender`
abbrev pub is_from : ℕ → Option ℕ → Bool
is_from client_id none = false
is_from client_id (some sender) = sender == client_id

abbrev pub cleanup_struct : Option DynamicStructDescriptor → Bool
cleanup_struct none = false
cleanup_struct (some d) = is_cleanup (flags_of d)

module _ (env : Env) where
  unfoldable pub removal_txn : String → ℕ → CachedEntry env → Transmission env.values
  removal_txn name now e = record {
    header = record no_header {
      type_name = some name;
      sent_time = e.last_update_time;
      server_sent_time = some now;
      attributes = some e.attributes;
      sender = some host_id;
      remove_obj = some true;
    };
    payload = e.payload;
  }

  unfoldable pub route_synthetic_removal : String → Transmission env.values → Host env → Host env
  unfolding cache_and_fan_out
  route_synthetic_removal name txn =
      cache_and_fan_out env name txn.header
        (env.encode_masked txn.header txn.payload (valid_set env.values txn.payload))
        (some txn.payload) host_id

  -- The removals of some instances, one after another.
  unfoldable pub route_removals : List (String × Transmission env.values) → Host env → Host env
  unfolding route_synthetic_removal
  route_removals [] host = host
  route_removals ((name, txn) ∷ rest) host =
      route_removals rest (route_synthetic_removal name txn host)

  unfoldable pub entries_from :
      ℕ → String → ℕ → List (Bytes × CachedEntry env) → List (String × Transmission env.values)
  unfolding removal_txn
  entries_from client_id name now [] = []
  entries_from client_id name now ((key, e) ∷ rest) =
      let others = entries_from client_id name now rest in
      if is_from client_id e.last_update_sender
      then (name, removal_txn name now e) ∷ others
      else others

  -- The instances that the guest was the last to write, of the types with the flag.
  unfoldable pub cleanup_entries :
      ℕ → ℕ → Host env → Pool env → List (String × Transmission env.values)
  unfolding entries_from
  cleanup_entries client_id now host [] = []
  cleanup_entries client_id now host ((name, m) ∷ rest) =
      let others = cleanup_entries client_id now host rest in
      if cleanup_struct (struct_entry (lookup name host.entries))
      then entries_from client_id name now m ++ others
      else others

  unfoldable pub cleanup_entries_for_guest : ℕ → ℕ → Host env → Host env
  unfolding cleanup_entries route_removals
  cleanup_entries_for_guest client_id now host =
      route_removals (cleanup_entries client_id now host host.pool) host

  -- The snapshot resets the high-water marks.
  unfoldable pub guest_stats : ℕ → Host env → Option GuestStats × Host env
  unfolding writer_for snapshot_stats
  guest_stats client_id host = elim (writer_for env client_id host) [
    | none ↦ (none, host)
    | some a ↦
        let (stats, w) = snapshot_stats (host.writers a) in
        (some stats, record host { writers = set_writer env a w host.writers })
  ]

  abbrev pub name_of_guest : ℕ → Host env → Option String
  name_of_guest client_id host = elim (lookup client_id host.guests) [
    | none ↦ none
    | some r ↦ r.client_name
  ]

  -- What the handler is told.
  unfoldable pub fire_transition : ConnectionTransition → Host env → Host env
  fire_transition t host = record host { transitions = host.transitions ++ t ∷ [] }

  unfoldable pub remove_guest : ℕ → ℕ → Host env → Host env
  unfolding cleanup_entries_for_guest guest_stats drop_guest fire_transition
  remove_guest client_id now host =
      let cleaned = cleanup_entries_for_guest client_id now host in
      let (final_stats, snapped) = guest_stats client_id cleaned in
      let name = name_of_guest client_id snapped in
      fire_transition
        (record {
          client_id = client_id;
          client_name = name;
          state = closed;
          final_stats = final_stats;
        })
        (drop_guest env client_id snapped)

  unfoldable pub entries_of :
      String → ℕ → List (Bytes × CachedEntry env) → List (String × Transmission env.values)
  unfolding removal_txn
  entries_of name now [] = []
  entries_of name now ((key, e) ∷ rest) = (name, removal_txn name now e) ∷ entries_of name now rest

  unfoldable pub cleared_entries :
      ℕ → Pool env → List String → List (String × Transmission env.values)
  unfolding entries_of
  cleared_entries now pool [] = []
  cleared_entries now pool (name ∷ names) =
      entries_of name now (unwrap_or (lookup name pool) []) ++ cleared_entries now pool names

  -- `fan_out_removals` takes the name of each removal from its header, which `removal_txn` wrote there.
  unfoldable pub clear_types : List String → ℕ → Host env → Host env
  unfolding cleared_entries route_removals
  clear_types names now host = route_removals (cleared_entries now host.pool names) host

  unfoldable pub handle_clear_cache : Bytes → ℕ → Host env → Host env
  unfolding clear_types
  handle_clear_cache payload now host = elim (env.decode_clear_cache payload) [
    | none ↦ host
    | some none ↦ host
    | some (some names) ↦ clear_types names now host
  ]

  -- Some entry was created or last written by the client.
  pub refers : ℕ → List (Bytes × CachedEntry env) → Bool
  refers client_id [] = false
  refers client_id ((key, e) ∷ rest) =
      if is_from client_id e.created_from
      then true
      else if is_from client_id e.last_update_sender
      then true
      else refers client_id rest

  unfoldable pub client_id_referenced : ℕ → Pool env → Bool
  unfolding refers
  client_id_referenced client_id [] = false
  client_id_referenced client_id ((name, m) ∷ rest) =
      let others = client_id_referenced client_id rest in
      if refers client_id m then true else others
