-- ===== src/Host/Replay.antt =====
-- The cached instances that a guest gets when it joins: `replay_cache_to` and `handle_filtered_join`
-- of crates/dots-rs-transport/src/host.rs. `now` is the time of the call.
use dots_rust.Prelude.{
  ℕ, suc, ◌-◌, ◌%◌, ◌^◌, String, Bool, true, false, not, ◌&&◌, Option, none, some, List, [], ◌∷◌,
  ◌++◌, if◌then◌else◌, length, unwrap_or,
}
use dots_rust.Prelude.Assoc.{lookup, string_key}
use dots_rust.PropertySet
use dots_rust.PropertySet.{PropertySet, union, intersection}
use dots_rust.Dynamic.Flags.{is_cached}
use dots_rust.Dynamic.Kind.{DynamicStructDescriptor, flags_of, key_mask}
use dots_rust.Filter.Wire.{DotsFilter, DotsPredicate}
use dots_rust.Filter.Compile.{CompiledPredicate, Outcome, compile}
use dots_rust.Container.Map.{Bytes, insert}
use dots_rust.Container.{Payload, DotsHeader, valid_set}
use dots_rust.Host.Writer.{is_empty}
use dots_rust.Host.Types.{
  Env, Host, FilteredSub, CachedEntry, DotsCacheInfo, DescriptorEntry, struct, host_id,
}
use dots_rust.Host.Groups.{writer_for, add_filtered_sub}
use dots_rust.Host.Publish.{matches_payload, enqueue_at}

-- `DotsHeader::default()`
abbrev pub no_header : DotsHeader
no_header = record {
  type_name = none;
  sent_time = none;
  server_sent_time = none;
  attributes = none;
  sender = none;
  from_cache = none;
  remove_obj = none;
  is_from_myself = none;
  subscription_id = none;
}

abbrev pub no_cache_info : DotsCacheInfo
no_cache_info = record {
  type_name = none;
  start_transmission = none;
  end_transmission = none;
  end_descriptor_request = none;
}

abbrev pub no_predicate : DotsPredicate
no_predicate = record { nodes = none }

-- The registry's entry is a struct.
abbrev pub struct_entry : Option DescriptorEntry → Option DynamicStructDescriptor
struct_entry (some (struct d)) = some d
struct_entry other = none

abbrev pub cached_struct : Option DynamicStructDescriptor → Bool
cached_struct none = false
cached_struct (some d) = is_cached (flags_of d)

module _ (env : Env) where
  -- The marker behind the replayed instances.
  unfoldable pub end_marker : String → Bytes
  end_marker name =
      let info = record no_cache_info { type_name = some name; end_transmission = some true } in
      env.encode_cache_info
        (record no_header {
          type_name = some "DotsCacheInfo";
          attributes = some (env.cache_info_valid info);
          sender = some host_id;
        })
        info

  unfoldable pub replayed_header : String → ℕ → ℕ → CachedEntry env → DotsHeader
  replayed_header name now left e = record no_header {
    type_name = some name;
    sent_time = e.last_update_time;
    server_sent_time = some now;
    attributes = some e.attributes;
    sender = e.last_update_sender;
    from_cache = some (left % 2 ^ 32);
  }

  -- The instances with `total - 1 - i` for the one at the index `i`.
  unfoldable pub replay_entries :
      String → ℕ → ℕ → ℕ → List (Bytes × CachedEntry env) → List (DotsHeader × Payload env.values)
  unfolding replayed_header
  replay_entries name now total i [] = []
  replay_entries name now total i ((key, e) ∷ rest) =
      (replayed_header name now (total - 1 - i) e, e.payload)
      ∷ replay_entries name now total (suc i) rest

  -- `Transmission::encode_into`: the payload with all that is set on it.
  unfoldable pub encode_all : List (DotsHeader × Payload env.values) → Bytes
  encode_all [] = []
  encode_all ((header, p) ∷ rest) =
      env.encode_masked header p (valid_set env.values p) ++ encode_all rest

  unfoldable pub replay_cache_to : ℕ → String → ℕ → Host env → Host env
  unfolding replay_entries encode_all end_marker writer_for enqueue_at
  replay_cache_to client_id name now host =
      let m = unwrap_or (lookup name host.pool) [] in
      let entries = replay_entries name now (length m) 0 m in
      elim (writer_for env client_id host) [
        | none ↦ host
        | some writer ↦
            if is_empty entries && not (cached_struct (struct_entry (lookup name host.entries)))
            then host
            else record host {
              writers = enqueue_at writer (encode_all entries ++ end_marker name) host.writers;
            }
      ]

  -- The instances that match, with the header that they get before the countdown.
  unfoldable pub matching_entries :
      CompiledPredicate
      → (CachedEntry env → DotsHeader)
      → List (Bytes × CachedEntry env)
      → List (DotsHeader × Payload env.values × Bytes)
  unfolding matches_payload
  matching_entries compiled header [] = []
  matching_entries compiled header ((key, e) ∷ rest) =
      let others = matching_entries compiled header rest in
      if matches_payload env compiled e.payload then (header e, e.payload, key) ∷ others else others

  unfoldable pub preload_header : String → ℕ → ℕ → PropertySet → CachedEntry env → DotsHeader
  preload_header name now sub_id mask e = record no_header {
    type_name = some name;
    sent_time = e.last_update_time;
    server_sent_time = some now;
    attributes = some (intersection mask e.attributes);
    sender = e.last_update_sender;
    subscription_id = some sub_id;
  }

  unfoldable pub visible_of :
      List (DotsHeader × Payload env.values × Bytes) → List (Bytes × Unit {0})
  visible_of [] = []
  visible_of ((header, p, key) ∷ rest) = insert key tt (visible_of rest)

  -- The matches with the countdown, each with the properties of its mask.
  unfoldable pub encode_matches : ℕ → ℕ → List (DotsHeader × Payload env.values × Bytes) → Bytes
  encode_matches total i [] = []
  encode_matches total i ((header, p, key) ∷ rest) =
      env.encode_masked (record header { from_cache = some ((total - 1 - i) % 2 ^ 32) }) p
        (unwrap_or header.attributes (valid_set env.values p))
      ++ encode_matches total (suc i) rest

  -- What a join with a predicate that compiled reads under the lock: the subscription with what it
  -- shows, and the matches.
  unfoldable pub filtered_snapshot :
      String
      → ℕ
      → DotsFilter
      → ℕ
      → DynamicStructDescriptor
      → CompiledPredicate
      → ℕ
      → Host env
      → FilteredSub × List (DotsHeader × Payload env.values × Bytes)
  unfolding matching_entries preload_header visible_of
  filtered_snapshot name sub_id filter now d compiled writer host =
      let mask = union (unwrap_or filter.property_mask PropertySet.all) (key_mask d) in
      let found =
        matching_entries compiled (preload_header name now sub_id mask)
          (unwrap_or (lookup name host.pool) []) in
      (
        record {
          filter = filter;
          compiled = compiled;
          writer = writer;
          visible = visible_of found;
        },
        found,
      )

  -- Under the lock again the subscription is inserted, and the matches are queued behind.
  unfoldable pub filtered_insert :
      ℕ
      → String
      → ℕ
      → FilteredSub × List (DotsHeader × Payload env.values × Bytes)
      → Host env
      → Host env
  unfolding encode_matches add_filtered_sub end_marker enqueue_at
  filtered_insert client_id name sub_id (sub, found) host =
      let joined = add_filtered_sub env client_id name sub_id sub host in
      record joined {
        writers =
            enqueue_at sub.writer (encode_matches (length found) 0 found ++ end_marker name)
              joined.writers;
      }

  -- The join when nothing comes in between its two critical sections.
  unfoldable pub filtered_join :
      ℕ
      → String
      → ℕ
      → DotsFilter
      → ℕ
      → DynamicStructDescriptor
      → CompiledPredicate
      → ℕ
      → Host env
      → Host env
  unfolding filtered_snapshot filtered_insert
  filtered_join client_id name sub_id filter now d compiled writer host =
      filtered_insert client_id name sub_id
        (filtered_snapshot name sub_id filter now d compiled writer host) host

  abbrev pub compiled_join :
      ℕ
      → String
      → ℕ
      → DotsFilter
      → ℕ
      → DynamicStructDescriptor
      → Outcome CompiledPredicate
      → Host env
      → Host env
  compiled_join client_id name sub_id filter now d (Outcome.ok compiled) host =
      elim (writer_for env client_id host) [
        | none ↦ host
        | some writer ↦ filtered_join client_id name sub_id filter now d compiled writer host
      ]
  compiled_join client_id name sub_id filter now d other host = host

  unfoldable pub handle_filtered_join : ℕ → String → ℕ → DotsFilter → ℕ → Host env → Host env
  unfolding filtered_join writer_for
  handle_filtered_join client_id name sub_id filter now host =
      elim (struct_entry (lookup name host.entries)) [
        | none ↦ host
        | some d ↦
            compiled_join client_id name sub_id filter now d
              (compile env.floats d (unwrap_or filter.predicate no_predicate)) host
      ]
