-- ===== src/Host/Examples.antt =====
-- The theorems on the broker at concrete inputs, and runs.
use dots_rust.Prelude.{
  ℕ, map, ◌≡◌, refl, true, false, ◌||◌, Option, none, some, List, [], ◌∷◌, ◌++◌, arith, str_eq,
  if◌then◌else◌,
}
use dots_rust.Prelude.Assoc.{lookup, put, erase, Every, string_key, nat_key}
use dots_rust.Dynamic.Kind.{
  DynamicFieldKind, DynamicStructDescriptor, descriptor, Properties, property, name_of,
}
use dots_rust.Dynamic.Value.{DynamicValue, DynamicStruct, get}
use dots_rust.Dynamic.Copy.{copy_from}
use dots_rust.Filter.Floats.{Floats}
use dots_rust.Container.Map.{Bytes, same_key}
use dots_rust.Container.{Values, wire}
use dots_rust.Host.Writer.{
  new, enqueue, close, room, drain_vectored, done, concat, is_overflowed, record_received,
}
use dots_rust.Host.Writer.Bounded.{
  IsBounded, enqueues, takes_queue, snapshots, perform_all, new-stays_IsBounded, perform_all-closed,
}
use dots_rust.Host.Drainer.{Event, produce, shut, wake, check, write, step, run, start, writing}
use dots_rust.Host.Drainer.Flow.{drain_vectored-ends}
use dots_rust.Host.Drainer.Invariant.{held, run-lossless, run-delivered, run-wakes}
use dots_rust.Host.Types.{Env, Host, DotsMember, DotsMsgConnect, join, FilteredSub}
use dots_rust.Host.Groups.{with_registry, accept, writer_for, join_group, group_or_default}
use dots_rust.Host.Publish.{
  Incoming, cache_and_fan_out, contains, dispatch_sub, now_matches, cached,
}
use dots_rust.Host.Replay.{no_header, replay_cache_to}
use dots_rust.Host.Removal.{remove_guest}
use dots_rust.Host.Descriptors.{sort_descriptors_by_dependency}
use dots_rust.Host.Descriptors.Sorted.{HoldsAll, sort-HoldsAll}
use dots_rust.Host.Messages.{RawTransmission, handle_connected_message, handle_member}
use dots_rust.Host.FanOut.{enqueue_all, cache_and_fan_out-reaches}
use dots_rust.Host.View.{dispatch_sub-view}
use dots_rust.Host.Pooled.{stored, expected, cached-stored}
use dots_rust.Host.Departed.{IsWithout, remove_guest-gone}
use dots_rust.Host.Run.{IsWell}
use dots_rust.Host.Run.Reached.{Reach, later, accepts, receives, inserts, AreOrderly, Reach-IsWell}
use dots_rust.Host.Run.Reached
use dots_rust.Host.Replay.{filtered_insert}
use dots_rust.Host.Session.{
  guest_step, accept_connect, Read, received, Phase, guest_run, decode_handshake,
}

abbrev two_frames : List Bytes
two_frames = (1 ∷ 2 ∷ []) ∷ (3 ∷ []) ∷ []

new-stays_IsBounded_example : IsBounded (perform_all (enqueues (1 ∷ 2 ∷ []) ∷ snapshots ∷ []) new)
new-stays_IsBounded_example = new-stays_IsBounded (enqueues (1 ∷ 2 ∷ []) ∷ snapshots ∷ [])

perform_all-closed_example :
    ((perform_all (takes_queue ∷ []) (close new)).state.closed ≡ true)
    × ((b : Bytes)
        → enqueue b (perform_all (takes_queue ∷ []) (close new))
          ≡ perform_all (takes_queue ∷ []) (close new))
unfolding close
perform_all-closed_example = perform_all-closed (takes_queue ∷ []) (close new) refl

drain_vectored-ends_example :
    ((drain_vectored (room 2 ∷ room 1 ∷ room 9 ∷ []) two_frames).0 ≡ done)
    × ((drain_vectored (room 2 ∷ room 1 ∷ room 9 ∷ []) two_frames).1 ≡ [])
drain_vectored-ends_example =
    drain_vectored-ends (room 2 ∷ room 1 ∷ room 9 ∷ []) two_frames (omega arith) (omega arith)
      (omega arith)

-- A frame is queued, sent in two writes, and the writer is closed.
abbrev sent_and_shut : List Event
sent_and_shut =
    produce (1 ∷ 2 ∷ []) ∷ check ∷ write (room 1 ∷ room 1 ∷ []) ∷ check ∷ shut ∷ wake ∷ check ∷ []

run-lossless_example :
    let s = run sent_and_shut start in
    s.socket ++ concat (held s.phase) ++ concat s.writer.state.queue ≡ concat s.accepted
run-lossless_example = run-lossless sent_and_shut

run-delivered_example :
    ((run sent_and_shut start).socket ≡ concat (run sent_and_shut start).accepted)
    × ((run sent_and_shut start).writer.state.closed ≡ true)
unfolding run step start
run-delivered_example = run-delivered sent_and_shut refl

delivered_bytes : (run sent_and_shut start).socket ≡ 1 ∷ 2 ∷ []
unfolding run step start
delivered_bytes = refl

abbrev idle_then_frame : List Event
idle_then_frame = check ∷ produce (1 ∷ 2 ∷ []) ∷ []

run-wakes_example :
    (run (wake ∷ check ∷ []) (run idle_then_frame start)).phase ≡ writing ((1 ∷ 2 ∷ []) ∷ [])
unfolding run step start
run-wakes_example = run-wakes idle_then_frame refl refl

abbrev key_of : Option DynamicValue → Bytes
key_of (some (DynamicValue.u32 n)) = n ∷ []
key_of _ = []

-- Typed values that are structs with a descriptor, and codecs that write little and read one thing.
abbrev plain : Values
plain = record {
  Static = DynamicStructDescriptor;
  Any = DynamicStruct;
  static_name = name_of;
  descriptor_of = λ a. a.descriptor;
  same_static = λ a d. str_eq (name_of a) (name_of d);
  same_arc = λ a d. str_eq (name_of a) (name_of d);
  typed_valid = λ a. a.valid;
  typed_key = λ a. key_of (get a 1);
  dynamic_key = λ a. key_of (get a 1);
  typed_copy_from = copy_from;
  typed_copy_take = λ a b mask. (copy_from a b mask, b);
  encode_typed = λ a. [];
  encode_dynamic = λ a. [];
  decode_any = λ d bytes. none;
  decode_struct = λ d bytes. none;
}

abbrev no_floats : Floats
no_floats = record {
  eq_f32 = λ a b. false;
  eq_f64 = λ a b. false;
  partial_cmp_f32 = λ a b. none;
  partial_cmp_f64 = λ a b. none;
  to_f32 = λ a. a;
  to_f64 = λ a. a;
}

abbrev join_pingers : DotsMember
join_pingers = record {
  group_name = some "Pinger";
  event = some join;
  client = none;
  subscription_id = none;
  filter = none;
}

abbrev connect_message : DotsMsgConnect
connect_message = record {
  client_name = some "guest";
  preload_cache = none;
  preload_client_finished = none;
  auth_challenge_response = none;
  cnonce = none;
}

abbrev env : Env
env = record {
  values = plain;
  floats = no_floats;
  static_flags = λ d. 1;
  static_properties = λ d. (1, true) ∷ (2, false) ∷ [];
  masked = λ a mask. a;
  encode_masked = λ h p mask. mask ∷ [];
  encode_frame = λ h b. 5 ∷ b;
  encode_cache_info = λ h i. 6 ∷ [];
  encode_echo = λ h e. 7 ∷ [];
  encode_descriptor = λ h d. 8 ∷ [];
  encode_hello = λ h m. 9 ∷ [];
  encode_response = λ h m. 10 ∷ [];
  cache_info_valid = λ i. 2;
  hello_valid = λ m. 30;
  response_valid = λ m. 2;
  echo_valid = λ e. 2;
  descriptor_valid = λ d. 2;
  decode_member = λ b. some join_pingers;
  decode_echo = λ b. none;
  decode_request = λ b. none;
  decode_clear_cache = λ b. none;
  decode_connect = λ b. some connect_message;
  decode_wire = λ d b. none;
  decode_struct_data = λ b. none;
  build_struct = λ m b. none;
  decode_enum_data = λ b. none;
  build_enum = λ m b. none;
}

abbrev first_host : Host env
first_host = with_registry env "host" [] []

abbrev one_guest : Host env
one_guest = (accept env first_host).1

abbrev join_message : RawTransmission
join_message = record { header = record no_header { type_name = some "DotsMember" }; payload = [] }

abbrev joined : Host env
joined = handle_connected_message env 2 join_message 0 one_guest

abbrev pinger : DynamicStructDescriptor
pinger = descriptor "Pinger" 1 (
    property "id" 1 true DynamicFieldKind.u32
      (property "seq" 2 false DynamicFieldKind.u64 Properties.end))

abbrev ping : DynamicStruct
ping = record {
  descriptor = pinger;
  valid = 6;
  properties = (1, DynamicValue.u32 7) ∷ (2, DynamicValue.u64 3) ∷ [];
}

abbrev ping_in : Incoming env
ping_in = record {
  header = record no_header { sender = some 2 };
  payload = wire ping;
  is_cached = true;
  keys = 2;
  key = 7 ∷ [];
}

-- A subscription without a predicate, which shows nothing yet.
abbrev all_pings : FilteredSub
all_pings = record {
  filter = record { predicate = none; property_mask = none };
  compiled = record { nodes = [] };
  writer = 0;
  visible = [];
}

-- A subscription of the guest 2 that was read earlier goes in.
abbrev both : Host env
both = filtered_insert env 2 "Pinger" 4 (all_pings, []) joined

reached : Reach env first_host joined
unfolding with_registry
reached = later (later Reached.start accepts) (receives 2 join_message 0)

reached_both : Reach env first_host both
reached_both = later reached (inserts 2 "Pinger" 4 all_pings [])

joined-AreOrderly : AreOrderly env reached
unfolding with_registry reached
joined-AreOrderly = ((tt, omega arith), tt)

both-AreOrderly : AreOrderly env reached_both
unfolding reached_both handle_connected_message handle_member join_group writer_for with_registry
    accept lookup put erase group_or_default replay_cache_to
both-AreOrderly = (joined-AreOrderly, refl)

Reach-IsWell_example : IsWell env both
Reach-IsWell_example = Reach-IsWell env "host" [] [] {host = both} reached_both both-AreOrderly

-- The guest 2 is a member with the writer at the address 0, and a publish reaches it once.
cache_and_fan_out-reaches_example :
    (cache_and_fan_out env "Pinger" no_header (9 ∷ []) none 0 joined).writers 0
    ≡ enqueue_all ((9 ∷ []) ∷ []) (joined.writers 0)
unfolding handle_connected_message handle_member join_group writer_for with_registry accept lookup
    put erase group_or_default replay_cache_to
cache_and_fan_out-reaches_example =
    cache_and_fan_out-reaches env "Pinger" no_header (9 ∷ []) none 0 joined 2 0
      (Reach-IsWell env "host" [] [] {host = joined} reached joined-AreOrderly) refl

dispatch_sub-view_example :
    let (sub', sent) = dispatch_sub env 4 all_pings ping_in in
    (contains (7 ∷ []) sub'.visible ≡ (
      if same_key (7 ∷ []) (7 ∷ [])
      then now_matches env all_pings ping_in
      else contains (7 ∷ []) []))
    × (map (λ (q : ℕ × Bytes). q.0) sent
        ≡ (if now_matches env all_pings ping_in || contains (7 ∷ []) [] then 0 ∷ [] else []))
dispatch_sub-view_example = dispatch_sub-view env 4 all_pings ping_in (7 ∷ []) refl

cached-stored_example :
    stored env "Pinger" (7 ∷ []) (cached env "Pinger" ping_in [])
    ≡ expected env "Pinger" ping_in [] "Pinger" (7 ∷ [])
cached-stored_example = cached-stored env "Pinger" "Pinger" ping_in (7 ∷ []) []

remove_guest-gone_example :
    (writer_for env 2 (remove_guest env 2 0 joined) ≡ none)
    × Every (λ name g. IsWithout 2 g) (remove_guest env 2 0 joined).groups
remove_guest-gone_example = remove_guest-gone env 2 0 joined

-- A type that has the other as a part.
abbrev session : DynamicStructDescriptor
session =
    descriptor "Session" 0 (property "ping" 1 false (DynamicFieldKind.struct pinger) Properties.end)

sort-HoldsAll_example :
    HoldsAll (session ∷ pinger ∷ []) (sort_descriptors_by_dependency (session ∷ pinger ∷ []))
sort-HoldsAll_example = sort-HoldsAll (session ∷ pinger ∷ [])

-- The part comes first.
sorted_pair : sort_descriptors_by_dependency (session ∷ pinger ∷ []) ≡ some (pinger ∷ session ∷ [])
unfolding sort_descriptors_by_dependency lookup put erase
sorted_pair = refl

abbrev connect_read : Read
connect_read =
    received
      (record { header = record no_header { type_name = some "DotsMsgConnect" }; payload = [] }) 9

-- A guest that connects without a preload is served.
connected_guest :
    (guest_run env 2 0 Phase.awaiting
      ((connect_read, 1) ∷ (received join_message 9, 2) ∷ [])
      one_guest).0
    ≡ Phase.serving
unfolding lookup accept put with_registry record_received enqueue guest_run guest_step
    accept_connect decode_handshake handle_connected_message handle_member is_overflowed
connected_guest = refl
