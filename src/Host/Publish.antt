-- ===== src/Host/Publish.antt =====
-- `cache_and_fan_out` of crates/dots-rs-transport/src/host.rs. The maps of subscribers are walked in
-- the order of the lists, where the order of a hash map is open.
use dots_rust.Prelude.{
  ℕ, String, Bool, true, false, not, ◌&&◌, Option, none, some, List, [], ◌∷◌, ◌++◌, ◌==◌,
  if◌then◌else◌, unwrap_or, is_some,
}
use dots_rust.Prelude.Assoc.{lookup, erase, put, string_key}
use dots_rust.PropertySet.{PropertySet, union, intersection}
use dots_rust.Dynamic.Flags.{is_cached}
use dots_rust.Filter.Compile.{CompiledPredicate}
use dots_rust.Filter.Eval.{matches}
use dots_rust.Container.Map.{Bytes, find, insert, remove}
use dots_rust.Container.{Payload, typed, wire, DotsHeader, is_removal, key_bytes, valid_set}
use dots_rust.Host.Writer.{GuestWriter, enqueue, is_empty}
use dots_rust.Host.Types.{
  Env, Host, Group, FilteredSub, CachedEntry, Pool, payload_flags, key_set, payload_copy_take,
}

-- A frame goes to the writer at an address.
unfoldable pub enqueue_at : ℕ → Bytes → (ℕ → GuestWriter) → ℕ → GuestWriter
enqueue_at a frame writers b = if a == b then enqueue frame (writers b) else writers b

unfoldable pub deliver : List (ℕ × Bytes) → (ℕ → GuestWriter) → ℕ → GuestWriter
unfolding enqueue_at
deliver [] writers = writers
deliver ((a, frame) ∷ out) writers = deliver out (enqueue_at a frame writers)

-- The unfiltered pass: the frame, to each member that is not excluded.
unfoldable pub unfiltered_outbound : ℕ → Bytes → List (ℕ × ℕ) → List (ℕ × Bytes)
unfiltered_outbound exclude frame [] = []
unfiltered_outbound exclude frame ((client_id, writer) ∷ subs) =
    let rest = unfiltered_outbound exclude frame subs in
    if client_id == exclude then rest else (writer, frame) ∷ rest

unfoldable pub contains : Bytes → List (Bytes × Unit {0}) → Bool
contains key visible = is_some (find key visible)

module _ (env : Env) where
  -- A typed payload matches no filter; a compiled predicate does not panic (`Filter.Tree.Sound`).
  unfoldable pub matches_payload : CompiledPredicate → Payload env.values → Bool
  unfolding matches
  matches_payload compiled (typed a) = false
  matches_payload compiled (wire d) = unwrap_or (matches env.floats compiled d) false

  -- What a publish shows of itself to the filtered subscriptions.
  pub record Incoming : Type 0 where
    pub header : DotsHeader
    pub payload : Payload env.values
    pub is_cached : Bool
    pub keys : PropertySet
    pub key : Bytes

  abbrev pub effective : FilteredSub → Incoming → PropertySet
  effective sub p =
      let shown = valid_set env.values p.payload in
      intersection (union (unwrap_or sub.filter.property_mask shown) p.keys)
        (unwrap_or p.header.attributes shown)

  -- The subscription enters or stays in the view, leaves it, or sees nothing of the event.
  abbrev pub four_cases : ℕ → FilteredSub → Incoming → Bool → Bool → FilteredSub × List (ℕ × Bytes)
  four_cases sub_id sub p true was_visible = (
    (if p.is_cached && not was_visible
        then record sub { visible = insert p.key tt sub.visible }
        else sub),
    (
      sub.writer,
      env.encode_masked
          (record (p.header) { attributes = some (effective sub p); subscription_id = some sub_id })
          p.payload (effective sub p),
    )
        ∷ [],
  )
  four_cases sub_id sub p false true = (
    record sub { visible = remove p.key sub.visible },
    (
      sub.writer,
      env.encode_masked
          (record (p.header) {
            attributes = some p.keys;
            remove_obj = some true;
            subscription_id = some sub_id;
          })
          p.payload p.keys,
    )
        ∷ [],
  )
  four_cases sub_id sub p false false = (sub, [])

  unfoldable pub was_visible : FilteredSub → Incoming → Bool
  unfolding contains
  was_visible sub p = p.is_cached && contains p.key sub.visible

  unfoldable pub now_matches : FilteredSub → Incoming → Bool
  unfolding matches_payload
  now_matches sub p = not (is_removal p.header) && matches_payload sub.compiled p.payload

  unfoldable pub dispatch_sub : ℕ → FilteredSub → Incoming → FilteredSub × List (ℕ × Bytes)
  unfolding was_visible now_matches
  dispatch_sub sub_id sub p = four_cases sub_id sub p (now_matches sub p) (was_visible sub p)

  -- The filtered pass over the subscriptions of a group.
  unfoldable pub filtered_pass :
      ℕ → Incoming → List ((ℕ × ℕ) × FilteredSub) → List ((ℕ × ℕ) × FilteredSub) × List (ℕ × Bytes)
  unfolding dispatch_sub
  filtered_pass exclude p [] = ([], [])
  filtered_pass exclude p (((client_id, sub_id), sub) ∷ subs) =
      let (others, out) = filtered_pass exclude p subs in
      if client_id == exclude
      then (((client_id, sub_id), sub) ∷ others, out)
      else let (sub', sent) = dispatch_sub sub_id sub p in
        (((client_id, sub_id), sub') ∷ others, sent ++ out)

  -- `Entry::Occupied` and `Entry::Vacant`
  unfoldable pub pooled_entry :
      DotsHeader → Payload env.values → Option (CachedEntry env) → CachedEntry env
  unfolding payload_copy_take valid_set
  pooled_entry header p (some e) =
      let mask = unwrap_or header.attributes (valid_set env.values p) in
      let merged = payload_copy_take env e.payload p mask in
      record e {
        payload = merged;
        last_update_sender = header.sender;
        last_update_time = header.sent_time;
        attributes = valid_set env.values merged;
      }
  pooled_entry header p none = record {
    payload = p;
    created_from = header.sender;
    last_update_sender = header.sender;
    last_update_time = header.sent_time;
    attributes = valid_set env.values p;
  }

  abbrev pub put_map : String → List (Bytes × CachedEntry env) → Pool env → Pool env
  put_map name m pool = if is_empty m then erase name pool else put name m pool

  abbrev pub remove_from :
      String → Bytes → Option (List (Bytes × CachedEntry env)) → Pool env → Pool env
  remove_from name key none pool = pool
  remove_from name key (some m) pool = put_map name (remove key m) pool

  -- The change of the pool by a payload of a cached type.
  unfoldable pub cached : String → Incoming → Pool env → Pool env
  unfolding pooled_entry
  cached name p pool =
      if is_removal p.header
      then remove_from name p.key (lookup name pool) pool
      else let m = unwrap_or (lookup name pool) [] in
        put name (insert p.key (pooled_entry p.header p.payload (find p.key m)) m) pool

  unfoldable pub incoming : DotsHeader → Payload env.values → Incoming
  unfolding payload_flags key_set key_bytes
  incoming header p = record {
    header = header;
    payload = p;
    is_cached = is_cached (payload_flags env p);
    keys = key_set env p;
    key = key_bytes env.values p;
  }

  -- The members of a group get the frame; without the group there is nothing to do.
  abbrev pub members : Option Group → List (ℕ × ℕ)
  members none = []
  members (some g) = g.unfiltered_subs

  -- The group behind the filtered pass, and what goes out of it.
  abbrev pub filtered_groups :
      String
      → ℕ
      → Incoming
      → Option Group
      → List (String × Group)
      → List (String × Group) × List (ℕ × Bytes)
  filtered_groups name exclude p none groups = (groups, [])
  filtered_groups name exclude p (some g) groups =
      if is_empty g.filtered_subs
      then (groups, [])
      else let (subs, out) = filtered_pass exclude p g.filtered_subs in
        (put name (record g { filtered_subs = subs }) groups, out)

  unfoldable pub cache_and_fan_out :
      String → DotsHeader → Bytes → Option (Payload env.values) → ℕ → Host env → Host env
  unfolding deliver unfiltered_outbound
  cache_and_fan_out name header frame none exclude host = record host {
    writers =
        deliver (unfiltered_outbound exclude frame (members (lookup name host.groups)))
          host.writers;
  }
  cache_and_fan_out name header frame (some payload) exclude host =
      let p = incoming header payload in
      let group = lookup name host.groups in
      let (groups, filtered) = filtered_groups name exclude p group host.groups in
      record host {
        groups = groups;
        pool = if p.is_cached then cached name p host.pool else host.pool;
        writers =
            deliver (unfiltered_outbound exclude frame (members group) ++ filtered) host.writers;
      }

  -- `fan_out_bytes`
  unfoldable pub fan_out_bytes : String → Bytes → ℕ → Host env → Host env
  unfolding deliver unfiltered_outbound
  fan_out_bytes name frame exclude host = record host {
    writers =
        deliver (unfiltered_outbound exclude frame (members (lookup name host.groups)))
          host.writers;
  }
