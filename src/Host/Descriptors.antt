-- ===== src/Host/Descriptors.antt =====
-- The answer to a `DotsDescriptorRequest` of crates/dots-rs-transport/src/host.rs: the descriptors that
-- were asked for, those that others are built from first. `none` is a search that ran out of fuel.
use dots_rust.Prelude.{
  ℕ, zero, suc, String, Bool, true, false, not, ◌&&◌, ◌||◌, Option, none, some, List, [], ◌∷◌, ◌++◌,
  if◌then◌else◌, str_eq, length, unwrap_or,
}
use dots_rust.Prelude.Assoc.{lookup, put, string_key}
use dots_rust.Dynamic.Flags.{is_internal}
use dots_rust.Dynamic.Kind.{
  DynamicFieldKind, vec, struct, DynamicStructDescriptor, DynamicPropertyDescriptor, name_of,
  flags_of, properties_of,
}
use dots_rust.Container.Map.{Bytes}
use dots_rust.Host.Writer.{is_empty}
use dots_rust.Host.Types
use dots_rust.Host.Types.{Env, Host, DescriptorEntry, DotsDescriptorRequest, host_id}
use dots_rust.Host.Groups.{writer_for}
use dots_rust.Host.Publish.{enqueue_at}
use dots_rust.Host.Replay.{no_header, no_cache_info}
pub mod Ends
pub mod Sorted

-- The names that were visited, and the descriptors that are out.
abbrev pub Progress : Type 0
Progress = List String × List DynamicStructDescriptor

unfoldable pub is_among : String → List String → Bool
is_among name [] = false
is_among name (n ∷ ns) = str_eq n name || is_among name ns

abbrev pub Names : Type 0
Names = List (String × DynamicStructDescriptor)

-- `visit` is the recursive call of `visit_descriptor`.
unfoldable pub walk_field :
    (DynamicStructDescriptor → Progress → Option Progress)
    → Names
    → DynamicFieldKind
    → Progress
    → Option Progress
walk_field visit by_name (vec inner) p = walk_field visit by_name inner p
walk_field visit by_name (struct child) p = elim (lookup (name_of child) by_name) [
  | none ↦ some p
  | some node ↦ visit node p
]
walk_field visit by_name other p = some p

unfoldable pub walk_fields :
    (DynamicStructDescriptor → Progress → Option Progress)
    → Names
    → List DynamicPropertyDescriptor
    → Progress
    → Option Progress
unfolding walk_field
walk_fields visit by_name [] p = some p
walk_fields visit by_name (field ∷ fields) p = elim (walk_field visit by_name field.kind p) [
  | none ↦ none
  | some p' ↦ walk_fields visit by_name fields p'
]

abbrev pub pushed : DynamicStructDescriptor → Option Progress → Option Progress
pushed node none = none
pushed node (some (visited, out)) = some (visited, out ++ node ∷ [])

-- The fuel bounds the depth: each level visits a name that was not visited.
unfoldable pub visit_descriptor : ℕ → Names → DynamicStructDescriptor → Progress → Option Progress
unfolding is_among walk_fields
visit_descriptor zero by_name node (visited, out) =
    if is_among (name_of node) visited then some (visited, out) else none
visit_descriptor (suc fuel) by_name node (visited, out) =
    let found = pushed node (
      walk_fields (visit_descriptor fuel by_name) by_name (properties_of node)
        (name_of node ∷ visited, out)) in
    if is_among (name_of node) visited then some (visited, out) else found

unfoldable pub visit_all : ℕ → Names → List DynamicStructDescriptor → Progress → Option Progress
unfolding visit_descriptor
visit_all fuel by_name [] p = some p
visit_all fuel by_name (d ∷ ds) p = elim (visit_descriptor fuel by_name d p) [
  | none ↦ none
  | some p' ↦ visit_all fuel by_name ds p'
]

unfoldable pub collect_names : List DynamicStructDescriptor → Names → Names
collect_names [] names = names
collect_names (d ∷ ds) names = collect_names ds (put (name_of d) d names)

abbrev pub result : Option Progress → Option (List DynamicStructDescriptor)
result none = none
result (some (visited, out)) = some out

unfoldable pub sort_descriptors_by_dependency :
    List DynamicStructDescriptor → Option (List DynamicStructDescriptor)
unfolding visit_all collect_names
sort_descriptors_by_dependency ds = result (visit_all (length ds) (collect_names ds []) ds ([], []))

-- The struct descriptors of the registry, and the tests of `handle_descriptor_request`.
unfoldable pub iter_structs : List (String × DescriptorEntry) → List DynamicStructDescriptor
iter_structs [] = []
iter_structs ((name, Types.struct d) ∷ rest) = d ∷ iter_structs rest
iter_structs ((name, Types.enum d) ∷ rest) = iter_structs rest

unfoldable pub is_asked_for : DotsDescriptorRequest → DynamicStructDescriptor → Bool
unfolding is_among
is_asked_for req d =
    let whitelist = unwrap_or req.whitelist [] in
    not (is_internal (flags_of d))
    && ((is_empty whitelist || is_among (name_of d) whitelist)
        && not (is_among (name_of d) (unwrap_or req.blacklist [])))

unfoldable pub asked_for :
    DotsDescriptorRequest → List DynamicStructDescriptor → List DynamicStructDescriptor
unfolding is_asked_for
asked_for req [] = []
asked_for req (d ∷ ds) =
    let rest = asked_for req ds in if is_asked_for req d then d ∷ rest else rest

module _ (env : Env) where
  unfoldable pub encode_descriptors : ℕ → List DynamicStructDescriptor → Bytes
  encode_descriptors now [] = []
  encode_descriptors now (d ∷ ds) =
      env.encode_descriptor
        (record no_header {
          type_name = some "StructDescriptorData";
          attributes = some (env.descriptor_valid d);
          sender = some host_id;
          sent_time = some now;
          server_sent_time = some now;
        })
        d
      ++ encode_descriptors now ds

  unfoldable pub end_of_request : ℕ → Bytes
  end_of_request now =
      let info = record no_cache_info { end_descriptor_request = some true } in
      env.encode_cache_info
        (record no_header {
          type_name = some "DotsCacheInfo";
          attributes = some (env.cache_info_valid info);
          sender = some host_id;
          sent_time = some now;
          server_sent_time = some now;
        })
        info

  -- The sorted descriptors; the search has fuel enough, so `none` does not occur.
  unfoldable pub descriptors_for : DotsDescriptorRequest → Host env → List DynamicStructDescriptor
  unfolding iter_structs asked_for sort_descriptors_by_dependency
  descriptors_for req host =
      unwrap_or (sort_descriptors_by_dependency (asked_for req (iter_structs host.entries))) []

  unfoldable pub handle_descriptor_request : ℕ → Bytes → ℕ → Host env → Host env
  unfolding descriptors_for encode_descriptors end_of_request writer_for enqueue_at
  handle_descriptor_request client_id payload now host = elim (env.decode_request payload) [
    | none ↦ host
    | some req ↦ elim (writer_for env client_id host) [
      | none ↦ host
      | some writer ↦
          let frames = encode_descriptors now (descriptors_for req host) ++ end_of_request now in
          record host { writers = enqueue_at writer frames host.writers }
    ]
  ]
