-- ===== src/Dynamic/Copy/Examples.antt =====
-- The theorems on masked copies at concrete values, and runs.
use dots_rust.Prelude.{
  ℕ, Bool, some, none, if◌then◌else◌, ◌≡◌, refl, ◌||◌, true, false, [], ◌∷◌, arith, ◌==◌,
}
use dots_rust.Prelude.Assoc.{map_option}
use dots_rust.PropertySet
use dots_rust.PropertySet.Tags.{has-empty, has-with_tag}
use dots_rust.Dynamic.Kind.{
  DynamicFieldKind, DynamicStructDescriptor, descriptor, Properties, property, properties_of,
}
use dots_rust.Dynamic.Value.{DynamicValue, DynamicStruct, lookup, get}
use dots_rust.Dynamic.Copy.{
  split_last, swap_head, take_tag, push, take_step, keep_step, copy_step, copy_loop, copy_impl,
  clone_from, copy_from, copy_take,
}
use dots_rust.Dynamic.Copy.Laws.{AreTagged}
use dots_rust.Dynamic.Copy.Overlay.{
  IsConsistent, overlay, copy_from-overlay, copy_take-eq-copy_from,
}
use dots_rust.Dynamic.Copy.Assign.{assign_clone, assert_shared_descriptor, assign_from, assign_take}
use dots_rust.Dynamic.Copy.Assigned.{assignment, assign_from-assignment}

-- A type with the key 1 and the properties 2 and 3.
abbrev pinger : DynamicStructDescriptor
pinger = descriptor "Pinger" 1 (
    property "id" 1 true DynamicFieldKind.u32 (
      property "seq" 2 false DynamicFieldKind.u64
        (property "note" 3 false DynamicFieldKind.string Properties.end)))

abbrev stored_ping : DynamicStruct
stored_ping = record {
  descriptor = pinger;
  valid = 14;
  properties =
      (1, DynamicValue.u32 7) ∷ (2, DynamicValue.u64 1) ∷ (3, DynamicValue.string "old") ∷ [];
}

abbrev update : DynamicStruct
update = record {
  descriptor = pinger;
  valid = 6;
  properties = (1, DynamicValue.u32 7) ∷ (2, DynamicValue.u64 2) ∷ [];
}

-- The update sets `seq` and clears `note`.
updated :
    (copy_from stored_ping update 14).properties
    ≡ (1, DynamicValue.u32 7) ∷ (2, DynamicValue.u64 2) ∷ []
unfolding copy_from copy_impl copy_loop copy_step keep_step take_step push clone_from take_tag
    swap_head split_last lookup PropertySet.has PropertySet.with_tag
updated = refl

-- One descriptor is in use.
abbrev all_shared : DynamicStructDescriptor → DynamicStructDescriptor → Bool
all_shared a b = true

-- Only `note` is in the mask: it is cleared, since the update has none, and so is `seq`.
assigned :
    map_option (λ (d : DynamicStruct). d.properties) (assign_from all_shared stored_ping update 8)
    ≡ some ((1, DynamicValue.u32 7) ∷ [])
unfolding assign_from assert_shared_descriptor copy_impl copy_loop copy_step keep_step take_step
    push assign_clone take_tag swap_head split_last lookup PropertySet.has PropertySet.with_tag
    PropertySet.intersection
assigned = refl

has_three :
    (t : ℕ)
    → PropertySet.has (PropertySet.with_tag (PropertySet.with_tag (PropertySet.with_tag 0 1) 2) 3) t
      ≡ ((3 == t) || ((2 == t) || ((1 == t) || false)))
has_three t = rw (
  has-with_tag (PropertySet.with_tag (PropertySet.with_tag 0 1) 2) 3 t (omega arith),
  has-with_tag (PropertySet.with_tag 0 1) 2 t (omega arith),
  has-with_tag 0 1 t (omega arith),
  has-empty t,
)

has_14 : (t : ℕ) → PropertySet.has 14 t ≡ ((3 == t) || ((2 == t) || ((1 == t) || false)))
unfolding PropertySet.with_tag
has_14 t = has_three t

has_two :
    (t : ℕ)
    → PropertySet.has (PropertySet.with_tag (PropertySet.with_tag 0 1) 2) t
      ≡ ((2 == t) || ((1 == t) || false))
has_two t = rw (
  has-with_tag (PropertySet.with_tag 0 1) 2 t (omega arith),
  has-with_tag 0 1 t (omega arith),
  has-empty t,
)

has_6 : (t : ℕ) → PropertySet.has 6 t ≡ ((2 == t) || ((1 == t) || false))
unfolding PropertySet.with_tag
has_6 t = has_two t

stored_ping-IsConsistent : IsConsistent stored_ping
unfolding lookup
stored_ping-IsConsistent = record {
  distinct = (refl, (refl, (refl, tt)));
  marked = λ t. ground (arith, has_14 t);
}

update-IsConsistent : IsConsistent update
unfolding lookup
update-IsConsistent = record {
  distinct = (refl, (refl, tt));
  marked = λ t. ground (arith, has_6 t);
}

pinger-AreTagged : AreTagged (properties_of pinger)
pinger-AreTagged =
    (omega arith, (refl, (refl, tt)), (omega arith, (refl, tt), (omega arith, tt, tt)))

copy_from-overlay_example :
    IsConsistent (copy_from stored_ping update 14)
    × ((t : ℕ) → get (copy_from stored_ping update 14) t ≡ overlay stored_ping update 14 t)
copy_from-overlay_example =
    copy_from-overlay stored_ping update 14 pinger-AreTagged stored_ping-IsConsistent
      update-IsConsistent

copy_take-eq-copy_from_example :
    (copy_take stored_ping update 14).0 ≡ copy_from stored_ping update 14
copy_take-eq-copy_from_example =
    copy_take-eq-copy_from stored_ping update 14 pinger-AreTagged stored_ping-IsConsistent
      update-IsConsistent

assign_from-assignment_example :
    (made : DynamicStruct) × (assign_from all_shared stored_ping update 14
      ≡ (if all_shared pinger pinger then some made else none))
    × IsConsistent made
    × ((t : ℕ) → get made t ≡ assignment stored_ping update 14 t)
    × (map_option
          (λ (r : DynamicStruct × DynamicStruct). r.0)
          (assign_take all_shared stored_ping update 14)
        ≡ assign_from all_shared stored_ping update 14)
assign_from-assignment_example =
    assign_from-assignment all_shared stored_ping update 14 pinger-AreTagged
      stored_ping-IsConsistent update-IsConsistent
