-- ===== src/Dynamic/Copy/Assign.antt =====
-- `assign_from` and `assign_take` of crates/dots-rs-core/src/dynamic.rs.
use dots_rust.Prelude.{ℕ, Bool, ◌&&◌, Option, none, some, if◌then◌else◌}
use dots_rust.PropertySet
use dots_rust.PropertySet.{PropertySet}
use dots_rust.Dynamic.Kind.{DynamicStructDescriptor}
use dots_rust.Dynamic.Value.{DynamicValue, DynamicStruct, get}
use dots_rust.Dynamic.Copy.{take_tag, move_out, copy_impl}

-- The closure of `assign_from`; the source stays as it is, and so does `effective`.
unfoldable pub assign_clone : PropertySet → DynamicStruct → ℕ → Option DynamicValue × DynamicStruct
assign_clone mask src tag = (
  if PropertySet.has (PropertySet.intersection mask src.valid) tag then get src tag else none,
  src,
)

-- `Arc::ptr_eq` is `ptr_eq`; the panic of `assert_shared_descriptor` is `none`.
module _ (ptr_eq : DynamicStructDescriptor → DynamicStructDescriptor → Bool) where
  unfoldable pub assert_shared_descriptor :
      {A : Type 0} → DynamicStruct → DynamicStruct → A → Option A
  assert_shared_descriptor self other result =
      if ptr_eq self.descriptor other.descriptor then some result else none

  unfoldable pub assign_from : DynamicStruct → DynamicStruct → PropertySet → Option DynamicStruct
  unfolding assert_shared_descriptor
  assign_from self src mask =
      assert_shared_descriptor self src (copy_impl self PropertySet.all (assign_clone mask) src).0

-- The closure of `assign_take`.
unfoldable pub assign_move : PropertySet → DynamicStruct → ℕ → Option DynamicValue × DynamicStruct
assign_move mask src tag =
    if PropertySet.has mask tag && PropertySet.has src.valid tag
    then move_out tag (take_tag tag src.properties)
        (record src { valid = PropertySet.without_tag src.valid tag })
    else (none, src)

-- The new `self`, and what is left of the source.
unfoldable pub assign_take :
    (DynamicStructDescriptor → DynamicStructDescriptor → Bool)
    → DynamicStruct
    → DynamicStruct
    → PropertySet
    → Option (DynamicStruct × DynamicStruct)
unfolding assert_shared_descriptor
assign_take ptr_eq self src mask =
    assert_shared_descriptor ptr_eq self src (copy_impl self PropertySet.all (assign_move mask) src)
