-- ===== src/Filter/Narrow.antt =====
-- Errors, categories and narrowing of crates/dots-rs-transport/src/filter.rs.
use dots_rust.Prelude.{ℕ, ◌%◌, ◌^◌, String, Bool, true, false, Option, none, some, List, map}
use dots_rust.Prelude.Int.{ℤ, wrap}
use dots_rust.Dynamic.Kind.{DynamicFieldKind}
use dots_rust.Dynamic.Value.{DynamicValue}
use dots_rust.Filter.Floats.{Floats}
use dots_rust.Filter.Wire.{DotsCompareOp, DotsPredicateValue}

pub data CompileError : Type 0 where
  malformed_leaf missing_arity truncated_tree : CompileError
  bad_not_arity bad_op_arity unknown_property_tag empty_list unsupported_property_type :
      ℕ → CompileError
  wrong_value_slot : ℕ → String → CompileError
  op_not_applicable missing_value : ℕ → DotsCompareOp → CompileError

pub data PropertyCategory : Type 0 where
  bool signed_int unsigned_int float timepoint duration string uuid : PropertyCategory

unfoldable pub from_kind : DynamicFieldKind → Option PropertyCategory
from_kind DynamicFieldKind.bool = some bool
from_kind DynamicFieldKind.i8 = some signed_int
from_kind DynamicFieldKind.i16 = some signed_int
from_kind DynamicFieldKind.i32 = some signed_int
from_kind DynamicFieldKind.i64 = some signed_int
from_kind DynamicFieldKind.u8 = some unsigned_int
from_kind DynamicFieldKind.u16 = some unsigned_int
from_kind DynamicFieldKind.u32 = some unsigned_int
from_kind DynamicFieldKind.u64 = some unsigned_int
from_kind DynamicFieldKind.f32 = some float
from_kind DynamicFieldKind.f64 = some float
from_kind DynamicFieldKind.timepoint = some timepoint
from_kind DynamicFieldKind.duration = some duration
from_kind DynamicFieldKind.string = some string
from_kind DynamicFieldKind.uuid = some uuid
from_kind DynamicFieldKind.property_set = none
from_kind (DynamicFieldKind.vec k) = none
from_kind (DynamicFieldKind.struct d) = none
from_kind (DynamicFieldKind.enum d) = none
from_kind DynamicFieldKind.any = none
from_kind DynamicFieldKind.instance_ref = none
from_kind (DynamicFieldKind.instance_ref_to n) = none

abbrev pub allows_equality : PropertyCategory → Bool
allows_equality cat = true

abbrev pub allows_ordering : PropertyCategory → Bool
allows_ordering bool = false
allows_ordering uuid = false
allows_ordering _ = true

abbrev pub scalar_slot_name : PropertyCategory → String
scalar_slot_name bool = "bool_val"
scalar_slot_name signed_int = "int_val"
scalar_slot_name unsigned_int = "uint_val"
scalar_slot_name float = "float_val"
scalar_slot_name timepoint = "timepoint_val"
scalar_slot_name duration = "duration_val"
scalar_slot_name string = "string_val"
scalar_slot_name uuid = "uuid_val"

abbrev pub list_slot_name : PropertyCategory → String
list_slot_name signed_int = "int_list"
list_slot_name unsigned_int = "uint_list"
list_slot_name float = "float_list"
list_slot_name string = "string_list"
list_slot_name timepoint = "timepoint_list"
list_slot_name uuid = "uuid_list"
list_slot_name bool = "(no bool_list)"
list_slot_name duration = "(no duration_list)"

-- `v as i8` and so on for the property's kind; `none` for a kind of another category.
abbrev pub narrow_signed : DynamicFieldKind → ℤ → Option DynamicValue
narrow_signed DynamicFieldKind.i8 v = some (DynamicValue.i8 (wrap 8 v))
narrow_signed DynamicFieldKind.i16 v = some (DynamicValue.i16 (wrap 16 v))
narrow_signed DynamicFieldKind.i32 v = some (DynamicValue.i32 (wrap 32 v))
narrow_signed DynamicFieldKind.i64 v = some (DynamicValue.i64 v)
narrow_signed _ v = none

abbrev pub narrow_unsigned : DynamicFieldKind → ℕ → Option DynamicValue
narrow_unsigned DynamicFieldKind.u8 v = some (DynamicValue.u8 (v % 2 ^ 8))
narrow_unsigned DynamicFieldKind.u16 v = some (DynamicValue.u16 (v % 2 ^ 16))
narrow_unsigned DynamicFieldKind.u32 v = some (DynamicValue.u32 (v % 2 ^ 32))
narrow_unsigned DynamicFieldKind.u64 v = some (DynamicValue.u64 v)
narrow_unsigned _ v = none

abbrev bind {ℓ κ} : {A : Type ℓ} {B : Type κ} → Option A → (A → Option B) → Option B
bind none f = none
bind (some a) f = f a

abbrev or_default {ℓ} : {A : Type ℓ} → Option A → A → A
or_default none d = d
or_default (some a) d = a

module _ (fl : Floats) where
  abbrev pub narrow_float : DynamicFieldKind → ℕ → Option DynamicValue
  narrow_float DynamicFieldKind.f32 v = some (DynamicValue.f32 (fl.to_f32 v))
  narrow_float DynamicFieldKind.f64 v = some (DynamicValue.f64 v)
  narrow_float _ v = none

  unfoldable pub narrow_scalar :
      DotsPredicateValue → DynamicFieldKind → PropertyCategory → Option DynamicValue
  narrow_scalar value kind bool = bind value.bool_val (λ v. some (DynamicValue.bool v))
  narrow_scalar value kind signed_int = bind value.int_val (narrow_signed kind)
  narrow_scalar value kind unsigned_int = bind value.uint_val (narrow_unsigned kind)
  narrow_scalar value kind float = bind value.float_val (narrow_float kind)
  narrow_scalar value kind timepoint =
      bind value.timepoint_val (λ v. some (DynamicValue.timepoint v))
  narrow_scalar value kind duration = bind value.duration_val (λ v. some (DynamicValue.duration v))
  narrow_scalar value kind string = bind value.string_val (λ v. some (DynamicValue.string v))
  narrow_scalar value kind uuid = bind value.uuid_val (λ v. some (DynamicValue.uuid v))

  -- An item of a kind outside the category keeps the widest form.
  unfoldable pub narrow_list :
      DotsPredicateValue → DynamicFieldKind → PropertyCategory → Option (List DynamicValue)
  narrow_list value kind signed_int =
      bind value.int_list
        (λ items. some (map (λ v. or_default (narrow_signed kind v) (DynamicValue.i64 v)) items))
  narrow_list value kind unsigned_int =
      bind value.uint_list
        (λ items. some (map (λ v. or_default (narrow_unsigned kind v) (DynamicValue.u64 v)) items))
  narrow_list value kind float =
      bind value.float_list
        (λ items. some (map (λ v. or_default (narrow_float kind v) (DynamicValue.f64 v)) items))
  narrow_list value kind string =
      bind value.string_list (λ items. some (map (λ v. DynamicValue.string v) items))
  narrow_list value kind timepoint =
      bind value.timepoint_list (λ items. some (map (λ v. DynamicValue.timepoint v) items))
  narrow_list value kind uuid =
      bind value.uuid_list (λ items. some (map (λ v. DynamicValue.uuid v) items))
  narrow_list value kind bool = none
  narrow_list value kind duration = none
