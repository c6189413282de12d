-- ===== src/Filter/Wire.antt =====
-- The wire types of crates/dots-rs-model/src/filter.rs. A `u32` is a number, an `i64` a `ℤ`, an `f64`
-- its bit pattern, as in `Dynamic.Value`.
use dots_rust.Prelude.{ℕ, String, Bool, Option, none, List}
use dots_rust.Prelude.Int.{ℤ}
use dots_rust.PropertySet.{PropertySet}

pub data DotsPredicateKind : Type 0 where
  leaf and_op or_op not_op : DotsPredicateKind

pub data DotsCompareOp : Type 0 where
  eq neq lt le gt ge is_in not_in is_null not_null : DotsCompareOp

pub record DotsPredicateValue : Type 0 where
  pub bool_val : Option Bool
  pub int_val : Option ℤ
  pub uint_val : Option ℕ
  pub float_val : Option ℕ
  pub string_val : Option String
  pub timepoint_val : Option ℕ
  pub duration_val : Option ℕ
  pub uuid_val : Option (List ℕ)
  pub int_list : Option (List ℤ)
  pub uint_list : Option (List ℕ)
  pub float_list : Option (List ℕ)
  pub string_list : Option (List String)
  pub timepoint_list : Option (List ℕ)
  pub uuid_list : Option (List (List ℕ))

-- `Default::default()`
abbrev pub no_value : DotsPredicateValue
no_value = record {
  bool_val = none;
  int_val = none;
  uint_val = none;
  float_val = none;
  string_val = none;
  timepoint_val = none;
  duration_val = none;
  uuid_val = none;
  int_list = none;
  uint_list = none;
  float_list = none;
  string_list = none;
  timepoint_list = none;
  uuid_list = none;
}

pub record DotsPredicateLeaf : Type 0 where
  pub property_tag : Option ℕ
  pub op : Option DotsCompareOp
  pub value : Option DotsPredicateValue

pub record DotsPredicateNode : Type 0 where
  pub kind : Option DotsPredicateKind
  pub leaf : Option DotsPredicateLeaf
  pub arity : Option ℕ

pub record DotsPredicate : Type 0 where
  pub nodes : Option (List DotsPredicateNode)

pub record DotsFilter : Type 0 where
  pub predicate : Option DotsPredicate
  pub property_mask : Option PropertySet
