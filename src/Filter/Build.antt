-- ===== src/Filter/Build.antt =====
-- The builder of crates/dots-rs-model/src/filter.rs. The type parameters that tie a predicate to its
-- struct have no run-time content.
use dots_rust.Prelude.{
  ◌%◌, ◌^◌, ℕ, ◌+◌, String, Bool, true, false, Option, none, some, List, [], ◌∷◌, ◌++◌, map,
  if◌then◌else◌, unwrap_or,
}
use dots_rust.Prelude.Int.{ℤ}
use dots_rust.PropertySet.{PropertySet}
use dots_rust.Filter.Floats.{Floats}
use dots_rust.Filter.Wire.{
  DotsPredicateKind, leaf, and_op, or_op, not_op, DotsCompareOp, DotsPredicateValue, no_value,
  DotsPredicateNode, DotsPredicate, DotsFilter,
}

-- The types with an `IntoPredicateValue`, with a value of each. The integer widths widen alike.
pub data PredicateInput : Type 0 where
  signed : ℤ → PredicateInput
  unsigned : ℕ → PredicateInput
  bool : Bool → PredicateInput
  f32 f64 : ℕ → PredicateInput
  string : String → PredicateInput
  timepoint duration : ℕ → PredicateInput
  uuid : List ℕ → PredicateInput

module _ (fl : Floats) where
  unfoldable pub into_scalar : PredicateInput → DotsPredicateValue
  into_scalar (signed v) = record no_value { int_val = some v }
  into_scalar (unsigned v) = record no_value { uint_val = some v }
  into_scalar (bool v) = record no_value { bool_val = some v }
  into_scalar (f32 v) = record no_value { float_val = some (fl.to_f64 v) }
  into_scalar (f64 v) = record no_value { float_val = some v }
  into_scalar (string v) = record no_value { string_val = some v }
  into_scalar (timepoint v) = record no_value { timepoint_val = some v }
  into_scalar (duration v) = record no_value { duration_val = some v }
  into_scalar (uuid v) = record no_value { uuid_val = some v }

-- The values of `is_in` and `not_in`, by their type.
pub data PredicateItems : Type 0 where
  signed : List ℤ → PredicateItems
  unsigned : List ℕ → PredicateItems
  bool : List Bool → PredicateItems
  f32 f64 : List ℕ → PredicateItems
  string : List String → PredicateItems
  timepoint duration : List ℕ → PredicateItems
  uuid : List (List ℕ) → PredicateItems

module _ (fl : Floats) where
  unfoldable pub into_list : PredicateItems → DotsPredicateValue
  into_list (signed items) = record no_value { int_list = some items }
  into_list (unsigned items) = record no_value { uint_list = some items }
  into_list (bool items) = no_value
  into_list (f32 items) = record no_value { float_list = some (map fl.to_f64 items) }
  into_list (f64 items) = record no_value { float_list = some items }
  into_list (string items) = record no_value { string_list = some items }
  into_list (timepoint items) = record no_value { timepoint_list = some items }
  into_list (duration items) = no_value
  into_list (uuid items) = record no_value { uuid_list = some items }

pub record Predicate : Type 0 where
  pub nodes : List DotsPredicateNode

-- `Predicate::leaf`
unfoldable pub leaf_of : ℕ → DotsCompareOp → Option DotsPredicateValue → Predicate
leaf_of tag op value = record {
  nodes =
      record {
        kind = some leaf;
        leaf = some (record { property_tag = some tag; op = some op; value = value });
        arity = none;
      }
      ∷ [];
}

-- `Attr::scalar_leaf`, which `eq`, `neq`, `lt`, `le`, `gt` and `ge` call with their operator
unfoldable pub scalar_leaf : Floats → ℕ → DotsCompareOp → PredicateInput → Predicate
unfolding leaf_of into_scalar
scalar_leaf fl tag op v = leaf_of tag op (some (into_scalar fl v))

-- `Attr::list_leaf`, which `is_in` and `not_in` call with their operator
unfoldable pub list_leaf : Floats → ℕ → DotsCompareOp → PredicateItems → Predicate
unfolding leaf_of into_list
list_leaf fl tag op items = leaf_of tag op (some (into_list fl items))

unfoldable pub is_null : ℕ → Predicate
unfolding leaf_of
is_null tag = leaf_of tag DotsCompareOp.is_null none

unfoldable pub not_null : ℕ → Predicate
unfolding leaf_of
not_null tag = leaf_of tag DotsCompareOp.not_null none

first_kind : List DotsPredicateNode → DotsPredicateKind
first_kind [] = leaf
first_kind (n ∷ ns) = unwrap_or n.kind leaf

unfoldable pub root_kind : Predicate → DotsPredicateKind
unfolding first_kind
root_kind p = first_kind p.nodes

first_arity : List DotsPredicateNode → ℕ
first_arity [] = 1
first_arity (n ∷ ns) = unwrap_or n.arity 1

unfoldable pub root_arity : Predicate → ℕ
unfolding first_arity
root_arity p = first_arity p.nodes

-- `==` on `DotsPredicateKind`
abbrev pub same_kind : DotsPredicateKind → DotsPredicateKind → Bool
same_kind leaf leaf = true
same_kind and_op and_op = true
same_kind or_op or_op = true
same_kind not_op not_op = true
same_kind _ _ = false

-- `nodes.remove(0)`, which is called on a predicate that has a first node only
abbrev pub remove_first : List DotsPredicateNode → List DotsPredicateNode
remove_first [] = []
remove_first (n ∷ ns) = ns

-- The sum of the arities wraps as in a release build; a debug build panics there.
unfoldable pub combine : DotsPredicateKind → Predicate → Predicate → Predicate
unfolding root_kind root_arity
combine op lhs rhs =
    let lhs_same = same_kind (root_kind lhs) op in
    let rhs_same = same_kind (root_kind rhs) op in
    let lhs_arity = if lhs_same then root_arity lhs else 1 in
    let rhs_arity = if rhs_same then root_arity rhs else 1 in
    let head : DotsPredicateNode = record {
      kind = some op;
      leaf = none;
      arity = some ((lhs_arity + rhs_arity) % 2 ^ 32);
    } in
    let lhs_nodes = if lhs_same then remove_first lhs.nodes else lhs.nodes in
    let rhs_nodes = if rhs_same then remove_first rhs.nodes else rhs.nodes in
    record { nodes = head ∷ (lhs_nodes ++ rhs_nodes) }

unfoldable pub bitand : Predicate → Predicate → Predicate
unfolding combine
bitand lhs rhs = combine and_op lhs rhs

unfoldable pub bitor : Predicate → Predicate → Predicate
unfolding combine
bitor lhs rhs = combine or_op lhs rhs

unfoldable pub negate : Predicate → Predicate
negate p = record { nodes = record { kind = some not_op; leaf = none; arity = some 1 } ∷ p.nodes }

pub record FilterBuilder : Type 0 where
  pub pred : Option Predicate
  pub mask : Option PropertySet

unfoldable pub predicate : Predicate → FilterBuilder
predicate p = record { pred = some p; mask = none }

unfoldable pub project_only : PropertySet → FilterBuilder
project_only mask = record { pred = none; mask = some mask }

unfoldable pub project : FilterBuilder → PropertySet → FilterBuilder
project b mask = record b { mask = some mask }

abbrev into_dots_predicate : Option Predicate → Option DotsPredicate
into_dots_predicate none = none
into_dots_predicate (some p) = some (record { nodes = some p.nodes })

unfoldable pub build : FilterBuilder → DotsFilter
build b = record { predicate = into_dots_predicate b.pred; property_mask = b.mask }
