-- ===== src/Filter/Compile.antt =====
-- `CompiledPredicate::compile` of crates/dots-rs-transport/src/filter.rs. The cursor into the node
-- vector is the list of the nodes that it has not reached; the recursion takes fuel, and the number of
-- nodes is enough (`Filter.Tree.Sound`).
use dots_rust.Prelude.{
  ℕ, zero, suc, Bool, true, false, not, Option, none, some, List, [], ◌∷◌, ◌++◌, ◌==◌, length,
  unwrap_or,
}
use dots_rust.Dynamic.Kind.{DynamicStructDescriptor, DynamicPropertyDescriptor, property_at}
use dots_rust.Dynamic.Value.{DynamicValue}
use dots_rust.Filter.Floats.{Floats}
use dots_rust.Filter.Wire.{
  DotsPredicateKind, leaf, and_op, or_op, not_op, DotsCompareOp, eq, neq, lt, le, gt, ge, is_in,
  not_in, is_null, not_null, DotsPredicateValue, DotsPredicateLeaf, DotsPredicateNode,
  DotsPredicate,
}
use dots_rust.Filter.Narrow.{
  CompileError, malformed_leaf, missing_arity, bad_not_arity, bad_op_arity, truncated_tree,
  unknown_property_tag, wrong_value_slot, op_not_applicable, missing_value, empty_list,
  unsupported_property_type, PropertyCategory, from_kind, allows_equality, allows_ordering,
  scalar_slot_name, list_slot_name, narrow_scalar, narrow_list,
}

-- `exhausted` is no Rust value: the fuel of the model ran out.
pub data Outcome {ℓ} (A : Type ℓ) : Type ℓ where
  ok : A → Outcome A
  err : CompileError → Outcome A
  exhausted : Outcome A

infixl 5 ◌>>=◌ ◌>>◌
abbrev pub ◌>>=◌ {ℓ κ} : {A : Type ℓ} {B : Type κ} → Outcome A → (A → Outcome B) → Outcome B
ok a >>= f = f a
err e >>= f = err e
exhausted >>= f = exhausted

abbrev pub ◌>>◌ {ℓ} : {B : Type ℓ} → Outcome (Unit {0}) → Outcome B → Outcome B
m >> k = m >>= λ _. k

abbrev pub guard : Bool → CompileError → Outcome (Unit {0})
guard true e = ok tt
guard false e = err e

-- `ok_or`
abbrev pub ok_or {ℓ} : {A : Type ℓ} → Option A → CompileError → Outcome A
ok_or none e = err e
ok_or (some a) e = ok a

pub data CompiledRhs : Type 0 where
  no_rhs : CompiledRhs
  scalar : DynamicValue → CompiledRhs
  list : List DynamicValue → CompiledRhs

-- The fields of `CompiledNode::Leaf`.
pub record CompiledLeaf : Type 0 where
  pub tag : ℕ
  pub op : DotsCompareOp
  pub rhs : CompiledRhs

pub data CompiledNode : Type 0 where
  leaf_node : CompiledLeaf → CompiledNode
  and_node or_node : ℕ → CompiledNode
  not_node : CompiledNode

pub record CompiledPredicate : Type 0 where
  pub nodes : List CompiledNode

abbrev pub is_empty_list {ℓ} : {A : Type ℓ} → List A → Bool
is_empty_list [] = true
is_empty_list (x ∷ xs) = false

module _ (fl : Floats) where
  unfoldable pub scalar_rhs :
      ℕ
      → DotsCompareOp
      → Option DotsPredicateValue
      → DynamicPropertyDescriptor
      → PropertyCategory
      → Outcome CompiledRhs
  scalar_rhs tag op value prop cat = do
    v ← ok_or value (missing_value tag op)
    narrowed ←
        ok_or (narrow_scalar fl v prop.kind cat) (wrong_value_slot tag (scalar_slot_name cat))
    ok (scalar narrowed)

  unfoldable pub list_rhs :
      ℕ
      → DotsCompareOp
      → Option DotsPredicateValue
      → DynamicPropertyDescriptor
      → PropertyCategory
      → Outcome CompiledRhs
  list_rhs tag op value prop cat = do
    v ← ok_or value (missing_value tag op)
    items ← ok_or (narrow_list fl v prop.kind cat) (wrong_value_slot tag (list_slot_name cat))
    guard (not (is_empty_list items)) (empty_list tag)
    ok (list items)

  unfoldable pub equality_rhs :
      ℕ
      → DotsCompareOp
      → Option DotsPredicateValue
      → DynamicPropertyDescriptor
      → PropertyCategory
      → Outcome CompiledRhs
  unfolding scalar_rhs
  equality_rhs tag op value prop cat = do
    guard (allows_equality cat) (op_not_applicable tag op)
    scalar_rhs tag op value prop cat

  unfoldable pub ordering_rhs :
      ℕ
      → DotsCompareOp
      → Option DotsPredicateValue
      → DynamicPropertyDescriptor
      → PropertyCategory
      → Outcome CompiledRhs
  unfolding scalar_rhs
  ordering_rhs tag op value prop cat = do
    guard (allows_ordering cat) (op_not_applicable tag op)
    scalar_rhs tag op value prop cat

  unfoldable pub membership_rhs :
      ℕ
      → DotsCompareOp
      → Option DotsPredicateValue
      → DynamicPropertyDescriptor
      → PropertyCategory
      → Outcome CompiledRhs
  unfolding list_rhs
  membership_rhs tag op value prop cat = do
    guard (allows_equality cat) (op_not_applicable tag op)
    list_rhs tag op value prop cat

  -- The `match op` of `compile_leaf`.
  unfoldable pub compile_rhs :
      ℕ
      → DotsCompareOp
      → Option DotsPredicateValue
      → DynamicPropertyDescriptor
      → PropertyCategory
      → Outcome CompiledRhs
  unfolding scalar_rhs list_rhs equality_rhs ordering_rhs membership_rhs
  compile_rhs tag is_null value prop cat = ok no_rhs
  compile_rhs tag not_null value prop cat = ok no_rhs
  compile_rhs tag is_in value prop cat = membership_rhs tag is_in value prop cat
  compile_rhs tag not_in value prop cat = membership_rhs tag not_in value prop cat
  compile_rhs tag eq value prop cat = equality_rhs tag eq value prop cat
  compile_rhs tag neq value prop cat = equality_rhs tag neq value prop cat
  compile_rhs tag lt value prop cat = ordering_rhs tag lt value prop cat
  compile_rhs tag le value prop cat = ordering_rhs tag le value prop cat
  compile_rhs tag gt value prop cat = ordering_rhs tag gt value prop cat
  compile_rhs tag ge value prop cat = ordering_rhs tag ge value prop cat

  unfoldable pub compile_leaf : DotsPredicateLeaf → DynamicStructDescriptor → Outcome CompiledLeaf
  unfolding compile_rhs
  compile_leaf l target = do
    tag ← ok_or l.property_tag malformed_leaf
    op ← ok_or l.op malformed_leaf
    prop ← ok_or (property_at target tag) (unknown_property_tag tag)
    cat ← ok_or (from_kind prop.kind) (unsupported_property_type tag)
    rhs ← compile_rhs tag op l.value prop cat
    ok (record { tag = tag; op = op; rhs = rhs })

-- The nodes that the cursor has not reached, and the nodes compiled so far.
abbrev pub Progress : Type 0
Progress = List DotsPredicateNode × List CompiledNode

-- `for _ in 0..arity { f(...)?; }`
unfoldable pub repeat {ℓ} : {A : Type ℓ} → ℕ → (A → Outcome A) → A → Outcome A
repeat zero f s = ok s
repeat (suc n) f s = f s >>= repeat n f

-- The root's subtree must be all there is.
abbrev pub whole : Progress → Outcome CompiledPredicate
whole ([], out) = ok (record { nodes = out })
whole (node ∷ src, out) = err truncated_tree

module _ (fl : Floats) (descriptor : DynamicStructDescriptor) where
  -- The `match kind` of `compile_subtree`; `children` is the recursive call.
  unfoldable pub compile_node :
      (Progress → Outcome Progress)
      → DotsPredicateKind
      → DotsPredicateNode
      → Progress
      → Outcome Progress
  unfolding repeat
  compile_node children leaf node (src, out) = do
    l ← ok_or node.leaf malformed_leaf
    c ← compile_leaf fl l descriptor
    ok (src, out ++ leaf_node c ∷ [])
  compile_node children and_op node (src, out) = do
    arity ← ok_or node.arity missing_arity
    guard (not (arity == 0)) (bad_op_arity arity)
    repeat arity children (src, out ++ and_node arity ∷ [])
  compile_node children or_op node (src, out) = do
    arity ← ok_or node.arity missing_arity
    guard (not (arity == 0)) (bad_op_arity arity)
    repeat arity children (src, out ++ or_node arity ∷ [])
  compile_node children not_op node (src, out) = do
    guard (unwrap_or node.arity 1 == 1) (bad_not_arity (unwrap_or node.arity 1))
    children (src, out ++ not_node ∷ [])

  unfoldable pub compile_subtree : ℕ → Progress → Outcome Progress
  compile_subtree fuel ([], out) = err truncated_tree
  compile_subtree zero (node ∷ src, out) = exhausted
  compile_subtree (suc fuel) (node ∷ src, out) = do
    kind ← ok_or node.kind malformed_leaf
    compile_node (compile_subtree fuel) kind node (src, out)

  unfoldable pub compile_nodes : List DotsPredicateNode → Outcome CompiledPredicate
  compile_nodes [] = ok (record { nodes = [] })
  compile_nodes (node ∷ src) = compile_subtree (suc (length src)) (node ∷ src, []) >>= whole

  unfoldable pub compile : DotsPredicate → Outcome CompiledPredicate
  unfolding compile_nodes
  compile p = elim p.nodes [ none ↦ ok (record { nodes = [] }) | some nodes ↦ compile_nodes nodes ]
