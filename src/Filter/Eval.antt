-- ===== src/Filter/Eval.antt =====
-- The evaluator of crates/dots-rs-transport/src/filter.rs. `none` is a panic: an index behind the last
-- node, or fuel that ran out; `Filter.Tree.Sound` shows that a compiled predicate meets neither.
use Prim.Native.Char.{code}
use dots_rust.Prelude.{
  ℕ, zero, suc, String, compare, Ordering, Bool, true, false, not, ◌&&◌, ◌||◌, Option, none, some,
  List, [], ◌∷◌, ◌==◌, str_eq, length, is_some,
}
use dots_rust.Prelude.Int.{eq_ℤ, compare_ℤ}
use dots_rust.Dynamic.Value.{
  DynamicValue, bool, u8, u16, u32, u64, i8, i16, i32, i64, f32, f64, string, uuid, timepoint,
  duration, DynamicStruct, get,
}
use dots_rust.Filter.Floats.{Floats}
use dots_rust.Filter.Wire.{DotsCompareOp, eq, neq, lt, le, gt, ge, is_in, not_in, is_null, not_null}
use dots_rust.Filter.Compile.{
  CompiledRhs, scalar, list, CompiledLeaf, CompiledNode, leaf_node, and_node, or_node, not_node,
  CompiledPredicate,
}

-- `==` of two byte arrays
pub bytes_eq : List ℕ → List ℕ → Bool
bytes_eq [] [] = true
bytes_eq [] (y ∷ ys) = false
bytes_eq (x ∷ xs) [] = false
bytes_eq (x ∷ xs) (y ∷ ys) = x == y && bytes_eq xs ys

abbrev then_with : Ordering → Ordering → Ordering
then_with Ordering.lt o = Ordering.lt
then_with Ordering.eq o = o
then_with Ordering.gt o = Ordering.gt

-- `cmp` of two `str`: by code points, which is the order of the UTF-8 bytes
compare_text : String → String → Ordering
compare_text String.[] String.[] = Ordering.eq
compare_text String.[] (String.◌∷◌ d t) = Ordering.lt
compare_text (String.◌∷◌ c s) String.[] = Ordering.gt
compare_text (String.◌∷◌ c s) (String.◌∷◌ d t) =
    then_with (compare (code c) (code d)) (compare_text s t)

-- `is_lt`, `is_le`, `is_gt` and `is_ge` for the four operators
abbrev pub ordering_holds : DotsCompareOp → Ordering → Bool
ordering_holds lt Ordering.lt = true
ordering_holds le Ordering.lt = true
ordering_holds le Ordering.eq = true
ordering_holds gt Ordering.gt = true
ordering_holds ge Ordering.gt = true
ordering_holds ge Ordering.eq = true
ordering_holds _ _ = false

abbrev pub compare_with : DotsCompareOp → Option Ordering → Bool
compare_with op none = false
compare_with op (some o) = ordering_holds op o

-- A result and the nodes that the cursor has not reached.
abbrev pub Walk : Type 0
Walk = Option (Bool × List CompiledNode)

-- The loop over the children: each is evaluated, whatever the earlier ones gave.
unfoldable pub eval_children :
    (List CompiledNode → Walk) → (Bool → Bool → Bool) → ℕ → Bool → List CompiledNode → Walk
eval_children child op zero acc nodes = some (acc, nodes)
eval_children child op (suc n) acc nodes = elim (child nodes) [
  | none ↦ none
  | some (v, rest) ↦ eval_children child op n (op acc v) rest
]

abbrev pub result : Walk → Option Bool
result none = none
result (some (v, rest)) = some v

module _ (fl : Floats) where
  unfoldable pub value_eq : DynamicValue → DynamicValue → Bool
  unfolding bytes_eq
  value_eq (bool true) (bool b) = b
  value_eq (bool false) (bool b) = not b
  value_eq (i8 x) (i8 y) = eq_ℤ x y
  value_eq (i16 x) (i16 y) = eq_ℤ x y
  value_eq (i32 x) (i32 y) = eq_ℤ x y
  value_eq (i64 x) (i64 y) = eq_ℤ x y
  value_eq (u8 x) (u8 y) = x == y
  value_eq (u16 x) (u16 y) = x == y
  value_eq (u32 x) (u32 y) = x == y
  value_eq (u64 x) (u64 y) = x == y
  value_eq (f32 x) (f32 y) = fl.eq_f32 x y
  value_eq (f64 x) (f64 y) = fl.eq_f64 x y
  value_eq (timepoint x) (timepoint y) = fl.eq_f64 x y
  value_eq (duration x) (duration y) = fl.eq_f64 x y
  value_eq (string x) (string y) = str_eq x y
  value_eq (uuid x) (uuid y) = bytes_eq x y
  value_eq _ _ = false

  unfoldable pub value_cmp : DynamicValue → DynamicValue → Option Ordering
  unfolding compare_text
  value_cmp (i8 x) (i8 y) = some (compare_ℤ x y)
  value_cmp (i16 x) (i16 y) = some (compare_ℤ x y)
  value_cmp (i32 x) (i32 y) = some (compare_ℤ x y)
  value_cmp (i64 x) (i64 y) = some (compare_ℤ x y)
  value_cmp (u8 x) (u8 y) = some (compare x y)
  value_cmp (u16 x) (u16 y) = some (compare x y)
  value_cmp (u32 x) (u32 y) = some (compare x y)
  value_cmp (u64 x) (u64 y) = some (compare x y)
  value_cmp (f32 x) (f32 y) = fl.partial_cmp_f32 x y
  value_cmp (f64 x) (f64 y) = fl.partial_cmp_f64 x y
  value_cmp (timepoint x) (timepoint y) = fl.partial_cmp_f64 x y
  value_cmp (duration x) (duration y) = fl.partial_cmp_f64 x y
  value_cmp (string x) (string y) = some (compare_text x y)
  value_cmp _ _ = none

  unfoldable pub any_eq : DynamicValue → List DynamicValue → Bool
  any_eq l [] = false
  any_eq l (r ∷ rs) = value_eq l r || any_eq l rs

  -- The `match op`, on the property's value and the right-hand side.
  unfoldable pub eval_op : DotsCompareOp → Option DynamicValue → CompiledRhs → Bool
  unfolding any_eq
  eval_op is_null lhs rhs = not (is_some lhs)
  eval_op not_null lhs rhs = is_some lhs
  eval_op eq (some l) (scalar r) = value_eq l r
  eval_op neq (some l) (scalar r) = not (value_eq l r)
  eval_op lt (some l) (scalar r) = compare_with lt (value_cmp l r)
  eval_op le (some l) (scalar r) = compare_with le (value_cmp l r)
  eval_op gt (some l) (scalar r) = compare_with gt (value_cmp l r)
  eval_op ge (some l) (scalar r) = compare_with ge (value_cmp l r)
  eval_op is_in (some l) (list items) = any_eq l items
  eval_op not_in (some l) (list items) = not (any_eq l items)
  eval_op _ _ _ = false

  unfoldable pub eval_leaf : CompiledLeaf → DynamicStruct → Bool
  unfolding eval_op
  eval_leaf l payload = eval_op l.op (get payload l.tag) l.rhs

  unfoldable pub eval_node :
      (List CompiledNode → Walk) → DynamicStruct → CompiledNode → List CompiledNode → Walk
  unfolding eval_children
  eval_node child payload (leaf_node l) rest = some (eval_leaf l payload, rest)
  eval_node child payload (and_node arity) rest = eval_children child ◌&&◌ arity true rest
  eval_node child payload (or_node arity) rest = eval_children child ◌||◌ arity false rest
  eval_node child payload not_node rest = elim (child rest) [
    | none ↦ none
    | some (v, rest') ↦ some (not v, rest')
  ]

  unfoldable pub eval_subtree : ℕ → DynamicStruct → List CompiledNode → Walk
  eval_subtree fuel payload [] = none
  eval_subtree zero payload (node ∷ rest) = none
  eval_subtree (suc fuel) payload (node ∷ rest) =
      eval_node (eval_subtree fuel payload) payload node rest

  unfoldable pub matches_nodes : List CompiledNode → DynamicStruct → Option Bool
  matches_nodes [] payload = some true
  matches_nodes (node ∷ rest) payload =
      result (eval_subtree (suc (length rest)) payload (node ∷ rest))

  unfoldable pub matches : CompiledPredicate → DynamicStruct → Option Bool
  unfolding matches_nodes
  matches p payload = matches_nodes p.nodes payload
