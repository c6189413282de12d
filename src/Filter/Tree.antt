-- ===== src/Filter/Tree.antt =====
-- Predicates as trees: what the pre-order node vectors of the wire form and of the compiled form
-- stand for. A connective has one operand at least.
use dots_rust.Prelude.{ℕ, suc, Bool, not, ◌&&◌, ◌||◌, Option, none, some, List, [], ◌∷◌, ◌++◌}
use dots_rust.Dynamic.Kind.{DynamicStructDescriptor}
use dots_rust.Filter.Floats.{Floats}
use dots_rust.Filter.Wire.{
  DotsPredicateKind, and_op, or_op, not_op, DotsPredicateLeaf, DotsPredicateNode,
}
use dots_rust.Filter.Compile.{
  Outcome, ok, ◌>>=◌, CompiledLeaf, CompiledNode, leaf_node, and_node, or_node, not_node,
  compile_leaf,
}
mod Outcomes
mod Final
pub mod Value
pub mod Wire
mod Sound
pub mod Total
mod Join
pub mod Builder
pub mod Operators
pub mod Ranges
mod Examples

mutual
  pub data Tree (L : Type 0) : Type 0 where
    leaf : L → Tree L
    all_of any_of : Forest L → Tree L
    negated : Tree L → Tree L

  pub data Forest (L : Type 0) : Type 0 where
    one : Tree L → Forest L
    more : Tree L → Forest L → Forest L

unfoldable pub size : {L : Type 0} → Forest L → ℕ
size (one t) = 1
size (more t f) = suc (size f)

-- What a tree says when the leaves say `holds`.
unfoldable mutual
  pub meaning : {L : Type 0} → (L → Bool) → Tree L → Bool
  meaning holds (leaf l) = holds l
  meaning holds (all_of f) = every holds f
  meaning holds (any_of f) = some_of holds f
  meaning holds (negated t) = not (meaning holds t)

  pub every : {L : Type 0} → (L → Bool) → Forest L → Bool
  every holds (one t) = meaning holds t
  every holds (more t f) = meaning holds t && every holds f

  pub some_of : {L : Type 0} → (L → Bool) → Forest L → Bool
  some_of holds (one t) = meaning holds t
  some_of holds (more t f) = meaning holds t || some_of holds f

abbrev pub wire_leaf : DotsPredicateLeaf → DotsPredicateNode
wire_leaf l = record { kind = some DotsPredicateKind.leaf; leaf = some l; arity = none }

abbrev pub wire_node : DotsPredicateKind → ℕ → DotsPredicateNode
wire_node kind arity = record { kind = some kind; leaf = none; arity = some arity }

-- The wire form: the nodes in pre-order.
unfoldable mutual
  unfolding size

  pub wire : Tree DotsPredicateLeaf → List DotsPredicateNode
  wire (leaf l) = wire_leaf l ∷ []
  wire (all_of f) = wire_node and_op (size f) ∷ wire_forest f
  wire (any_of f) = wire_node or_op (size f) ∷ wire_forest f
  wire (negated t) = wire_node not_op 1 ∷ wire t

  pub wire_forest : Forest DotsPredicateLeaf → List DotsPredicateNode
  wire_forest (one t) = wire t
  wire_forest (more t f) = wire t ++ wire_forest f

-- The compiled form.
unfoldable mutual
  unfolding size

  pub code : Tree CompiledLeaf → List CompiledNode
  code (leaf l) = leaf_node l ∷ []
  code (all_of f) = and_node (size f) ∷ code_forest f
  code (any_of f) = or_node (size f) ∷ code_forest f
  code (negated t) = not_node ∷ code t

  pub code_forest : Forest CompiledLeaf → List CompiledNode
  code_forest (one t) = code t
  code_forest (more t f) = code t ++ code_forest f

-- The leaves compiled one after the other; the shape is kept.
unfoldable mutual
  pub compile_tree :
      Floats → DynamicStructDescriptor → Tree DotsPredicateLeaf → Outcome (Tree CompiledLeaf)
  compile_tree fl d (leaf l) = do c ← compile_leaf fl l d; ok (leaf c)
  compile_tree fl d (all_of f) = do g ← compile_forest fl d f; ok (all_of g)
  compile_tree fl d (any_of f) = do g ← compile_forest fl d f; ok (any_of g)
  compile_tree fl d (negated t) = do c ← compile_tree fl d t; ok (negated c)

  pub compile_forest :
      Floats → DynamicStructDescriptor → Forest DotsPredicateLeaf → Outcome (Forest CompiledLeaf)
  compile_forest fl d (one t) = do c ← compile_tree fl d t; ok (one c)
  compile_forest fl d (more t f) = do
    c ← compile_tree fl d t
    g ← compile_forest fl d f
    ok (more c g)
