-- ===== src/Filter/Tree/Examples.antt =====
-- The theorems on predicates at concrete inputs, and runs.
use dots_rust.Prelude.{
  ◌≡◌, ◌≢◌, refl, true, false, not, ◌&&◌, ◌||◌, none, some, [], ◌∷◌, ◌==◌, compare, arith, ◌%◌, ◌^◌,
}
use dots_rust.Dynamic.Kind.{
  DynamicFieldKind, DynamicStructDescriptor, descriptor, Properties, property, property_at,
  find_tag,
}
use dots_rust.Dynamic.Value.{DynamicValue, DynamicStruct, get, lookup}
use dots_rust.Filter.Floats.{Floats}
use dots_rust.Filter.Wire.{and_op, or_op, DotsCompareOp, DotsPredicateLeaf}
use dots_rust.Filter.Narrow.{from_kind, narrow_scalar}
use dots_rust.Filter.Build.{
  root_kind, Predicate, leaf_of, scalar_leaf, into_scalar, unsigned, is_null, bitand, bitor, negate,
}
use dots_rust.Filter.Compile.{
  ok, ◌>>=◌, exhausted, scalar, no_rhs, leaf_node, CompiledLeaf, CompiledPredicate, compile,
  compile_nodes, compile_subtree, compile_node, compile_leaf, compile_rhs, ordering_rhs, scalar_rhs,
}
use dots_rust.Filter.Eval.{
  matches, matches_nodes, eval_subtree, eval_node, eval_leaf, eval_op, value_cmp,
}
use dots_rust.Filter.Tree.{Tree, leaf, all_of, any_of, negated, one, more, wire, code, compile_tree}
use dots_rust.Filter.Tree.Value.{value, matches-code}
use dots_rust.Filter.Tree.Wire.{compile-of_tree}
use dots_rust.Filter.Tree.Total.{compile_ends, matches_ends}
use dots_rust.Filter.Tree.Builder.{Built, built_leaf, arity_of, Fits}
use dots_rust.Filter.Tree.Operators.{
  into, lift_1, lift_2, bitand-meaning, bitor-meaning, negate-meaning,
}
use dots_rust.Filter.Tree.Ranges.{w8, less, holds_option, unsigned-comparison}

-- Floats that are compared by their bits, which is right for equality of numbers that are no zeros.
abbrev by_bits : Floats
by_bits = record {
  eq_f32 = λ x y. x == y;
  eq_f64 = λ x y. x == y;
  partial_cmp_f32 = λ x y. some (compare x y);
  partial_cmp_f64 = λ x y. some (compare x y);
  to_f32 = λ x. x;
  to_f64 = λ x. x;
}

-- A type with the key 1 and a property 2 of eight bits.
abbrev sample : DynamicStructDescriptor
sample = descriptor "Sample" 1 (
    property "id" 1 true DynamicFieldKind.u32
      (property "level" 2 false DynamicFieldKind.u8 Properties.end))

abbrev row : DynamicStruct
row = record {
  descriptor = sample;
  valid = 6;
  properties = (1, DynamicValue.u32 7) ∷ (2, DynamicValue.u8 100) ∷ [];
}

-- `level < 300` and `level == null`
below_300 : Predicate
below_300 = scalar_leaf by_bits 2 DotsCompareOp.lt (unsigned 300)

unset : Predicate
unset = is_null 2

abbrev below_leaf : CompiledLeaf
below_leaf = record { tag = 2; op = DotsCompareOp.lt; rhs = scalar (DynamicValue.u8 44) }

abbrev unset_leaf : CompiledLeaf
unset_leaf = record { tag = 2; op = DotsCompareOp.is_null; rhs = no_rhs }

abbrev leaf_predicate : CompiledLeaf → CompiledPredicate
leaf_predicate l = record { nodes = leaf_node l ∷ [] }

below_compiles : compile by_bits sample (into below_300) ≡ ok (leaf_predicate below_leaf)
unfolding below_300 scalar_leaf leaf_of into_scalar compile compile_nodes compile_subtree
    compile_node compile_leaf compile_rhs ordering_rhs scalar_rhs property_at find_tag from_kind
    narrow_scalar
below_compiles = refl

unset_compiles : compile by_bits sample (into unset) ≡ ok (leaf_predicate unset_leaf)
unfolding unset is_null leaf_of compile compile_nodes compile_subtree compile_node compile_leaf
    compile_rhs property_at find_tag from_kind
unset_compiles = refl

below_300-Built : Built below_300
unfolding below_300 scalar_leaf
below_300-Built = built_leaf 2 DotsCompareOp.lt (some (into_scalar by_bits (unsigned 300)))

unset-Built : Built unset
unfolding unset is_null
unset-Built = built_leaf 2 DotsCompareOp.is_null none

-- The constant wraps: 100 is not below 300.
wrapped : matches by_bits (leaf_predicate below_leaf) row ≡ some false
unfolding matches matches_nodes eval_subtree eval_node eval_leaf eval_op value_cmp get lookup
wrapped = refl

compiled_tree : Tree CompiledLeaf
compiled_tree = negated (all_of (more (leaf below_leaf) (one (leaf unset_leaf))))

matches-code_example :
    matches by_bits (record { nodes = code compiled_tree }) row
    ≡ some (value by_bits row compiled_tree)
matches-code_example = matches-code by_bits row compiled_tree

wire_tree : Tree DotsPredicateLeaf
wire_tree = any_of (
    more (leaf (record { property_tag = some 2; op = some DotsCompareOp.is_null; value = none })) (
      one
        (leaf (record { property_tag = some 9; op = some DotsCompareOp.not_null; value = none }))))

compile-of_tree_example :
    compile by_bits sample (record { nodes = some (wire wire_tree) })
    ≡ compile_tree by_bits sample wire_tree >>= (λ c. ok (record { nodes = code c }))
compile-of_tree_example = compile-of_tree by_bits sample wire_tree

compile_ends_example : compile by_bits sample (into below_300) ≢ exhausted
compile_ends_example = compile_ends by_bits sample (into below_300)

matches_ends_example : matches by_bits (leaf_predicate below_leaf) row ≢ none
matches_ends_example =
    matches_ends by_bits sample (into below_300) (leaf_predicate below_leaf) row below_compiles

operands_fit : Fits and_op below_300 unset × Fits or_op below_300 unset
unfolding arity_of root_kind below_300 scalar_leaf unset is_null
operands_fit = (omega arith, omega arith)

bitand-meaning_example :
    (c : CompiledPredicate) × (compile by_bits sample (into (bitand below_300 unset)) ≡ ok c)
    × ((payload : DynamicStruct)
        → matches by_bits c payload
          ≡ lift_2 ◌&&◌
              (matches by_bits (leaf_predicate below_leaf) payload)
              (matches by_bits (leaf_predicate unset_leaf) payload))
bitand-meaning_example =
    bitand-meaning by_bits sample below_300 unset (leaf_predicate below_leaf)
      (leaf_predicate unset_leaf) below_300-Built unset-Built operands_fit.0 below_compiles
      unset_compiles

bitor-meaning_example :
    (c : CompiledPredicate) × (compile by_bits sample (into (bitor below_300 unset)) ≡ ok c)
    × ((payload : DynamicStruct)
        → matches by_bits c payload
          ≡ lift_2 ◌||◌
              (matches by_bits (leaf_predicate below_leaf) payload)
              (matches by_bits (leaf_predicate unset_leaf) payload))
bitor-meaning_example =
    bitor-meaning by_bits sample below_300 unset (leaf_predicate below_leaf)
      (leaf_predicate unset_leaf) below_300-Built unset-Built operands_fit.1 below_compiles
      unset_compiles

negate-meaning_example :
    (c : CompiledPredicate) × (compile by_bits sample (into (negate below_300)) ≡ ok c)
    × ((payload : DynamicStruct)
        → matches by_bits c payload
          ≡ lift_1 not (matches by_bits (leaf_predicate below_leaf) payload))
negate-meaning_example =
    negate-meaning by_bits sample below_300 (leaf_predicate below_leaf) below_300-Built
      below_compiles

row_level : get row 2 ≡ some (DynamicValue.u8 100)
unfolding get lookup
row_level = refl

level_found :
    property_at sample 2
    ≡ some (record { name = "level"; tag = 2; is_key = false; kind = DynamicFieldKind.u8 })
unfolding property_at find_tag
level_found = refl

unsigned-comparison_example :
    (c : CompiledPredicate) × (compile by_bits sample
        (into (scalar_leaf by_bits 2 DotsCompareOp.lt (unsigned 300)))
      ≡ ok c)
    × (matches by_bits c row ≡ some (holds_option less (some 100) (300 % 2 ^ 8)))
unsigned-comparison_example =
    unsigned-comparison by_bits sample 2 w8 less 300
      (record { name = "level"; tag = 2; is_key = false; kind = DynamicFieldKind.u8 }) row
      (some 100) level_found refl (omega arith) row_level
