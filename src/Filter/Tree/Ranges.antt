-- ===== src/Filter/Tree/Ranges.antt =====
-- A comparison of an unsigned property with a constant, from the builder to the result.
use dots_rust.Prelude.{
  ℕ, ◌<◌, ◌%◌, ◌^◌, ◌≡◌, refl, ap, ◌∙◌, Bool, false, not, Option, none, some, ◌==◌, ltb, leb, arith,
  compare,
}
use dots_rust.Dynamic.Kind.{
  DynamicFieldKind, DynamicStructDescriptor, DynamicPropertyDescriptor, property_at,
}
use dots_rust.Dynamic.Value.{DynamicValue, DynamicStruct, get}
use dots_rust.Filter.Floats.{Floats}
use dots_rust.Filter.Wire.{DotsCompareOp, eq, neq, lt, le, gt, ge, DotsPredicateLeaf}
use dots_rust.Filter.Narrow.{unsigned_int, from_kind, narrow_scalar}
use dots_rust.Filter.Build.{leaf_of, scalar_leaf, into_scalar, unsigned}
use dots_rust.Filter.Compile.{
  ok, ◌>>=◌, CompiledLeaf, CompiledPredicate, scalar, compile_leaf, compile_rhs, scalar_rhs,
  equality_rhs, ordering_rhs, compile,
}
use dots_rust.Filter.Eval.{matches, eval_leaf, eval_op, value_eq, value_cmp}
use dots_rust.Filter.Tree.{leaf, meaning, code, wire, compile_tree}
use dots_rust.Filter.Tree.Operators.{into}
use dots_rust.Filter.Tree.Wire.{compile-of_tree}
use dots_rust.Filter.Tree.Value.{value, matches-code}

pub data Width : Type 0 where
  w8 w16 w32 w64 : Width

abbrev pub bits : Width → ℕ
bits w8 = 8
bits w16 = 16
bits w32 = 32
bits w64 = 64

abbrev pub kind_of : Width → DynamicFieldKind
kind_of w8 = DynamicFieldKind.u8
kind_of w16 = DynamicFieldKind.u16
kind_of w32 = DynamicFieldKind.u32
kind_of w64 = DynamicFieldKind.u64

abbrev pub stored : Width → ℕ → DynamicValue
stored w8 x = DynamicValue.u8 x
stored w16 x = DynamicValue.u16 x
stored w32 x = DynamicValue.u32 x
stored w64 x = DynamicValue.u64 x

abbrev pub stored_option : Width → Option ℕ → Option DynamicValue
stored_option w none = none
stored_option w (some x) = some (stored w x)

-- The six operators that compare with one value.
pub data Comparison : Type 0 where
  equal unequal less at_most greater at_least : Comparison

abbrev pub op_of : Comparison → DotsCompareOp
op_of equal = eq
op_of unequal = neq
op_of less = lt
op_of at_most = le
op_of greater = gt
op_of at_least = ge

abbrev pub holds : Comparison → ℕ → ℕ → Bool
holds equal x v = x == v
holds unequal x v = not (x == v)
holds less x v = ltb x v
holds at_most x v = leb x v
holds greater x v = ltb v x
holds at_least x v = leb v x

-- A property that is not there compares with nothing.
abbrev pub holds_option : Comparison → Option ℕ → ℕ → Bool
holds_option op none v = false
holds_option op (some x) v = holds op x v

category_of : (w : Width) → from_kind (kind_of w) ≡ some unsigned_int
unfolding from_kind
category_of w8 = refl
category_of w16 = refl
category_of w32 = refl
category_of w64 = refl

module _ (fl : Floats) where
  narrow-unsigned :
      (w : Width) (v : ℕ)
      → v < 2 ^ 64
      → narrow_scalar fl (into_scalar fl (unsigned v)) (kind_of w) unsigned_int
        ≡ some (stored w (v % 2 ^ bits w))
  unfolding narrow_scalar into_scalar
  narrow-unsigned w8 v h = refl
  narrow-unsigned w16 v h = refl
  narrow-unsigned w32 v h = refl
  narrow-unsigned w64 v h = ap (λ x. some (DynamicValue.u64 x)) (omega arith)

  value_eq-stored : (w : Width) (x y : ℕ) → value_eq fl (stored w x) (stored w y) ≡ (x == y)
  unfolding value_eq
  value_eq-stored w8 x y = refl
  value_eq-stored w16 x y = refl
  value_eq-stored w32 x y = refl
  value_eq-stored w64 x y = refl

  value_cmp-stored :
      (w : Width) (x y : ℕ) → value_cmp fl (stored w x) (stored w y) ≡ some (compare x y)
  unfolding value_cmp
  value_cmp-stored w8 x y = refl
  value_cmp-stored w16 x y = refl
  value_cmp-stored w32 x y = refl
  value_cmp-stored w64 x y = refl

  eval_op-stored :
      (w : Width) (op : Comparison) (o : Option ℕ) (v : ℕ)
      → eval_op fl (op_of op) (stored_option w o) (scalar (stored w v)) ≡ holds_option op o v
  unfolding eval_op
  eval_op-stored w equal none v = refl
  eval_op-stored w unequal none v = refl
  eval_op-stored w less none v = refl
  eval_op-stored w at_most none v = refl
  eval_op-stored w greater none v = refl
  eval_op-stored w at_least none v = refl
  eval_op-stored w equal (some x) v = value_eq-stored w x v
  eval_op-stored w unequal (some x) v = ap not (value_eq-stored w x v)
  eval_op-stored w less (some x) v = rw (value_cmp-stored w x v) (ground arith)
  eval_op-stored w at_most (some x) v = rw (value_cmp-stored w x v) (ground arith)
  eval_op-stored w greater (some x) v = rw (value_cmp-stored w x v) (ground arith)
  eval_op-stored w at_least (some x) v = rw (value_cmp-stored w x v) (ground arith)

  compile_rhs-stored :
      (tag : ℕ) (w : Width) (op : Comparison) (v : ℕ) (prop : DynamicPropertyDescriptor)
      → prop.kind ≡ kind_of w
      → v < 2 ^ 64
      → compile_rhs fl tag (op_of op) (some (into_scalar fl (unsigned v))) prop unsigned_int
        ≡ ok (scalar (stored w (v % 2 ^ bits w)))
  unfolding compile_rhs equality_rhs ordering_rhs scalar_rhs
  compile_rhs-stored tag w equal v prop is h = rw (is, narrow-unsigned w v h) refl
  compile_rhs-stored tag w unequal v prop is h = rw (is, narrow-unsigned w v h) refl
  compile_rhs-stored tag w less v prop is h = rw (is, narrow-unsigned w v h) refl
  compile_rhs-stored tag w at_most v prop is h = rw (is, narrow-unsigned w v h) refl
  compile_rhs-stored tag w greater v prop is h = rw (is, narrow-unsigned w v h) refl
  compile_rhs-stored tag w at_least v prop is h = rw (is, narrow-unsigned w v h) refl

  abbrev wire_leaf_of : ℕ → Comparison → ℕ → DotsPredicateLeaf
  wire_leaf_of tag op v = record {
    property_tag = some tag;
    op = some (op_of op);
    value = some (into_scalar fl (unsigned v));
  }

  compile_leaf-stored :
      (d : DynamicStructDescriptor) (tag : ℕ) (w : Width) (op : Comparison) (v : ℕ)
      (prop : DynamicPropertyDescriptor)
      → property_at d tag ≡ some prop
      → prop.kind ≡ kind_of w
      → v < 2 ^ 64
      → compile_leaf fl (wire_leaf_of tag op v) d
        ≡ ok (record { tag = tag; op = op_of op; rhs = scalar (stored w (v % 2 ^ bits w)) })
  unfolding compile_leaf
  compile_leaf-stored d tag w op v prop found is h =
      simp (found, is, category_of w, compile_rhs-stored tag w op v prop is h)

  -- A comparison of an unsigned property with a constant that fits in 64 bits always compiles. On a
  -- payload it compares the property's value with the constant reduced to the property's width, and it
  -- is false when the property is not set, for `!=` too.
  pub unsigned-comparison :
      (d : DynamicStructDescriptor) (tag : ℕ) (w : Width) (op : Comparison) (v : ℕ)
      (prop : DynamicPropertyDescriptor) (payload : DynamicStruct) (o : Option ℕ)
      → property_at d tag ≡ some prop
      → prop.kind ≡ kind_of w
      → v < 2 ^ 64
      → get payload tag ≡ stored_option w o
      → (c : CompiledPredicate) × (compile fl d (into (scalar_leaf fl tag (op_of op) (unsigned v)))
          ≡ ok c)
        × (matches fl c payload ≡ some (holds_option op o (v % 2 ^ bits w)))
  unfolding scalar_leaf leaf_of wire code compile_tree value meaning eval_leaf
  unsigned-comparison d tag w op v prop payload o found is h at =
      let l : CompiledLeaf = record {
        tag = tag;
        op = op_of op;
        rhs = scalar (stored w (v % 2 ^ bits w));
      } in
      (
        record { nodes = code (leaf l) },
        compile-of_tree fl d (leaf (wire_leaf_of tag op v))
            ∙ ap (λ m. m >>= (λ c. ok (leaf c)) >>= (λ t. ok (record { nodes = code t })))
                (compile_leaf-stored d tag w op v prop found is h),
        matches-code fl payload (leaf l)
            ∙ ap some (
                ap (λ p. eval_op fl (op_of op) p (scalar (stored w (v % 2 ^ bits w)))) at
                ∙ eval_op-stored w op o (v % 2 ^ bits w)),
      )
