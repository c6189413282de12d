-- ===== src/Filter/Tree/Final.antt =====
-- Compiling a leaf uses no fuel.
use dots_rust.Prelude.{Bool, true, false, not, Option, none, some, ℕ}
use dots_rust.Dynamic.Kind.{DynamicPropertyDescriptor, DynamicStructDescriptor, property_at}
use dots_rust.Filter.Floats.{Floats}
use dots_rust.Filter.Wire.{
  DotsCompareOp, eq, neq, lt, le, gt, ge, is_in, not_in, is_null, not_null, DotsPredicateValue,
  DotsPredicateLeaf,
}
use dots_rust.Filter.Narrow.{
  CompileError, malformed_leaf, unknown_property_tag, unsupported_property_type, op_not_applicable,
  from_kind, allows_equality, allows_ordering, missing_value, wrong_value_slot, empty_list,
  PropertyCategory, scalar_slot_name, list_slot_name, narrow_scalar, narrow_list,
}
use dots_rust.Filter.Compile.{
  Outcome, ok, err, exhausted, ◌>>=◌, ◌>>◌, guard, ok_or, scalar, list, is_empty_list, scalar_rhs,
  list_rhs, equality_rhs, ordering_rhs, membership_rhs, compile_rhs, compile_leaf,
}

-- The fuel did not run out.
unfoldable pub IsFinal {ℓ} : {A : Type ℓ} → Outcome A → Type 0
IsFinal (ok a) = Unit
IsFinal (err e) = Unit
IsFinal exhausted = ⊥

module _ {ℓ} {A : Type ℓ} where
  bind-IsFinal {κ} :
      {B : Type κ} (m : Outcome A) (f : A → Outcome B)
      → IsFinal m
      → ((a : A) → IsFinal (f a))
      → IsFinal (m >>= f)
  unfolding IsFinal
  bind-IsFinal (ok a) f h k = k a
  bind-IsFinal (err e) f h k = tt
  bind-IsFinal exhausted f h k = absurd h

  ok-IsFinal : (a : A) → IsFinal (ok a)
  unfolding IsFinal
  ok-IsFinal a = tt

  pub ok_or-IsFinal : (o : Option A) (e : CompileError) → IsFinal (ok_or o e)
  unfolding IsFinal
  ok_or-IsFinal none e = tt
  ok_or-IsFinal (some a) e = tt

pub guard-IsFinal : (b : Bool) (e : CompileError) → IsFinal (guard b e)
unfolding IsFinal
guard-IsFinal true e = tt
guard-IsFinal false e = tt

guarded-IsFinal {ℓ} :
    {A : Type ℓ} (b : Bool) (e : CompileError) (m : Outcome A)
    → IsFinal m
    → IsFinal (guard b e >> m)
guarded-IsFinal b e m h = bind-IsFinal (guard b e) (λ _. m) (guard-IsFinal b e) (λ _. h)

module _ (fl : Floats) (tag : ℕ) (op : DotsCompareOp) (value : Option DotsPredicateValue)
    (prop : DynamicPropertyDescriptor) (cat : PropertyCategory) where
  scalar_rhs-IsFinal : IsFinal (scalar_rhs fl tag op value prop cat)
  unfolding scalar_rhs
  scalar_rhs-IsFinal =
      bind-IsFinal (ok_or value (missing_value tag op))
        (λ v.
          ok_or (narrow_scalar fl v prop.kind cat) (wrong_value_slot tag (scalar_slot_name cat))
          >>= (λ narrowed. ok (scalar narrowed)))
        (ok_or-IsFinal value (missing_value tag op))
        (λ v.
          bind-IsFinal
            (ok_or (narrow_scalar fl v prop.kind cat) (wrong_value_slot tag (scalar_slot_name cat)))
            (λ narrowed. ok (scalar narrowed))
            (ok_or-IsFinal (narrow_scalar fl v prop.kind cat)
              (wrong_value_slot tag (scalar_slot_name cat)))
            (λ n. unfold IsFinal in tt))

  list_rhs-IsFinal : IsFinal (list_rhs fl tag op value prop cat)
  unfolding list_rhs
  list_rhs-IsFinal =
      bind-IsFinal (ok_or value (missing_value tag op)) _
        (ok_or-IsFinal value (missing_value tag op))
        (λ v.
          bind-IsFinal
            (ok_or (narrow_list fl v prop.kind cat) (wrong_value_slot tag (list_slot_name cat)))
            (λ items. guard (not (is_empty_list items)) (empty_list tag) >> ok (list items))
            (ok_or-IsFinal (narrow_list fl v prop.kind cat)
              (wrong_value_slot tag (list_slot_name cat)))
            (λ items.
              guarded-IsFinal (not (is_empty_list items)) (empty_list tag) (ok (list items))
                (unfold IsFinal in tt)))

compile_rhs-IsFinal :
    (fl : Floats) (tag : ℕ) (op : DotsCompareOp) (value : Option DotsPredicateValue)
    (prop : DynamicPropertyDescriptor) (cat : PropertyCategory)
    → IsFinal (compile_rhs fl tag op value prop cat)
unfolding compile_rhs equality_rhs ordering_rhs membership_rhs
compile_rhs-IsFinal fl tag is_null value prop cat = unfold IsFinal in tt
compile_rhs-IsFinal fl tag not_null value prop cat = unfold IsFinal in tt
compile_rhs-IsFinal fl tag is_in value prop cat =
    guarded-IsFinal (allows_equality cat) (op_not_applicable tag is_in)
      (list_rhs fl tag is_in value prop cat) (list_rhs-IsFinal fl tag is_in value prop cat)
compile_rhs-IsFinal fl tag not_in value prop cat =
    guarded-IsFinal (allows_equality cat) (op_not_applicable tag not_in)
      (list_rhs fl tag not_in value prop cat) (list_rhs-IsFinal fl tag not_in value prop cat)
compile_rhs-IsFinal fl tag eq value prop cat =
    guarded-IsFinal (allows_equality cat) (op_not_applicable tag eq)
      (scalar_rhs fl tag eq value prop cat) (scalar_rhs-IsFinal fl tag eq value prop cat)
compile_rhs-IsFinal fl tag neq value prop cat =
    guarded-IsFinal (allows_equality cat) (op_not_applicable tag neq)
      (scalar_rhs fl tag neq value prop cat) (scalar_rhs-IsFinal fl tag neq value prop cat)
compile_rhs-IsFinal fl tag lt value prop cat =
    guarded-IsFinal (allows_ordering cat) (op_not_applicable tag lt)
      (scalar_rhs fl tag lt value prop cat) (scalar_rhs-IsFinal fl tag lt value prop cat)
compile_rhs-IsFinal fl tag le value prop cat =
    guarded-IsFinal (allows_ordering cat) (op_not_applicable tag le)
      (scalar_rhs fl tag le value prop cat) (scalar_rhs-IsFinal fl tag le value prop cat)
compile_rhs-IsFinal fl tag gt value prop cat =
    guarded-IsFinal (allows_ordering cat) (op_not_applicable tag gt)
      (scalar_rhs fl tag gt value prop cat) (scalar_rhs-IsFinal fl tag gt value prop cat)
compile_rhs-IsFinal fl tag ge value prop cat =
    guarded-IsFinal (allows_ordering cat) (op_not_applicable tag ge)
      (scalar_rhs fl tag ge value prop cat) (scalar_rhs-IsFinal fl tag ge value prop cat)

pub compile_leaf-IsFinal :
    (fl : Floats) (l : DotsPredicateLeaf) (d : DynamicStructDescriptor)
    → IsFinal (compile_leaf fl l d)
unfolding compile_leaf
compile_leaf-IsFinal fl l d =
    bind-IsFinal (ok_or l.property_tag malformed_leaf) _
      (ok_or-IsFinal l.property_tag malformed_leaf)
      (λ tag. bind-IsFinal (ok_or l.op malformed_leaf) _ (ok_or-IsFinal l.op malformed_leaf) (λ op.
        bind-IsFinal (ok_or (property_at d tag) (unknown_property_tag tag)) _
          (ok_or-IsFinal (property_at d tag) (unknown_property_tag tag))
          (λ prop.
            bind-IsFinal (ok_or (from_kind prop.kind) (unsupported_property_type tag)) _
              (ok_or-IsFinal (from_kind prop.kind) (unsupported_property_type tag))
              (λ cat.
                bind-IsFinal (compile_rhs fl tag op l.value prop cat) _
                  (compile_rhs-IsFinal fl tag op l.value prop cat)
                  (λ rhs. ok-IsFinal (record { tag = tag; op = op; rhs = rhs }))))))
