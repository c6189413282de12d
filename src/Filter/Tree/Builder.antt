-- ===== src/Filter/Tree/Builder.antt =====
-- What the builder's operators mean for the compiled predicate.
use dots_rust.Prelude.{
  ℕ, ◌+◌, ◌%◌, ◌^◌, ◌<◌, ◌≡◌, arith, subst, refl, ap, ◌∙◌, Option, some, List, if◌then◌else◌, ◌∷◌,
  ◌++◌,
}
use dots_rust.Filter.Wire.{
  DotsPredicateNode, DotsPredicateKind, DotsCompareOp, DotsPredicateValue, DotsPredicateLeaf,
  and_op, or_op,
}
use dots_rust.Filter.Build.{
  Predicate, leaf_of, combine, bitand, bitor, negate, root_kind, root_arity, same_kind,
  remove_first,
}
use dots_rust.Filter.Tree.{
  Tree, leaf, all_of, any_of, negated, Forest, size, wire, wire_forest, wire_node,
}
use dots_rust.Filter.Tree.Join.{join, conjuncts, disjuncts, size-join, wire_forest-join}

unfoldable pub arity_of : DotsPredicateKind → Predicate → ℕ
arity_of op p = if same_kind (root_kind p) op then root_arity p else 1

-- The number of the operands of a connective is within a `u32`.
abbrev pub Fits : DotsPredicateKind → Predicate → Predicate → Type 0
Fits op p q = arity_of op p + arity_of op q < 2 ^ 32

-- The predicates that a program can build, as long as no number of operands overflows: the fields are
-- private, so these are all there are.
pub data Built : Predicate → Type 0 where
  built_leaf :
      (tag : ℕ) (op : DotsCompareOp) (v : Option DotsPredicateValue) → Built (leaf_of tag op v)
  built_and : (p q : Predicate) → Fits and_op p q → Built p → Built q → Built (bitand p q)
  built_or : (p q : Predicate) → Fits or_op p q → Built p → Built q → Built (bitor p q)
  built_not : (p : Predicate) → Built p → Built (negate p)

operands_of : DotsPredicateKind → Predicate → List DotsPredicateNode
operands_of op p = if same_kind (root_kind p) op then remove_first p.nodes else p.nodes

combine-operands :
    (op : DotsPredicateKind) (p q : Predicate)
    → combine op p q ≡ record {
      nodes =
          wire_node op ((arity_of op p + arity_of op q) % 2 ^ 32)
          ∷ (operands_of op p ++ operands_of op q);
    }
unfolding combine arity_of operands_of
combine-operands op p q = refl

abbrev pub of_tree : Tree DotsPredicateLeaf → Predicate
of_tree t = record { nodes = wire t }

operands_of-conjuncts :
    (t : Tree DotsPredicateLeaf)
    → (arity_of and_op (of_tree t) ≡ size (conjuncts t))
      × (operands_of and_op (of_tree t) ≡ wire_forest (conjuncts t))
unfolding arity_of operands_of wire wire_forest size root_kind root_arity
operands_of-conjuncts (leaf l) = (refl, refl)
operands_of-conjuncts (all_of f) = (refl, refl)
operands_of-conjuncts (any_of f) = (refl, refl)
operands_of-conjuncts (negated t) = (refl, refl)

operands_of-disjuncts :
    (t : Tree DotsPredicateLeaf)
    → (arity_of or_op (of_tree t) ≡ size (disjuncts t))
      × (operands_of or_op (of_tree t) ≡ wire_forest (disjuncts t))
unfolding arity_of operands_of wire wire_forest size root_kind root_arity
operands_of-disjuncts (leaf l) = (refl, refl)
operands_of-disjuncts (all_of f) = (refl, refl)
operands_of-disjuncts (any_of f) = (refl, refl)
operands_of-disjuncts (negated t) = (refl, refl)

-- The nodes of a connective whose operands are known.
combine-join :
    (op : DotsPredicateKind) (p q : Predicate) (f g : Forest DotsPredicateLeaf)
    → (arity_of op p ≡ size f) × (operands_of op p ≡ wire_forest f)
    → (arity_of op q ≡ size g) × (operands_of op q ≡ wire_forest g)
    → Fits op p q
    → combine op p q ≡ record { nodes = wire_node op (size (join f g)) ∷ wire_forest (join f g) }
combine-join op p q f g (a, n) (b, m) fits =
    let whole : (arity_of op p + arity_of op q) % 2 ^ 32 ≡ arity_of op p + arity_of op q =
      omega arith in
    combine-operands op p q ∙ rw (whole, a, n, b, m, size-join f g, wire_forest-join f g) refl

pub bitand-wire :
    (t u : Tree DotsPredicateLeaf)
    → Fits and_op (of_tree t) (of_tree u)
    → bitand (of_tree t) (of_tree u) ≡ of_tree (all_of (join (conjuncts t) (conjuncts u)))
unfolding bitand wire
bitand-wire t u fits =
    combine-join and_op (of_tree t) (of_tree u) (conjuncts t) (conjuncts u)
      (operands_of-conjuncts t) (operands_of-conjuncts u) fits

pub bitor-wire :
    (t u : Tree DotsPredicateLeaf)
    → Fits or_op (of_tree t) (of_tree u)
    → bitor (of_tree t) (of_tree u) ≡ of_tree (any_of (join (disjuncts t) (disjuncts u)))
unfolding bitor wire
bitor-wire t u fits =
    combine-join or_op (of_tree t) (of_tree u) (disjuncts t) (disjuncts u) (operands_of-disjuncts t)
      (operands_of-disjuncts u) fits

pub negate-wire : (t : Tree DotsPredicateLeaf) → negate (of_tree t) ≡ of_tree (negated t)
unfolding negate wire
negate-wire t = refl

pub Fits-trees :
    (op : DotsPredicateKind) {p q r s : Predicate} → p ≡ r → q ≡ s → Fits op p q → Fits op r s
Fits-trees op e e' h = subst (λ n. n < 2 ^ 32) (λ i. arity_of op (e i) + arity_of op (e' i)) h

pub Built-of_tree : (p : Predicate) → Built p → (t : Tree DotsPredicateLeaf) × (p ≡ of_tree t)
unfolding leaf_of wire
Built-of_tree _ (built_leaf tag op v) =
    (leaf (record { property_tag = some tag; op = some op; value = v }), refl)
Built-of_tree _ (built_and p q fits hp hq) =
    let (t, e) = Built-of_tree p hp in
    let (u, e') = Built-of_tree q hq in
    (
      all_of (join (conjuncts t) (conjuncts u)),
      (λ i. bitand (e i) (e' i)) ∙ bitand-wire t u (Fits-trees and_op e e' fits),
    )
Built-of_tree _ (built_or p q fits hp hq) =
    let (t, e) = Built-of_tree p hp in
    let (u, e') = Built-of_tree q hq in
    (
      any_of (join (disjuncts t) (disjuncts u)),
      (λ i. bitor (e i) (e' i)) ∙ bitor-wire t u (Fits-trees or_op e e' fits),
    )
Built-of_tree _ (built_not p hp) =
    let (t, e) = Built-of_tree p hp in (negated t, ap negate e ∙ negate-wire t)
