-- ===== src/Filter/Tree/Operators.antt =====
-- The operators `&`, `|` and `!` of the builder, through the compiler and the evaluator.
use mathlib.Core.Path.{subst}
use dots_rust.Prelude.{◌≡◌, sym, ap, ◌∙◌, Bool, not, ◌&&◌, ◌||◌, Option, none, some}
use dots_rust.Dynamic.Kind.{DynamicStructDescriptor}
use dots_rust.Dynamic.Value.{DynamicStruct}
use dots_rust.Filter.Floats.{Floats}
use dots_rust.Filter.Wire.{DotsPredicate, DotsPredicateLeaf, and_op, or_op}
use dots_rust.Filter.Build.{Predicate, bitand, bitor, negate}
use dots_rust.Filter.Compile.{ok, ◌>>=◌, CompiledLeaf, CompiledPredicate, compile}
use dots_rust.Filter.Eval.{matches, eval_leaf}
use dots_rust.Filter.Tree.{Tree, all_of, any_of, negated, meaning, code, compile_tree, wire}
use dots_rust.Filter.Tree.Outcomes.{bind-ok, ok-injective}
use dots_rust.Filter.Tree.Join.{
  join, conjuncts, disjuncts, every-join, some_of-join, every-conjuncts, some_of-disjuncts,
  compile-join, compile-conjuncts, compile-disjuncts,
}
use dots_rust.Filter.Tree.Builder.{
  Built, Fits, Fits-trees, Built-of_tree, bitand-wire, bitor-wire, negate-wire,
}
use dots_rust.Filter.Tree.Wire.{compile-of_tree}
use dots_rust.Filter.Tree.Value.{value, matches-code}

-- `predicate.into()`
abbrev pub into : Predicate → DotsPredicate
into p = record { nodes = some p.nodes }

abbrev pub lift_1 : (Bool → Bool) → Option Bool → Option Bool
lift_1 f none = none
lift_1 f (some a) = some (f a)

abbrev pub lift_2 : (Bool → Bool → Bool) → Option Bool → Option Bool → Option Bool
lift_2 f none b = none
lift_2 f (some a) none = none
lift_2 f (some a) (some b) = some (f a b)

module _ (fl : Floats) (d : DynamicStructDescriptor) where
  -- What a built predicate that compiles comes from.
  record Source (p : Predicate) (c : CompiledPredicate) : Type 0 where
    tree : Tree DotsPredicateLeaf
    is_wire : p ≡ record { nodes = wire tree }
    compiled : Tree CompiledLeaf
    compiles : compile_tree fl d tree ≡ ok compiled
    is_code : record { nodes = code compiled } ≡ c

  Built-Source :
      (p : Predicate) (c : CompiledPredicate) → Built p → compile fl d (into p) ≡ ok c → Source p c
  Built-Source p c h e =
      let (t, is) = Built-of_tree p h in
      let e' : compile_tree fl d t >>= (λ x. ok (record { nodes = code x })) ≡ ok c =
        sym (compile-of_tree fl d t) ∙ subst (λ q. compile fl d (into q) ≡ ok c) is e in
      let (x, at, is') = bind-ok (compile_tree fl d t) (λ x. ok (record { nodes = code x })) c e' in
      record { tree = t; is_wire = is; compiled = x; compiles = at; is_code = ok-injective is' }

  compile-Source :
      (t : Tree DotsPredicateLeaf) (x : Tree CompiledLeaf)
      → compile_tree fl d t ≡ ok x
      → compile fl d (into (record { nodes = wire t })) ≡ ok (record { nodes = code x })
  compile-Source t x e =
      compile-of_tree fl d t ∙ ap (λ m. m >>= (λ y. ok (record { nodes = code y }))) e

  matches-Source :
      (p : Predicate) (c : CompiledPredicate) (payload : DynamicStruct) (s : Source p c)
      → matches fl c payload ≡ some (value fl payload s.compiled)
  matches-Source p c payload s =
      subst (λ q. matches fl q payload ≡ some (value fl payload s.compiled)) s.is_code
        (matches-code fl payload s.compiled)

  -- The conjunction of two built predicates that compile, with fewer than 2^32 operands, compiles too, whatever was collapsed, and
  -- matches a payload when both do.
  pub bitand-meaning :
      (p q : Predicate) (cp cq : CompiledPredicate)
      → Built p
      → Built q
      → Fits and_op p q
      → compile fl d (into p) ≡ ok cp
      → compile fl d (into q) ≡ ok cq
      → (c : CompiledPredicate) × (compile fl d (into (bitand p q)) ≡ ok c)
        × ((payload : DynamicStruct)
            → matches fl c payload ≡ lift_2 ◌&&◌ (matches fl cp payload) (matches fl cq payload))
  unfolding compile_tree value meaning
  bitand-meaning p q cp cq hp hq fits ep eq =
      let s = Built-Source p cp hp ep in
      let t = Built-Source q cq hq eq in
      let operands = join (conjuncts s.compiled) (conjuncts t.compiled) in
      let root = all_of operands in
      let compiles : compile_tree fl d (all_of (join (conjuncts s.tree) (conjuncts t.tree)))
          ≡ ok root =
        ap (λ m. m >>= (λ f. ok (all_of f)))
          (compile-join fl d (conjuncts s.tree) (conjuncts t.tree) (conjuncts s.compiled)
            (conjuncts t.compiled) (compile-conjuncts fl d s.tree s.compiled s.compiles)
            (compile-conjuncts fl d t.tree t.compiled t.compiles)) in
      (
        record { nodes = code root },
        ap (λ r. compile fl d (into r))
              ((λ i. bitand (s.is_wire i) (t.is_wire i))
                ∙ bitand-wire s.tree t.tree (Fits-trees and_op s.is_wire t.is_wire fits))
            ∙ compile-Source (all_of (join (conjuncts s.tree) (conjuncts t.tree))) root compiles,
        λ payload.
            let holds : CompiledLeaf → Bool = λ l. eval_leaf fl l payload in
            matches-code fl payload root
            ∙ ap some (
                every-join holds (conjuncts s.compiled) (conjuncts t.compiled) ∙ (λ i.
                  ◌&&◌ (every-conjuncts holds s.compiled i) (every-conjuncts holds t.compiled i)))
            ∙ sym (λ i.
              lift_2 ◌&&◌ (matches-Source p cp payload s i) (matches-Source q cq payload t i)),
      )

  -- The disjunction of two built predicates that compile, with fewer than 2^32 operands, compiles too, whatever was collapsed, and
  -- matches a payload when one of them does.
  pub bitor-meaning :
      (p q : Predicate) (cp cq : CompiledPredicate)
      → Built p
      → Built q
      → Fits or_op p q
      → compile fl d (into p) ≡ ok cp
      → compile fl d (into q) ≡ ok cq
      → (c : CompiledPredicate) × (compile fl d (into (bitor p q)) ≡ ok c)
        × ((payload : DynamicStruct)
            → matches fl c payload ≡ lift_2 ◌||◌ (matches fl cp payload) (matches fl cq payload))
  unfolding compile_tree value meaning
  bitor-meaning p q cp cq hp hq fits ep eq =
      let s = Built-Source p cp hp ep in
      let t = Built-Source q cq hq eq in
      let operands = join (disjuncts s.compiled) (disjuncts t.compiled) in
      let root = any_of operands in
      let compiles : compile_tree fl d (any_of (join (disjuncts s.tree) (disjuncts t.tree)))
          ≡ ok root =
        ap (λ m. m >>= (λ f. ok (any_of f)))
          (compile-join fl d (disjuncts s.tree) (disjuncts t.tree) (disjuncts s.compiled)
            (disjuncts t.compiled) (compile-disjuncts fl d s.tree s.compiled s.compiles)
            (compile-disjuncts fl d t.tree t.compiled t.compiles)) in
      (
        record { nodes = code root },
        ap (λ r. compile fl d (into r))
              ((λ i. bitor (s.is_wire i) (t.is_wire i))
                ∙ bitor-wire s.tree t.tree (Fits-trees or_op s.is_wire t.is_wire fits))
            ∙ compile-Source (any_of (join (disjuncts s.tree) (disjuncts t.tree))) root compiles,
        λ payload.
            let holds : CompiledLeaf → Bool = λ l. eval_leaf fl l payload in
            matches-code fl payload root
            ∙ ap some (
                some_of-join holds (disjuncts s.compiled) (disjuncts t.compiled) ∙ (λ i.
                  ◌||◌ (some_of-disjuncts holds s.compiled i)
                    (some_of-disjuncts holds t.compiled i)))
            ∙ sym (λ i.
              lift_2 ◌||◌ (matches-Source p cp payload s i) (matches-Source q cq payload t i)),
      )

  -- The negation of a built predicate that compiles compiles too, and matches a payload when the
  -- predicate does not.
  pub negate-meaning :
      (p : Predicate) (cp : CompiledPredicate)
      → Built p
      → compile fl d (into p) ≡ ok cp
      → (c : CompiledPredicate) × (compile fl d (into (negate p)) ≡ ok c)
        × ((payload : DynamicStruct) → matches fl c payload ≡ lift_1 not (matches fl cp payload))
  unfolding compile_tree value meaning
  negate-meaning p cp hp ep =
      let s = Built-Source p cp hp ep in
      (
        record { nodes = code (negated s.compiled) },
        ap (λ r. compile fl d (into r)) (ap negate s.is_wire ∙ negate-wire s.tree)
            ∙ compile-Source (negated s.tree) (negated s.compiled)
                (ap (λ m. m >>= (λ x. ok (negated x))) s.compiles),
        λ payload.
            matches-code fl payload (negated s.compiled)
            ∙ sym (ap (lift_1 not) (matches-Source p cp payload s)),
      )
