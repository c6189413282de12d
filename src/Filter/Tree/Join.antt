-- ===== src/Filter/Tree/Join.antt =====
-- The operands of a connective put in one row, and what becomes of them in the two forms.
use mathlib.Core.Path.{subst}
use dots_rust.Prelude.{◌+◌, ◌≡◌, refl, sym, ap, ◌∙◌, Bool, ◌&&◌, ◌||◌, ◌++◌, append_assoc, arith}
use dots_rust.Dynamic.Kind.{DynamicStructDescriptor}
use dots_rust.Filter.Floats.{Floats}
use dots_rust.Filter.Wire.{DotsPredicateLeaf}
use dots_rust.Filter.Compile.{ok, ◌>>=◌, CompiledLeaf, compile_leaf}
use dots_rust.Filter.Tree.{
  Tree, leaf, all_of, any_of, negated, Forest, one, more, size, meaning, every, some_of, wire,
  wire_forest, compile_tree, compile_forest,
}
use dots_rust.Filter.Tree.Outcomes.{bind-ok, ok-injective}

module _ {L : Type 0} where
  unfoldable pub join : Forest L → Forest L → Forest L
  join (one t) g = more t g
  join (more t f) g = more t (join f g)

  -- The operands that a root of the same connective hands up.
  abbrev pub conjuncts : Tree L → Forest L
  conjuncts (all_of f) = f
  conjuncts t = one t

  abbrev pub disjuncts : Tree L → Forest L
  disjuncts (any_of f) = f
  disjuncts t = one t

  pub size-join : (f g : Forest L) → size (join f g) ≡ size f + size g
  unfolding size join
  size-join (one t) g = omega arith
  size-join (more t f) g = omega (arith, size-join f g)

  pub every-join :
      (holds : L → Bool) (f g : Forest L) → every holds (join f g) ≡ every holds f && every holds g
  unfolding join every
  every-join holds (one t) g = refl
  every-join holds (more t f) g = ground (arith, every-join holds f g)

  pub some_of-join :
      (holds : L → Bool) (f g : Forest L)
      → some_of holds (join f g) ≡ some_of holds f || some_of holds g
  unfolding join some_of
  some_of-join holds (one t) g = refl
  some_of-join holds (more t f) g = ground (arith, some_of-join holds f g)

  pub every-conjuncts :
      (holds : L → Bool) (t : Tree L) → every holds (conjuncts t) ≡ meaning holds t
  unfolding every meaning
  every-conjuncts holds (leaf l) = refl
  every-conjuncts holds (all_of f) = refl
  every-conjuncts holds (any_of f) = refl
  every-conjuncts holds (negated t) = refl

  pub some_of-disjuncts :
      (holds : L → Bool) (t : Tree L) → some_of holds (disjuncts t) ≡ meaning holds t
  unfolding some_of meaning
  some_of-disjuncts holds (leaf l) = refl
  some_of-disjuncts holds (all_of f) = refl
  some_of-disjuncts holds (any_of f) = refl
  some_of-disjuncts holds (negated t) = refl

pub wire_forest-join :
    (f g : Forest DotsPredicateLeaf) → wire_forest (join f g) ≡ wire_forest f ++ wire_forest g
unfolding join wire_forest
wire_forest-join (one t) g = refl
wire_forest-join (more t f) g =
    ap (λ nodes. wire t ++ nodes) (wire_forest-join f g)
    ∙ sym (append_assoc (wire t) (wire_forest f) (wire_forest g))

module _ (fl : Floats) (d : DynamicStructDescriptor) where
  compile-one :
      (t : Tree DotsPredicateLeaf) (c : Tree CompiledLeaf)
      → compile_tree fl d t ≡ ok c
      → compile_forest fl d (one t) ≡ ok (one c)
  unfolding compile_forest
  compile-one t c e = ap (λ m. m >>= (λ x. ok (one x))) e

  pub compile-join :
      (f g : Forest DotsPredicateLeaf) (f' g' : Forest CompiledLeaf)
      → compile_forest fl d f ≡ ok f'
      → compile_forest fl d g ≡ ok g'
      → compile_forest fl d (join f g) ≡ ok (join f' g')
  unfolding join compile_forest
  compile-join (one t) g f' g' e e' =
      let (c, at, is) = bind-ok (compile_tree fl d t) (λ x. ok (one x)) f' e in
      ap (λ m. m >>= (λ x. compile_forest fl d g >>= (λ y. ok (more x y)))) at
      ∙ ap (λ m. m >>= (λ y. ok (more c y))) e'
      ∙ ap (λ h. ok (join h g')) (ok-injective is)
  compile-join (more t f) g f' g' e e' =
      let (c, at, next) =
        bind-ok (compile_tree fl d t) (λ x. compile_forest fl d f >>= (λ y. ok (more x y))) f' e in
      let (h, at_f, is) = bind-ok (compile_forest fl d f) (λ y. ok (more c y)) f' next in
      ap (λ m. m >>= (λ x. compile_forest fl d (join f g) >>= (λ y. ok (more x y)))) at
      ∙ ap (λ m. m >>= (λ y. ok (more c y))) (compile-join f g h g' at_f e')
      ∙ ap (λ h. ok (join h g')) (ok-injective is)

  pub compile-conjuncts :
      (t : Tree DotsPredicateLeaf) (c : Tree CompiledLeaf)
      → compile_tree fl d t ≡ ok c
      → compile_forest fl d (conjuncts t) ≡ ok (conjuncts c)
  unfolding compile_tree
  compile-conjuncts (leaf l) c e =
      let (x, at, is) = bind-ok (compile_leaf fl l d) (λ x. ok (leaf x)) c e in
      compile-one (leaf l) c e ∙ subst (λ y. ok (one y) ≡ ok (conjuncts y)) (ok-injective is) refl
  compile-conjuncts (all_of f) c e =
      let (x, at, is) = bind-ok (compile_forest fl d f) (λ x. ok (all_of x)) c e in
      at ∙ subst (λ y. ok x ≡ ok (conjuncts y)) (ok-injective is) refl
  compile-conjuncts (any_of f) c e =
      let (x, at, is) = bind-ok (compile_forest fl d f) (λ x. ok (any_of x)) c e in
      compile-one (any_of f) c e ∙ subst (λ y. ok (one y) ≡ ok (conjuncts y)) (ok-injective is) refl
  compile-conjuncts (negated t) c e =
      let (x, at, is) = bind-ok (compile_tree fl d t) (λ x. ok (negated x)) c e in
      compile-one (negated t) c e
      ∙ subst (λ y. ok (one y) ≡ ok (conjuncts y)) (ok-injective is) refl

  pub compile-disjuncts :
      (t : Tree DotsPredicateLeaf) (c : Tree CompiledLeaf)
      → compile_tree fl d t ≡ ok c
      → compile_forest fl d (disjuncts t) ≡ ok (disjuncts c)
  unfolding compile_tree
  compile-disjuncts (leaf l) c e =
      let (x, at, is) = bind-ok (compile_leaf fl l d) (λ x. ok (leaf x)) c e in
      compile-one (leaf l) c e ∙ subst (λ y. ok (one y) ≡ ok (disjuncts y)) (ok-injective is) refl
  compile-disjuncts (any_of f) c e =
      let (x, at, is) = bind-ok (compile_forest fl d f) (λ x. ok (any_of x)) c e in
      at ∙ subst (λ y. ok x ≡ ok (disjuncts y)) (ok-injective is) refl
  compile-disjuncts (all_of f) c e =
      let (x, at, is) = bind-ok (compile_forest fl d f) (λ x. ok (all_of x)) c e in
      compile-one (all_of f) c e ∙ subst (λ y. ok (one y) ≡ ok (disjuncts y)) (ok-injective is) refl
  compile-disjuncts (negated t) c e =
      let (x, at, is) = bind-ok (compile_tree fl d t) (λ x. ok (negated x)) c e in
      compile-one (negated t) c e
      ∙ subst (λ y. ok (one y) ≡ ok (disjuncts y)) (ok-injective is) refl
