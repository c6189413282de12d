-- ===== src/Filter/Tree/Wire.antt =====
-- `compile` on the wire form of a tree.
use dots_rust.Prelude.{
  ◌==◌, ℕ, zero, suc, ◌≤◌, ◌≡◌, refl, sym, ap, ◌∙◌, false, some, List, [], ◌∷◌, ◌++◌, append_assoc,
  append-nil, length, length-append, arith,
}
use dots_rust.Dynamic.Kind.{DynamicStructDescriptor}
use dots_rust.Filter.Floats.{Floats}
use dots_rust.Filter.Wire.{DotsPredicateLeaf, DotsPredicateNode}
use dots_rust.Filter.Compile.{
  ok, ◌>>=◌, CompiledLeaf, CompiledNode, and_node, or_node, not_node, compile_leaf, compile_node,
  compile_subtree, repeat, compile, compile_nodes, whole,
}
use dots_rust.Filter.Tree.Outcomes.{bind_assoc, bind_congr, bind-ok, ok-injective}
use dots_rust.Filter.Tree.{
  Tree, leaf, all_of, any_of, negated, Forest, one, more, size, wire, wire_forest, code,
  code_forest, compile_tree, compile_forest,
}

size-not_zero : {L : Type 0} (f : Forest L) → (size f == 0) ≡ false
unfolding size
size-not_zero (one t) = refl
size-not_zero (more t f) = ground arith

module _ (fl : Floats) (d : DynamicStructDescriptor) where
  size-compile_forest :
      (f : Forest DotsPredicateLeaf) (g : Forest CompiledLeaf)
      → compile_forest fl d f ≡ ok g
      → size g ≡ size f
  unfolding size compile_forest
  size-compile_forest (one t) g h =
      let (c, at, e) = bind-ok (compile_tree fl d t) (λ c. ok (one c)) g h in
      sym (ap size (ok-injective e))
  size-compile_forest (more t f) g h =
      let (c, at, e) =
        bind-ok (compile_tree fl d t) (λ c. compile_forest fl d f >>= (λ g'. ok (more c g'))) g h in
      let (g', at', e') = bind-ok (compile_forest fl d f) (λ g'. ok (more c g')) g e in
      sym (ap size (ok-injective e')) ∙ ap suc (size-compile_forest f g' at')

  mutual
    unfolding wire wire_forest code code_forest size compile_tree compile_forest compile_subtree
        compile_node repeat

    compile-wire :
        (t : Tree DotsPredicateLeaf) (fuel : ℕ) (src : List DotsPredicateNode)
        (out : List CompiledNode)
        → length (wire t) ≤ fuel
        → compile_subtree fl d fuel (wire t ++ src, out)
          ≡ compile_tree fl d t >>= (λ c. ok (src, out ++ code c))
    compile-wire (leaf l) zero src out h = absurd (omega arith)
    compile-wire (all_of f) zero src out h = absurd (omega arith)
    compile-wire (any_of f) zero src out h = absurd (omega arith)
    compile-wire (negated t) zero src out h = absurd (omega arith)
    compile-wire (leaf l) (suc fuel) src out h =
        sym (bind_assoc (compile_leaf fl l d) (λ c. ok (leaf c)) (λ c. ok (src, out ++ code c)))
    compile-wire (all_of f) (suc fuel) src out h = rw (size-not_zero f) (
        compile-wire_forest f fuel src (out ++ and_node (size f) ∷ []) (omega arith)
        ∙ bind_congr (compile_forest fl d f)
            (λ g. ok (src, (out ++ and_node (size f) ∷ []) ++ code_forest g))
            (λ g. ok (src, out ++ code (all_of g)))
            (λ g e.
              rw (sym (size-compile_forest f g e))
                (ap (λ o. ok (src, o)) (append_assoc out (and_node (size g) ∷ []) (code_forest g))))
        ∙ sym (
            bind_assoc (compile_forest fl d f) (λ g. ok (all_of g)) (λ c. ok (src, out ++ code c))))
    compile-wire (any_of f) (suc fuel) src out h = rw (size-not_zero f) (
        compile-wire_forest f fuel src (out ++ or_node (size f) ∷ []) (omega arith)
        ∙ bind_congr (compile_forest fl d f)
            (λ g. ok (src, (out ++ or_node (size f) ∷ []) ++ code_forest g))
            (λ g. ok (src, out ++ code (any_of g)))
            (λ g e.
              rw (sym (size-compile_forest f g e))
                (ap (λ o. ok (src, o)) (append_assoc out (or_node (size g) ∷ []) (code_forest g))))
        ∙ sym (
            bind_assoc (compile_forest fl d f) (λ g. ok (any_of g)) (λ c. ok (src, out ++ code c))))
    compile-wire (negated t) (suc fuel) src out h =
        compile-wire t fuel src (out ++ not_node ∷ []) (omega arith)
        ∙ bind_congr (compile_tree fl d t) (λ c. ok (src, (out ++ not_node ∷ []) ++ code c))
            (λ c. ok (src, out ++ code (negated c)))
            (λ c e. ap (λ o. ok (src, o)) (append_assoc out (not_node ∷ []) (code c)))
        ∙ sym
            (bind_assoc (compile_tree fl d t) (λ c. ok (negated c)) (λ c. ok (src, out ++ code c)))

    compile-wire_forest :
        (f : Forest DotsPredicateLeaf) (fuel : ℕ) (src : List DotsPredicateNode)
        (out : List CompiledNode)
        → length (wire_forest f) ≤ fuel
        → repeat (size f) (compile_subtree fl d fuel) (wire_forest f ++ src, out)
          ≡ compile_forest fl d f >>= (λ g. ok (src, out ++ code_forest g))
    compile-wire_forest (one t) fuel src out h =
        ap (λ m. m >>= (λ s. ok s)) (compile-wire t fuel src out h)
        ∙ bind_assoc (compile_tree fl d t) (λ c. ok (src, out ++ code c)) (λ s. ok s)
        ∙ sym (
            bind_assoc (compile_tree fl d t) (λ c. ok (one c))
              (λ g. ok (src, out ++ code_forest g)))
    compile-wire_forest (more t f) fuel src out h =
        let children = repeat (size f) (compile_subtree fl d fuel) in
        rw (append_assoc (wire t) (wire_forest f) src) (
          ap (λ m. m >>= children)
            (compile-wire t fuel (wire_forest f ++ src) out
              (omega (arith, length-append (wire t) (wire_forest f))))
          ∙ bind_assoc (compile_tree fl d t) (λ c. ok (wire_forest f ++ src, out ++ code c))
              children
          ∙ bind_congr (compile_tree fl d t) (λ c. children (wire_forest f ++ src, out ++ code c))
              (λ c.
                compile_forest fl d f
                >>= (λ g. ok (more c g))
                >>= (λ g. ok (src, out ++ code_forest g)))
              (λ c e.
                compile-wire_forest f fuel src (out ++ code c)
                  (omega (arith, length-append (wire t) (wire_forest f)))
                ∙ bind_congr (compile_forest fl d f)
                    (λ g. ok (src, (out ++ code c) ++ code_forest g))
                    (λ g. ok (src, out ++ code_forest (more c g)))
                    (λ g e'. ap (λ o. ok (src, o)) (append_assoc out (code c) (code_forest g)))
                ∙ sym (
                    bind_assoc (compile_forest fl d f) (λ g. ok (more c g))
                      (λ g. ok (src, out ++ code_forest g))))
          ∙ sym (
              bind_assoc (compile_tree fl d t) (λ c. compile_forest fl d f >>= (λ g. ok (more c g)))
                (λ g. ok (src, out ++ code_forest g))))

  whole-wire :
      (t : Tree DotsPredicateLeaf)
      → compile_subtree fl d (length (wire t)) (wire t, []) >>= whole
        ≡ compile_tree fl d t >>= (λ c. ok (record { nodes = code c }))
  whole-wire t =
      ap (λ nodes. compile_subtree fl d (length (wire t)) (nodes, []) >>= whole)
        (sym (append-nil (wire t)))
      ∙ ap (λ m. m >>= whole) (compile-wire t (length (wire t)) [] [] (omega arith))
      ∙ bind_assoc (compile_tree fl d t) (λ c. ok ([], code c)) whole

  -- Compiling the node vector of a tree comes out as compiling its leaves from left to right does: the
  -- first leaf that is refused gives the error, and else the nodes are those of the tree of compiled
  -- leaves.
  pub compile-of_tree :
      (t : Tree DotsPredicateLeaf)
      → compile fl d (record { nodes = some (wire t) })
        ≡ compile_tree fl d t >>= (λ c. ok (record { nodes = code c }))
  unfolding compile compile_nodes wire
  compile-of_tree (leaf l) = whole-wire (leaf l)
  compile-of_tree (all_of f) = whole-wire (all_of f)
  compile-of_tree (any_of f) = whole-wire (any_of f)
  compile-of_tree (negated t) = whole-wire (negated t)
