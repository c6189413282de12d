-- ===== src/Filter/Tree/Total.antt =====
-- No predicate, however malformed, makes the compiler or the evaluator go astray.
use dots_rust.Prelude.{
  ◌≡◌, ◌≢◌, sym, ap, ◌⊎◌, inl, inr, Option, none, some, List, [], ◌∷◌, length, arith, Option-cases,
}
use dots_rust.Dynamic.Kind.{DynamicStructDescriptor}
use dots_rust.Dynamic.Value.{DynamicStruct}
use dots_rust.Filter.Floats.{Floats}
use dots_rust.Filter.Wire.{DotsPredicateNode, DotsPredicate}
use dots_rust.Filter.Compile.{
  Outcome, ok, err, exhausted, ◌>>=◌, CompiledLeaf, CompiledPredicate, Progress, compile_subtree,
  compile, compile_nodes, whole,
}
use dots_rust.Filter.Eval.{matches, matches_nodes}
use dots_rust.Filter.Tree.{Tree, code}
use dots_rust.Filter.Tree.Outcomes.{ok-injective}
use dots_rust.Filter.Tree.Sound.{Compiled, Ends, compile_subtree-Ends, whole-Ends}
use dots_rust.Filter.Tree.Value.{matches-code}

module _ (fl : Floats) (d : DynamicStructDescriptor) where
  -- A compiled predicate has no nodes, or those of a tree.
  pub IsCode : CompiledPredicate → Type 0
  IsCode c = (c.nodes ≡ []) ⊎ ((t : Tree CompiledLeaf) × (c.nodes ≡ code t))

  compile_nodes-IsCode :
      (nodes : List DotsPredicateNode) (c : CompiledPredicate)
      → compile_nodes fl d nodes ≡ ok c
      → IsCode c
  unfolding compile_nodes IsCode
  compile_nodes-IsCode [] c e = inl (ap (λ p. p.nodes) (sym (ok-injective e)))
  compile_nodes-IsCode (node ∷ src) c e = inr (
      whole-Ends fl d (node ∷ src, []) (compile_subtree fl d (length (node ∷ src)) (node ∷ src, []))
        c (compile_subtree-Ends fl d (length (node ∷ src)) (node ∷ src, []) (omega arith)) e)

  compile-IsCode :
      (nodes : Option (List DotsPredicateNode)) (c : CompiledPredicate)
      → compile fl d (record { nodes = nodes }) ≡ ok c
      → IsCode c
  unfolding compile IsCode
  compile-IsCode none c e = inl (ap (λ (q : CompiledPredicate). q.nodes) (sym (ok-injective e)))
  compile-IsCode (some nodes) c e = compile_nodes-IsCode nodes c e

  matches-IsCode :
      (c : CompiledPredicate) (payload : DynamicStruct) → IsCode c → matches fl c payload ≢ none
  unfolding matches IsCode
  matches-IsCode c payload (inl is) = rw is (unfold matches_nodes in ground arith)
  matches-IsCode c payload (inr (t, is)) = rw is (rw (matches-code fl payload t) (ground arith))

  not_exhausted :
      (s : Progress) (m : Outcome Progress) → Ends Compiled s m → m >>= whole ≢ exhausted
  unfolding Ends
  not_exhausted s (ok ([], out)) h = ground arith
  not_exhausted s (ok (node ∷ src, out)) h = ground arith
  not_exhausted s (err e) h = ground arith
  not_exhausted s exhausted h = absurd h

  compile_nodes-final : (nodes : List DotsPredicateNode) → compile_nodes fl d nodes ≢ exhausted
  unfolding compile_nodes
  compile_nodes-final [] = ground arith
  compile_nodes-final (node ∷ src) =
      not_exhausted (node ∷ src, []) (compile_subtree fl d (length (node ∷ src)) (node ∷ src, []))
        (compile_subtree-Ends fl d (length (node ∷ src)) (node ∷ src, []) (omega arith))

  -- The compiler ends with a result or an error on every predicate, however malformed: as many calls
  -- deep as there are nodes are enough.
  pub compile_ends : (p : DotsPredicate) → compile fl d p ≢ exhausted
  unfolding compile
  compile_ends p = elim (Option-cases p.nodes) [
    | inl missing ↦ rw missing (ground arith)
    | inr (nodes, is) ↦ rw is (compile_nodes-final nodes)
  ]

  -- On whatever the compiler returns the evaluator ends with a result, for every payload: no index is
  -- behind the last node, and as many calls deep as there are nodes are enough.
  pub matches_ends :
      (p : DotsPredicate) (c : CompiledPredicate) (payload : DynamicStruct)
      → compile fl d p ≡ ok c
      → matches fl c payload ≢ none
  matches_ends p c payload e = matches-IsCode c payload (compile-IsCode p.nodes c e)
