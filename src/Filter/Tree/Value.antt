-- ===== src/Filter/Tree/Value.antt =====
-- `matches` on the compiled form of a tree.
use mathlib.Core.Path.{subst}
use dots_rust.Prelude.{
  ℕ, zero, suc, ◌≤◌, ◌≡◌, refl, ◌∙◌, Bool, true, false, ◌&&◌, ◌||◌, some, List, [], ◌++◌,
  append_assoc, append-nil, length, length-append, arith,
}
use dots_rust.Dynamic.Value.{DynamicStruct}
use dots_rust.Filter.Floats.{Floats}
use dots_rust.Filter.Compile.{CompiledLeaf, CompiledNode}
use dots_rust.Filter.Eval.{
  eval_leaf, eval_children, eval_node, eval_subtree, Walk, matches, matches_nodes,
}
use dots_rust.Filter.Tree.{
  Tree, leaf, all_of, any_of, negated, Forest, one, more, size, meaning, every, some_of, code,
  code_forest,
}

-- One operand of a connective.
eval_children-step :
    (child : List CompiledNode → Walk) (op : Bool → Bool → Bool) (n : ℕ) (acc v : Bool)
    (nodes rest : List CompiledNode)
    → child nodes ≡ some (v, rest)
    → eval_children child op (suc n) acc nodes ≡ eval_children child op n (op acc v) rest
unfolding eval_children
eval_children-step child op n acc v nodes rest h = rw (eval_children, h) refl

module _ (fl : Floats) (payload : DynamicStruct) where
  -- The value of a compiled tree.
  unfoldable pub value : Tree CompiledLeaf → Bool
  value t = meaning (λ l. eval_leaf fl l payload) t

  mutual
    unfolding code code_forest size value meaning every some_of eval_subtree eval_node eval_children

    eval-code :
        (fuel : ℕ) (t : Tree CompiledLeaf) (rest : List CompiledNode)
        → length (code t) ≤ fuel
        → eval_subtree fl fuel payload (code t ++ rest) ≡ some (value t, rest)
    eval-code zero (leaf l) rest h = absurd (omega arith)
    eval-code zero (all_of f) rest h = absurd (omega arith)
    eval-code zero (any_of f) rest h = absurd (omega arith)
    eval-code zero (negated t) rest h = absurd (omega arith)
    eval-code (suc fuel) (leaf l) rest h = refl
    eval-code (suc fuel) (all_of f) rest h = eval-every fuel f true rest (omega arith)
    eval-code (suc fuel) (any_of f) rest h = eval-some fuel f false rest (omega arith)
    eval-code (suc fuel) (negated t) rest h = rw (eval-code fuel t rest (omega arith)) refl

    eval-every :
        (fuel : ℕ) (f : Forest CompiledLeaf) (acc : Bool) (rest : List CompiledNode)
        → length (code_forest f) ≤ fuel
        → eval_children (eval_subtree fl fuel payload) ◌&&◌ (size f) acc (code_forest f ++ rest)
          ≡ some (acc && every (λ l. eval_leaf fl l payload) f, rest)
    eval-every fuel (one t) acc rest h =
        eval_children-step (eval_subtree fl fuel payload) ◌&&◌ 0 acc (value t) (code t ++ rest) rest
          (eval-code fuel t rest h)
    eval-every fuel (more t f) acc rest h = rw (append_assoc (code t) (code_forest f) rest) (
        eval_children-step (eval_subtree fl fuel payload) ◌&&◌ (size f) acc (value t)
          (code t ++ (code_forest f ++ rest)) (code_forest f ++ rest)
          (eval-code fuel t (code_forest f ++ rest)
            (omega (arith, length-append (code t) (code_forest f))))
        ∙ eval-every fuel f (acc && value t) rest
            (omega (arith, length-append (code t) (code_forest f)))
        ∙ ground arith)

    eval-some :
        (fuel : ℕ) (f : Forest CompiledLeaf) (acc : Bool) (rest : List CompiledNode)
        → length (code_forest f) ≤ fuel
        → eval_children (eval_subtree fl fuel payload) ◌||◌ (size f) acc (code_forest f ++ rest)
          ≡ some (acc || some_of (λ l. eval_leaf fl l payload) f, rest)
    eval-some fuel (one t) acc rest h =
        eval_children-step (eval_subtree fl fuel payload) ◌||◌ 0 acc (value t) (code t ++ rest) rest
          (eval-code fuel t rest h)
    eval-some fuel (more t f) acc rest h = rw (append_assoc (code t) (code_forest f) rest) (
        eval_children-step (eval_subtree fl fuel payload) ◌||◌ (size f) acc (value t)
          (code t ++ (code_forest f ++ rest)) (code_forest f ++ rest)
          (eval-code fuel t (code_forest f ++ rest)
            (omega (arith, length-append (code t) (code_forest f))))
        ∙ eval-some fuel f (acc || value t) rest
            (omega (arith, length-append (code t) (code_forest f)))
        ∙ ground arith)

  eval-root :
      (t : Tree CompiledLeaf)
      → eval_subtree fl (length (code t)) payload (code t) ≡ some (value t, [])
  eval-root t =
      subst (λ nodes. eval_subtree fl (length (code t)) payload nodes ≡ some (value t, []))
        (append-nil (code t)) (eval-code (length (code t)) t [] (omega arith))

  -- The evaluator, run on the compiled form of a tree, gives the value of the tree: no index is out of
  -- range, and the fuel does not run out.
  pub matches-code :
      (t : Tree CompiledLeaf) → matches fl (record { nodes = code t }) payload ≡ some (value t)
  unfolding matches matches_nodes code size
  matches-code (leaf l) = rw (eval-root (leaf l)) refl
  matches-code (all_of f) = rw (eval-root (all_of f)) refl
  matches-code (any_of f) = rw (eval-root (any_of f)) refl
  matches-code (negated t) = rw (eval-root (negated t)) refl
