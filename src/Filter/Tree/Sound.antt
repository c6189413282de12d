-- ===== src/Filter/Tree/Sound.antt =====
-- Every predicate that compiles is the compiled form of a tree.
use dots_rust.Prelude.{
  ◌==◌, ℕ, zero, suc, ◌≤◌, ◌<◌, ◌≡◌, refl, sym, ap, ◌∙◌, false, not, List, [], ◌∷◌, ◌++◌,
  append_assoc, length, arith, unwrap_or,
}
use dots_rust.Dynamic.Kind.{DynamicStructDescriptor}
use dots_rust.Filter.Floats.{Floats}
use dots_rust.Filter.Wire.{DotsPredicateKind, DotsPredicateNode}
use dots_rust.Filter.Narrow.{bad_op_arity, bad_not_arity, missing_arity, malformed_leaf}
use dots_rust.Filter.Compile.{
  Outcome, ok, err, exhausted, ◌>>=◌, guard, ok_or, CompiledLeaf, CompiledNode, leaf_node, and_node,
  or_node, not_node, CompiledPredicate, Progress, compile_leaf, compile_node, compile_subtree,
  repeat, whole,
}
use dots_rust.Filter.Tree.{
  Tree, leaf, all_of, any_of, negated, Forest, one, more, size, code, code_forest,
}
use dots_rust.Filter.Tree.Outcomes.{ok-injective}
use dots_rust.Filter.Tree.Final.{IsFinal, ok_or-IsFinal, guard-IsFinal, compile_leaf-IsFinal}

-- What came out: a tree's code was appended, and nodes were consumed.
pub record Compiled (s r : Progress) : Type 0 where
  pub tree : Tree CompiledLeaf
  appended : r.1 ≡ s.1 ++ code tree
  consumed : length r.0 < length s.0

record CompiledForest (n : ℕ) (s r : Progress) : Type 0 where
  forest : Forest CompiledLeaf
  size_is : size forest ≡ n
  appended : r.1 ≡ s.1 ++ code_forest forest
  consumed : length r.0 < length s.0

-- A step on `s` with result `m` ends in its time.
unfoldable pub Ends : (Progress → Progress → Type 0) → Progress → Outcome Progress → Type 0
Ends R s (ok r) = R s r
Ends R s (err e) = Unit
Ends R s exhausted = ⊥

module _ (R S : Progress → Progress → Type 0) (s s' : Progress) where
  bind-Ends :
      (m : Outcome Progress) (f : Progress → Outcome Progress)
      → Ends R s m
      → ((r : Progress) → R s r → Ends S s' (f r))
      → Ends S s' (m >>= f)
  unfolding Ends
  bind-Ends (ok r) f h k = k r h
  bind-Ends (err e) f h k = tt
  bind-Ends exhausted f h k = absurd h

  Ends-mono : (m : Outcome Progress) → Ends R s m → ((r : Progress) → R s r → S s' r) → Ends S s' m
  unfolding Ends
  Ends-mono (ok r) h k = k r h
  Ends-mono (err e) h k = tt
  Ends-mono exhausted h k = absurd h

through {ℓ} :
    {A : Type ℓ} (m : Outcome A) (f : A → Outcome Progress) (R : Progress → Progress → Type 0)
    (s : Progress)
    → IsFinal m
    → ((a : A) → Ends R s (f a))
    → Ends R s (m >>= f)
unfolding Ends IsFinal
through (ok a) f R s h k = k a
through (err e) f R s h k = tt
through exhausted f R s h k = absurd h

negated_operand :
    (node : DotsPredicateNode) (src : List DotsPredicateNode) (out : List CompiledNode)
    (r : Progress)
    → Compiled (src, out ++ not_node ∷ []) r
    → Compiled (node ∷ src, out) r
unfolding code
negated_operand node src out r c = record {
  tree = negated c.tree;
  appended = c.appended ∙ append_assoc out (not_node ∷ []) (code c.tree);
  consumed = omega (arith, c.consumed);
}

leaf-Ends :
    (c : CompiledLeaf) (node : DotsPredicateNode) (src : List DotsPredicateNode)
    (out : List CompiledNode)
    → Ends Compiled (node ∷ src, out) (ok (src, out ++ leaf_node c ∷ []))
unfolding Ends code
leaf-Ends c node src out = record { tree = leaf c; appended = refl; consumed = omega arith }

suc-not_zero : (n : ℕ) → (suc n == 0) ≡ false
suc-not_zero n = ground arith

one_operand : (s r : Progress) → Compiled s r → CompiledForest 1 s r
unfolding code_forest size
one_operand s r c = record {
  forest = one c.tree;
  size_is = refl;
  appended = c.appended;
  consumed = c.consumed;
}

more_operands :
    (n : ℕ) (s r t : Progress) → Compiled s r → CompiledForest n r t → CompiledForest (suc n) s t
unfolding code_forest size
more_operands n s r t c f = record {
  forest = more c.tree f.forest;
  size_is = ap suc f.size_is;
  appended =
      f.appended
      ∙ ap (λ o. o ++ code_forest f.forest) c.appended
      ∙ append_assoc s.1 (code c.tree) (code_forest f.forest);
  consumed = omega (arith, c.consumed, f.consumed);
}

module _ (f : Progress → Outcome Progress) (k : ℕ)
    (h : (s : Progress) → length s.0 ≤ k → Ends Compiled s (f s)) where
  repeat-Ends :
      (n : ℕ) (s : Progress) → length s.0 ≤ k → Ends (CompiledForest (suc n)) s (repeat (suc n) f s)
  unfolding repeat
  repeat-Ends zero s le =
      bind-Ends Compiled (CompiledForest 1) s s (f s) (repeat zero f) (h s le)
        (λ r c. unfold Ends in one_operand s r c)
  repeat-Ends (suc n) s le =
      bind-Ends Compiled (CompiledForest (suc (suc n))) s s (f s) (repeat (suc n) f) (h s le)
        (λ r c.
          Ends-mono (CompiledForest (suc n)) (CompiledForest (suc (suc n))) r s (repeat (suc n) f r)
            (repeat-Ends n r (omega (arith, c.consumed))) (λ t g. more_operands (suc n) s r t c g))

  connective-Ends :
      (connective : ℕ → CompiledNode) (join : Forest CompiledLeaf → Tree CompiledLeaf) (arity : ℕ)
      (node : DotsPredicateNode) (src : List DotsPredicateNode) (out : List CompiledNode)
      → ((g : Forest CompiledLeaf) → code (join g) ≡ connective (size g) ∷ code_forest g)
      → length src ≤ k
      → Ends Compiled
          (node ∷ src, out)
          (guard (not (arity == 0)) (bad_op_arity arity)
            >>= (λ _. repeat arity f (src, out ++ connective arity ∷ [])))
  connective-Ends connective join zero node src out e le = unfold Ends in tt
  connective-Ends connective join (suc n) node src out e le = rw (suc-not_zero n) (
      Ends-mono (CompiledForest (suc n)) Compiled (src, out ++ connective (suc n) ∷ [])
        (node ∷ src, out) (repeat (suc n) f (src, out ++ connective (suc n) ∷ []))
        (repeat-Ends n (src, out ++ connective (suc n) ∷ []) le)
        (λ r g. record {
          tree = join g.forest;
          appended =
              g.appended
              ∙ append_assoc out (connective (suc n) ∷ []) (code_forest g.forest)
              ∙ ap (λ c. out ++ c)
                  (ap (λ m. connective m ∷ code_forest g.forest) (sym g.size_is)
                    ∙ sym (e g.forest));
          consumed = omega (arith, g.consumed);
        }))

module _ (fl : Floats) (d : DynamicStructDescriptor) where
  compile_node-Ends :
      (f : Progress → Outcome Progress) (k : ℕ)
      → ((s : Progress) → length s.0 ≤ k → Ends Compiled s (f s))
      → (kind : DotsPredicateKind) (node : DotsPredicateNode) (src : List DotsPredicateNode)
        (out : List CompiledNode)
      → length src ≤ k
      → Ends Compiled (node ∷ src, out) (compile_node fl d f kind node (src, out))
  unfolding compile_node
  compile_node-Ends f k h DotsPredicateKind.leaf node src out le =
      through (ok_or node.leaf malformed_leaf) _ Compiled (node ∷ src, out)
        (ok_or-IsFinal node.leaf malformed_leaf)
        (λ l.
          through (compile_leaf fl l d) _ Compiled (node ∷ src, out) (compile_leaf-IsFinal fl l d)
            (λ c. leaf-Ends c node src out))
  compile_node-Ends f k h DotsPredicateKind.and_op node src out le =
      through (ok_or node.arity missing_arity) _ Compiled (node ∷ src, out)
        (ok_or-IsFinal node.arity missing_arity)
        (λ arity.
          connective-Ends f k h and_node all_of arity node src out (λ g. unfold code in refl) le)
  compile_node-Ends f k h DotsPredicateKind.or_op node src out le =
      through (ok_or node.arity missing_arity) _ Compiled (node ∷ src, out)
        (ok_or-IsFinal node.arity missing_arity)
        (λ arity.
          connective-Ends f k h or_node any_of arity node src out (λ g. unfold code in refl) le)
  compile_node-Ends f k h DotsPredicateKind.not_op node src out le =
      through (guard (unwrap_or node.arity 1 == 1) (bad_not_arity (unwrap_or node.arity 1))) _
        Compiled (node ∷ src, out)
        (guard-IsFinal (unwrap_or node.arity 1 == 1) (bad_not_arity (unwrap_or node.arity 1)))
        (λ _.
          Ends-mono Compiled Compiled (src, out ++ not_node ∷ []) (node ∷ src, out)
            (f (src, out ++ not_node ∷ [])) (h (src, out ++ not_node ∷ []) le)
            (negated_operand node src out))

  pub compile_subtree-Ends :
      (fuel : ℕ) (s : Progress) → length s.0 ≤ fuel → Ends Compiled s (compile_subtree fl d fuel s)
  unfolding compile_subtree
  compile_subtree-Ends fuel ([], out) le = unfold Ends in tt
  compile_subtree-Ends zero (node ∷ src, out) le = absurd (omega arith)
  compile_subtree-Ends (suc fuel) (node ∷ src, out) le =
      through (ok_or node.kind malformed_leaf) _ Compiled (node ∷ src, out)
        (ok_or-IsFinal node.kind malformed_leaf)
        (λ kind.
          compile_node-Ends (compile_subtree fl d fuel) fuel (compile_subtree-Ends fuel) kind node
            src out (omega arith))

  -- What a call of `compile` gives that came out well.
  pub whole-Ends :
      (s : Progress) (m : Outcome Progress) (c : CompiledPredicate)
      → Ends Compiled s m
      → m >>= whole ≡ ok c
      → (t : Tree CompiledLeaf) × (c.nodes ≡ s.1 ++ code t)
  unfolding Ends
  whole-Ends s (ok ([], out)) c h e =
      (h.tree, ap (λ p. p.nodes) (sym (ok-injective e)) ∙ h.appended)
  whole-Ends s (ok (node ∷ src, out)) c h e = absurd (ground arith)
  whole-Ends s (err x) c h e = absurd (ground arith)
  whole-Ends s exhausted c h e = absurd h
