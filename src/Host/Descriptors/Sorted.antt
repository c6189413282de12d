-- ===== src/Host/Descriptors/Sorted.antt =====
-- The sorted descriptors hold every descriptor that was asked for.
use dots_rust.Prelude.{
  ℕ, suc, ◌≤◌, ◌≡◌, refl, sym, ap, ◌∙◌, String, true, Option, none, some, List, [], ◌∷◌, arith,
  Bool-cases, Option-cases, inl, inr, str_eq, str_eq_iff, length, All,
}
use dots_rust.Prelude.Assoc.{lookup, put, string_key, lookup-put}
use dots_rust.Dynamic.Kind.{DynamicStructDescriptor, name_of}
use dots_rust.Host.Descriptors.{
  Progress, Names, is_among, visit_descriptor, visit_all, collect_names, result,
  sort_descriptors_by_dependency,
}
use dots_rust.Host.Descriptors.Ends.{
  unvisited, unvisited-le, names, Grows, Grows-refl, Grows-trans, visit_descriptor-Ends,
}

abbrev Known : List String → Names → Type 0
Known universe by_name =
    (name : String) (node : DynamicStructDescriptor)
    → lookup name by_name ≡ some node
    → is_among (name_of node) universe ≡ true

some_inj {ℓ} : {A : Type ℓ} {a b : A} → some a ≡ some b → a ≡ b
some_inj h = cc

-- Every name that the search looks up is one of those that were asked for.
collect_names-Known :
    (universe : List String) (ds : List DynamicStructDescriptor) (by_name : Names)
    → All (λ d. is_among (name_of d) universe ≡ true) ds
    → Known universe by_name
    → Known universe (collect_names ds by_name)
unfolding collect_names
collect_names-Known universe [] by_name h known = known
collect_names-Known universe (d ∷ ds) by_name h known =
    collect_names-Known universe ds (put (name_of d) d by_name) h.1 (λ name node e.
      elim (Bool-cases (str_eq (name_of d) name)) [
        | inl at ↦
            let same : d ≡ node = some_inj (rw (lookup-put (name_of d) name d by_name, at) at e) in
            ap (λ d. is_among (name_of d) universe) (sym same) ∙ h.0
        | inr other ↦ known name node (rw (lookup-put (name_of d) name d by_name, other) at e)
      ])

among-own :
    (ds : List DynamicStructDescriptor) (universe : List String)
    → ((n : String) → is_among n (names ds) ≡ true → is_among n universe ≡ true)
    → All (λ d. is_among (name_of d) universe ≡ true) ds
unfolding is_among
among-own [] universe h = tt
among-own (d ∷ ds) universe h = (
  h (name_of d) (ground (arith, (str_eq_iff (name_of d) (name_of d)).1 refl)),
  among-own ds universe (λ n e. h n (ground arith)),
)

nothing_known :
    (name : String) (node : DynamicStructDescriptor) {A : Type 0} → lookup name [] ≡ some node → A
unfolding lookup
nothing_known name node e = absurd (ground arith)

fits :
    {universe : List String} {p q : Progress} {fuel : ℕ}
    → Grows universe p q
    → unvisited universe p.0 ≤ fuel
    → unvisited universe q.0 ≤ fuel
fits g h = omega (arith, g.fewer)

module _ (universe : List String) (by_name : Names) (known : Known universe by_name) where
  -- What holds behind the loop over the descriptors.
  Sent : List DynamicStructDescriptor → Progress → Option Progress → Type 0
  Sent ds p none = ⊥
  Sent ds p (some q) = Grows universe p q × All (λ d. is_among (name_of d) q.0 ≡ true) ds

  Sent-cons :
      (d : DynamicStructDescriptor) (ds : List DynamicStructDescriptor) (p q : Progress)
      (o : Option Progress)
      → Grows universe p q
      → is_among (name_of d) q.0 ≡ true
      → Sent ds q o
      → Sent (d ∷ ds) p o
  unfolding Sent
  Sent-cons d ds p q none g m h = h
  Sent-cons d ds p q (some r) g m h =
      (Grows-trans universe p q r g h.0, (h.0.kept (name_of d) m, h.1))

  visit_all-Sent :
      (fuel : ℕ) (ds : List DynamicStructDescriptor) (p : Progress)
      → All (λ d. is_among (name_of d) universe ≡ true) ds
      → unvisited universe p.0 ≤ fuel
      → Sent ds p (visit_all fuel by_name ds p)
  unfolding visit_all Sent
  visit_all-Sent fuel [] p a h = (Grows-refl universe p, tt)
  visit_all-Sent fuel (d ∷ ds) p a h =
      let first = visit_descriptor-Ends universe by_name known fuel d p a.0 h in
      elim (Option-cases (visit_descriptor fuel by_name d p)) [
        | inl e ↦ absurd (rw e at first)
        | inr (q, e) ↦
            let g : Grows universe p q × (is_among (name_of d) q.0 ≡ true) = rw e at first in
            rw (e, visit_all)
              (Sent-cons d ds p q (visit_all fuel by_name ds q) g.0 g.1
                (visit_all-Sent fuel ds q a.1 (fits g.0 h)))
      ]

-- A result, with a descriptor of every name.
abbrev pub HoldsAll : List DynamicStructDescriptor → Option (List DynamicStructDescriptor) → Type 0
HoldsAll ds none = ⊥
HoldsAll ds (some out) = All (λ d. is_among (name_of d) (names out) ≡ true) ds

sent_names :
    (ds : List DynamicStructDescriptor) (universe : List String) (q : Progress)
    → Grows universe ([], []) q
    → All (λ d. is_among (name_of d) q.0 ≡ true) ds
    → All (λ d. is_among (name_of d) (names q.1) ≡ true) ds
unfolding is_among
sent_names [] universe q g h = tt
sent_names (d ∷ ds) universe q g h = (g.new (name_of d) h.0 refl, sent_names ds universe q g h.1)

result-HoldsAll :
    (universe : List String) (by_name : Names) (known : Known universe by_name)
    (ds : List DynamicStructDescriptor) (o : Option Progress)
    → Sent universe by_name known ds ([], []) o
    → HoldsAll ds (result o)
unfolding Sent
result-HoldsAll universe by_name known ds none h = h
result-HoldsAll universe by_name known ds (some q) h = sent_names ds universe q h.0 h.1

length-names : (ds : List DynamicStructDescriptor) → length (names ds) ≡ length ds
length-names [] = refl
length-names (d ∷ ds) = ap suc (length-names ds)

-- The search for dependencies ends for every list of descriptors, whatever they refer to, and what it
-- gives holds a descriptor of every name in the list.
pub sort-HoldsAll :
    (ds : List DynamicStructDescriptor) → HoldsAll ds (sort_descriptors_by_dependency ds)
unfolding sort_descriptors_by_dependency
sort-HoldsAll ds =
    let universe = names ds in
    let own = among-own ds universe (λ n e. e) in
    let known : Known universe (collect_names ds []) =
      collect_names-Known universe ds [] own (λ name node e. nothing_known name node e) in
    result-HoldsAll universe (collect_names ds []) known ds
      (visit_all (length ds) (collect_names ds []) ds ([], []))
      (visit_all-Sent universe (collect_names ds []) known (length ds) ds ([], []) own
        (omega (arith, unvisited-le universe [], length-names ds)))
