-- ===== src/Host/Descriptors/Ends.antt =====
-- The search for dependencies ends, and sends every descriptor that was asked for.
use dots_rust.Prelude.{
  ℕ, zero, suc, ◌+◌, ◌≤◌, ◌<◌, ◌≡◌, refl, sym, ap, ◌∙◌, String, true, false, ◌||◌, Option, none,
  some, List, [], ◌∷◌, ◌++◌, if◌then◌else◌, arith, Bool-cases, Option-cases, inl, inr, str_eq,
  str_eq_iff, length,
}
use dots_rust.Prelude.Assoc.{lookup, string_key}
use dots_rust.Dynamic.Kind.{
  DynamicFieldKind, DynamicStructDescriptor, DynamicPropertyDescriptor, name_of, properties_of, vec,
  struct,
}
use dots_rust.Host.Descriptors.{
  Progress, Names, is_among, walk_field, walk_fields, visit_descriptor, pushed,
}

-- How many of the names were not visited.
pub unvisited : List String → List String → ℕ
unvisited [] visited = 0
unvisited (n ∷ ns) visited = (if is_among n visited then 0 else 1) + unvisited ns visited

pub unvisited-le : (ns visited : List String) → unvisited ns visited ≤ length ns
unfolding unvisited
unvisited-le [] visited = omega arith
unvisited-le (n ∷ ns) visited = ground (arith, unvisited-le ns visited)

unvisited-visit :
    (ns : List String) (n : String) (visited : List String)
    → unvisited ns (n ∷ visited) ≤ unvisited ns visited
unfolding unvisited is_among
unvisited-visit [] n visited = omega arith
unvisited-visit (m ∷ ns) n visited = ground (arith, unvisited-visit ns n visited)

-- A visit of a name that was not visited is one of them less.
unvisited-falls :
    (ns : List String) (n : String) (visited : List String)
    → is_among n ns ≡ true
    → is_among n visited ≡ false
    → unvisited ns (n ∷ visited) < unvisited ns visited
unfolding unvisited is_among
unvisited-falls [] n visited h fresh = cc
unvisited-falls (m ∷ ns) n visited h fresh = elim (Bool-cases (str_eq m n)) [
  | inl at ↦
      let e : m ≡ n = (str_eq_iff m n).0 at in
      let fresh' : is_among m visited ≡ false = ap (λ k. is_among k visited) e ∙ fresh in
      let same : str_eq n m ≡ true = (str_eq_iff n m).1 (sym e) in
      ground (arith, unvisited-visit ns n visited)
  | inr other ↦ ground (arith, unvisited-falls ns n visited)
]

abbrev pub names : List DynamicStructDescriptor → List String
names [] = []
names (d ∷ ds) = name_of d ∷ names ds

is_among-append :
    (n : String) (ds : List DynamicStructDescriptor) (d : DynamicStructDescriptor)
    → is_among n (names (ds ++ d ∷ [])) ≡ (is_among n (names ds) || str_eq (name_of d) n)
unfolding is_among
is_among-append n [] d = ground arith
is_among-append n (e ∷ ds) d = ground (arith, is_among-append n ds d)

module _ (universe : List String) where
  -- Visited names stay so and descriptors stay out; a name that was visited in between is out.
  pub record Grows (p q : Progress) : Type 0 where
    pub fewer : unvisited universe q.0 ≤ unvisited universe p.0
    pub kept : (n : String) → is_among n p.0 ≡ true → is_among n q.0 ≡ true
    pub sent : (n : String) → is_among n (names p.1) ≡ true → is_among n (names q.1) ≡ true
    pub new :
        (n : String)
        → is_among n q.0 ≡ true
        → is_among n p.0 ≡ false
        → is_among n (names q.1) ≡ true

  pub Grows-refl : (p : Progress) → Grows p p
  Grows-refl p = record {
    fewer = omega arith;
    kept = λ n h. h;
    sent = λ n h. h;
    new = λ n h gone. cc;
  }

  pub Grows-trans : (p q r : Progress) → Grows p q → Grows q r → Grows p r
  Grows-trans p q r g h = record {
    fewer = omega (arith, g.fewer, h.fewer);
    kept = λ n e. h.kept n (g.kept n e);
    sent = λ n e. h.sent n (g.sent n e);
    new = λ n e gone. elim (Bool-cases (is_among n q.0)) [
      | inl then_there ↦ h.sent n (g.new n then_there gone)
      | inr later ↦ h.new n e later
    ];
  }

  -- A result that grew.
  abbrev pub Ends : Progress → Option Progress → Type 0
  Ends p none = ⊥
  Ends p (some q) = Grows p q

  -- A visit also marks its name.
  abbrev pub Visits : String → Progress → Option Progress → Type 0
  Visits name p none = ⊥
  Visits name p (some q) = Grows p q × (is_among name q.0 ≡ true)

  Visits-Ends : (name : String) (p : Progress) (o : Option Progress) → Visits name p o → Ends p o
  Visits-Ends name p none h = h
  Visits-Ends name p (some q) h = h.0

  pub Ends-trans : (p q : Progress) (o : Option Progress) → Grows p q → Ends q o → Ends p o
  Ends-trans p q none g h = h
  Ends-trans p q (some r) g h = Grows-trans p q r g h

  module _ (by_name : Names) (fuel : ℕ)
      (visit : DynamicStructDescriptor → Progress → Option Progress)
      (known : (name : String) (node : DynamicStructDescriptor)
        → lookup name by_name ≡ some node
        → is_among (name_of node) universe ≡ true)
      (visits : (node : DynamicStructDescriptor) (p : Progress)
        → is_among (name_of node) universe ≡ true
        → unvisited universe p.0 ≤ fuel
        → Visits (name_of node) p (visit node p)) where
    walk_field-Ends :
        (kind : DynamicFieldKind) (p : Progress)
        → unvisited universe p.0 ≤ fuel
        → Ends p (walk_field visit by_name kind p)
    unfolding walk_field
    walk_field-Ends (vec inner) p h = walk_field-Ends inner p h
    walk_field-Ends (struct child) p h = elim (Option-cases (lookup (name_of child) by_name)) [
      | inl e ↦ rw (e, walk_field) (Grows-refl p)
      | inr (node, e) ↦
          rw (e, walk_field)
            (Visits-Ends (name_of node) p (visit node p)
              (visits node p (known (name_of child) node e) h))
    ]
    walk_field-Ends other p h = Grows-refl p

    pub walk_fields-Ends :
        (fields : List DynamicPropertyDescriptor) (p : Progress)
        → unvisited universe p.0 ≤ fuel
        → Ends p (walk_fields visit by_name fields p)
    unfolding walk_fields
    walk_fields-Ends [] p h = Grows-refl p
    walk_fields-Ends (f ∷ fields) p h =
        let first = walk_field-Ends f.kind p h in
        elim (Option-cases (walk_field visit by_name f.kind p)) [
          | inl e ↦ absurd (rw e at first)
          | inr (q, e) ↦
              let g : Grows p q = rw e at first in
              rw (e, walk_fields)
                (Ends-trans p q (walk_fields visit by_name fields q) g
                  (walk_fields-Ends fields q (omega (arith, g.fewer))))
        ]

  -- A visited name and, behind its walk, its descriptor.
  pushed-Grows :
      (node : DynamicStructDescriptor) (visited : List String) (out : List DynamicStructDescriptor)
      (q : Progress)
      → Grows (name_of node ∷ visited, out) q
      → Grows (visited, out) (q.0, q.1 ++ node ∷ [])
  unfolding is_among
  pushed-Grows node visited out q g = record {
    fewer = omega (arith, g.fewer, unvisited-visit universe (name_of node) visited);
    kept = λ n e. g.kept n (ground arith);
    sent = λ n e. ground (arith, g.sent n e, is_among-append n q.1 node);
    new = λ n e gone. ground (arith, g.new n e, is_among-append n q.1 node);
  }

  pushed-Visits :
      (node : DynamicStructDescriptor) (visited : List String) (out : List DynamicStructDescriptor)
      (o : Option Progress)
      → Ends (name_of node ∷ visited, out) o
      → Visits (name_of node) (visited, out) (pushed node o)
  unfolding is_among
  pushed-Visits node visited out none h = h
  pushed-Visits node visited out (some q) h = (
    pushed-Grows node visited out q h,
    h.kept (name_of node) (ground (arith, (str_eq_iff (name_of node) (name_of node)).1 refl)),
  )

  module _ (by_name : Names)
      (known : (name : String) (node : DynamicStructDescriptor)
        → lookup name by_name ≡ some node
        → is_among (name_of node) universe ≡ true) where
    pub visit_descriptor-Ends :
        (fuel : ℕ) (node : DynamicStructDescriptor) (p : Progress)
        → is_among (name_of node) universe ≡ true
        → unvisited universe p.0 ≤ fuel
        → Visits (name_of node) p (visit_descriptor fuel by_name node p)
    unfolding visit_descriptor
    visit_descriptor-Ends zero node (visited, out) there h =
        elim (Bool-cases (is_among (name_of node) visited)) [
          | inl old ↦ rw old (Grows-refl (visited, out), old)
          | inr fresh ↦
              absurd (omega (arith, unvisited-falls universe (name_of node) visited there fresh))
        ]
    visit_descriptor-Ends (suc fuel) node (visited, out) there h =
        elim (Bool-cases (is_among (name_of node) visited)) [
          | inl old ↦ rw old (Grows-refl (visited, out), old)
          | inr fresh ↦
              let walked =
                walk_fields-Ends by_name fuel (visit_descriptor fuel by_name) known
                  (visit_descriptor-Ends fuel) (properties_of node) (name_of node ∷ visited, out)
                  (omega (arith, unvisited-falls universe (name_of node) visited there fresh)) in
              rw fresh (
                pushed-Visits node visited out
                  (walk_fields (visit_descriptor fuel by_name) by_name (properties_of node)
                    (name_of node ∷ visited, out))
                  walked)
        ]
