-- ===== src/Container/Map.antt =====
-- `BTreeMap<Vec<u8>, V>`: the entries in the order of their keys.
use dots_rust.Prelude.{
  ℕ, ◌≡◌, refl, sym, ap, ◌∙◌, Bool, true, false, Option, none, some, List, [], ◌∷◌, if◌then◌else◌,
  compare, Ordering, arith, Bool-cases, inl, inr,
}

abbrev pub Bytes : Type 0
Bytes = List ℕ

abbrev then_with : Ordering → Ordering → Ordering
then_with Ordering.lt o = Ordering.lt
then_with Ordering.eq o = o
then_with Ordering.gt o = Ordering.gt

-- The lexicographic order of byte strings.
unfoldable pub compare_bytes : Bytes → Bytes → Ordering
compare_bytes [] [] = Ordering.eq
compare_bytes [] (y ∷ ys) = Ordering.lt
compare_bytes (x ∷ xs) [] = Ordering.gt
compare_bytes (x ∷ xs) (y ∷ ys) = then_with (compare x y) (compare_bytes xs ys)

abbrev pub is_eq : Ordering → Bool
is_eq Ordering.eq = true
is_eq _ = false

unfoldable pub same_key : Bytes → Bytes → Bool
unfolding compare_bytes
same_key k j = is_eq (compare_bytes k j)

module _ {ℓ} {V : Type ℓ} where
  unfoldable pub find : Bytes → List (Bytes × V) → Option V
  unfolding same_key
  find j [] = none
  find j ((k, v) ∷ rest) = if same_key k j then some v else find j rest

  abbrev pub placed :
      Ordering → Bytes × V → Bytes × V → List (Bytes × V) → List (Bytes × V) → List (Bytes × V)
  placed Ordering.lt new old rest inserted = new ∷ (old ∷ rest)
  placed Ordering.eq new old rest inserted = new ∷ rest
  placed Ordering.gt new old rest inserted = old ∷ inserted

  unfoldable pub insert : Bytes → V → List (Bytes × V) → List (Bytes × V)
  insert k v [] = (k, v) ∷ []
  insert k v (entry ∷ rest) = placed (compare_bytes k (entry.0)) (k, v) entry rest (insert k v rest)

  unfoldable pub remove : Bytes → List (Bytes × V) → List (Bytes × V)
  unfolding same_key
  remove k [] = []
  remove k ((j, v) ∷ rest) =
      let left = remove k rest in if same_key j k then left else (j, v) ∷ left

gt_not_eq : Ordering.gt ≡ Ordering.eq → ⊥
gt_not_eq h = ground arith

true_not_false : true ≡ false → ⊥
true_not_false h = ground arith

some-not_none {ℓ} : {A : Type ℓ} {a : A} → some a ≡ none → ⊥
some-not_none h = ground arith

then_with-eq :
    (o p : Ordering) → then_with o p ≡ Ordering.eq → (o ≡ Ordering.eq) × (p ≡ Ordering.eq)
then_with-eq Ordering.lt p h = absurd (ground arith)
then_with-eq Ordering.eq p h = (refl, h)
then_with-eq Ordering.gt p h = absurd (ground arith)

pub compare_bytes-eq : (k j : Bytes) → compare_bytes k j ≡ Ordering.eq → k ≡ j
unfolding compare_bytes
compare_bytes-eq [] [] h = refl
compare_bytes-eq [] (y ∷ ys) h = absurd (ground arith)
compare_bytes-eq (x ∷ xs) [] h = absurd (ground arith)
compare_bytes-eq (x ∷ xs) (y ∷ ys) h =
    let (first, others) = then_with-eq (compare x y) (compare_bytes xs ys) h in
    let e : x ≡ y = ground arith in λ i. e i ∷ compare_bytes-eq xs ys others i

pub same_key_refl : (k : Bytes) → same_key k k ≡ true
unfolding same_key compare_bytes
same_key_refl [] = refl
same_key_refl (x ∷ xs) = ground (arith, same_key_refl xs)

pub same_key-eq : (k j : Bytes) → same_key k j ≡ true → k ≡ j
unfolding same_key
same_key-eq k j h = compare_bytes-eq k j (ground arith)

-- Two keys that are the same as a third are the same.
pub same_key_joins :
    (i j k : Bytes) → same_key i j ≡ true → same_key k j ≡ true → same_key i k ≡ true
same_key_joins i j k h h' = ap (same_key i) (same_key-eq k j h') ∙ h

pub compare_bytes_joins :
    (i j k : Bytes) → same_key i j ≡ true → same_key k j ≡ true → compare_bytes k i ≡ Ordering.eq
unfolding same_key
compare_bytes_joins i j k h h' =
    let e : same_key k i ≡ true = ap (same_key k) (same_key-eq i j h) ∙ h' in ground arith

module _ {ℓ} {V : Type ℓ} where
  find-placed :
      (o : Ordering) (k j : Bytes) (v : V) (i : Bytes) (w : V) (rest : List (Bytes × V))
      → compare_bytes k i ≡ o
      → find j (insert k v rest) ≡ (if same_key k j then some v else find j rest)
      → find j (placed o (k, v) (i, w) rest (insert k v rest))
        ≡ (if same_key k j then some v else find j ((i, w) ∷ rest))
  unfolding find
  find-placed Ordering.lt k j v i w rest e ih = refl
  find-placed Ordering.eq k j v i w rest e ih =
      let same : same_key k j ≡ same_key i j = ap (λ x. same_key x j) (compare_bytes-eq k i e) in
      ground arith
  find-placed Ordering.gt k j v i w rest e ih = elim (Bool-cases (same_key i j)) [
    | inl here ↦ elim (Bool-cases (same_key k j)) [
      | inl both ↦ absurd (gt_not_eq (sym e ∙ compare_bytes_joins i j k here both))
      | inr other ↦ rw (here, other) refl
    ]
    | inr gone ↦ rw gone ih
  ]

  pub find-insert :
      (k j : Bytes) (v : V) (m : List (Bytes × V))
      → find j (insert k v m) ≡ (if same_key k j then some v else find j m)
  unfolding find insert
  find-insert k j v [] = refl
  find-insert k j v ((i, w) ∷ rest) =
      find-placed (compare_bytes k i) k j v i w rest refl (find-insert k j v rest)

  pub find-remove :
      (k j : Bytes) (m : List (Bytes × V))
      → find j (remove k m) ≡ (if same_key k j then none else find j m)
  unfolding find remove
  find-remove k j [] = ground arith
  find-remove k j ((i, w) ∷ rest) =
      let ih = find-remove k j rest in
      elim (Bool-cases (same_key i k)) [
        | inl here ↦
            let same : same_key i j ≡ same_key k j =
              ap (λ x. same_key x j) (same_key-eq i k here) in
            rw here (ground arith)
        | inr other ↦ elim (Bool-cases (same_key i j)) [
          | inl at ↦ elim (Bool-cases (same_key k j)) [
            | inl both ↦ absurd (true_not_false (sym (same_key_joins i j k at both) ∙ other))
            | inr apart ↦ rw (other, at, apart) refl
          ]
          | inr gone ↦ rw (other, gone) ih
        ]
      ]

  pub remove-absent : (k : Bytes) (m : List (Bytes × V)) → find k m ≡ none → remove k m ≡ m
  unfolding find remove
  remove-absent k [] h = refl
  remove-absent k ((i, w) ∷ rest) h = elim (Bool-cases (same_key i k)) [
    | inl here ↦ absurd (some-not_none (rw here at h))
    | inr other ↦ rw other (ap (λ m. (i, w) ∷ m) (remove-absent k rest (rw other at h)))
  ]
