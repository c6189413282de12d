-- ===== src/Dynamic/Copy/SwapRemove.antt =====
-- What `position` with `swap_remove` does to the other entries of a list of tagged values.
use dots_rust.Prelude.{
  ℕ, ◌≡◌, refl, inl, inr, true, false, Option, none, some, List, [], ◌∷◌, ◌++◌, arith, ◌==◌,
  if◌then◌else◌, Bool-cases,
}
use dots_rust.Dynamic.Value.{lookup}
use dots_rust.Dynamic.Copy.{split_last, swap_head, take_tag}

-- Each tag stands at most once.
abbrev pub Distinct {ℓ} : {V : Type ℓ} → List (ℕ × V) → Type ℓ
Distinct [] = Unit
Distinct ((t, v) ∷ rest) = (lookup t rest ≡ none) × Distinct rest

module _ {ℓ} {V : Type ℓ} where
  pub lookup-append :
      (t : ℕ) (xs ys : List (ℕ × V))
      → lookup t (xs ++ ys) ≡ elim (lookup t xs) [ none ↦ lookup t ys | some v ↦ some v ]
  unfolding lookup
  lookup-append t [] ys = refl
  lookup-append t ((u, v) ∷ xs) ys = ground (arith, lookup-append t xs ys)

-- The last item in front of the others: the tags stay distinct, and each has the value it had.
abbrev SplitKeeps {ℓ} : {V : Type ℓ} → List (ℕ × V) → Option (List (ℕ × V) × (ℕ × V)) → Type ℓ
SplitKeeps xs none = xs ≡ []
SplitKeeps xs (some (front, (k, w))) =
    Distinct ((k, w) ∷ front) × ((t : ℕ) → lookup t ((k, w) ∷ front) ≡ lookup t xs)

module _ {ℓ} {V : Type ℓ} where
  SplitKeeps-cons :
      (u : ℕ) (v : V) (xs : List (ℕ × V)) (o : Option (List (ℕ × V) × (ℕ × V)))
      → lookup u xs ≡ none
      → SplitKeeps xs o
      → SplitKeeps
          ((u, v) ∷ xs)
          (elim o [ none ↦ some ([], (u, v)) | some (front, last) ↦ some ((u, v) ∷ front, last) ])
  unfolding lookup
  SplitKeeps-cons u v xs none fresh e = ((refl, tt), λ t. rw e)
  SplitKeeps-cons u v xs (some (front, (k, w))) fresh ((missing, distinct), same) = (
    (ground (arith, same u, same k), (ground (arith, same u, same k), distinct)),
    λ t. ground (arith, same t, same u),
  )

  split_last-SplitKeeps : (xs : List (ℕ × V)) → Distinct xs → SplitKeeps xs (split_last xs)
  unfolding split_last
  split_last-SplitKeeps [] d = refl
  split_last-SplitKeeps ((u, v) ∷ xs) d =
      SplitKeeps-cons u v xs (split_last xs) d.0 (split_last-SplitKeeps xs d.1)

  SplitKeeps-head :
      (xs : List (ℕ × V)) (o : Option (List (ℕ × V) × (ℕ × V)))
      → SplitKeeps xs o
      → let left = elim o as (λ _. List (ℕ × V)) [
        | none ↦ []
        | some (front, last) ↦ last ∷ front
      ] in
        Distinct left × ((t : ℕ) → lookup t left ≡ lookup t xs)
  unfolding lookup
  SplitKeeps-head xs none e = (tt, λ t. rw e)
  SplitKeeps-head xs (some (front, (k, w))) h = h

  swap_head_keeps :
      (xs : List (ℕ × V))
      → Distinct xs
      → Distinct (swap_head xs) × ((t : ℕ) → lookup t (swap_head xs) ≡ lookup t xs)
  unfolding swap_head
  swap_head_keeps xs d = SplitKeeps-head xs (split_last xs) (split_last-SplitKeeps xs d)

-- `take_tag` hands out the value of the tag, and what is left has every other tag as before.
abbrev pub Taken {ℓ} : {V : Type ℓ} → ℕ → List (ℕ × V) → Option (V × List (ℕ × V)) → Type ℓ
Taken tag xs none = lookup tag xs ≡ none
Taken tag xs (some (v, left)) =
    (lookup tag xs ≡ some v)
    × Distinct left
    × ((t : ℕ) → lookup t left ≡ (if tag == t then none else lookup t xs))

module _ {ℓ} {V : Type ℓ} where
  Taken-head :
      (tag u : ℕ) (v : V) (xs : List (ℕ × V))
      → (u == tag) ≡ true
      → Distinct ((u, v) ∷ xs)
      → Taken tag ((u, v) ∷ xs) (some (v, swap_head xs))
  unfolding lookup
  Taken-head tag u v xs here d =
      let (distinct, same) = swap_head_keeps xs d.1 in
      (ground arith, distinct, λ t. ground (arith, same t, d.0))

  Taken-cons :
      (tag u : ℕ) (v : V) (xs : List (ℕ × V)) (o : Option (V × List (ℕ × V)))
      → (u == tag) ≡ false
      → lookup u xs ≡ none
      → Taken tag xs o
      → Taken tag ((u, v) ∷ xs) (elim o [ none ↦ none | some (w, left) ↦ some (w, (u, v) ∷ left) ])
  unfolding lookup
  Taken-cons tag u v xs none other fresh h = ground arith
  Taken-cons tag u v xs (some (w, left)) other fresh (found, distinct, same) =
      (ground arith, (ground (arith, same u), distinct), λ t. ground (arith, same t))

  pub take_tag-Taken : (tag : ℕ) (xs : List (ℕ × V)) → Distinct xs → Taken tag xs (take_tag tag xs)
  unfolding take_tag
  take_tag-Taken tag [] d = unfold lookup in refl
  take_tag-Taken tag ((u, v) ∷ xs) d = elim (Bool-cases (u == tag)) [
    | inl here ↦ rw here (Taken-head tag u v xs here d)
    | inr other ↦
        rw other (Taken-cons tag u v xs (take_tag tag xs) other d.0 (take_tag-Taken tag xs d.1))
  ]
