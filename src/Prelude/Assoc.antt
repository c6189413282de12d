-- ===== src/Prelude/Assoc.antt =====
-- Maps as association lists over keys with an equality test.
use Prim.Native.Nat.{ℕ}
use Prim.Native.String.{String}
use mathlib.Core.Path.{◌≡◌, refl, ap, ◌∙◌, sym}
use mathlib.Core.Logic.{◌↔◌, inl, inr}
use mathlib.Core.Bool.{Bool, true, false, ◌&&◌}
use mathlib.Core.Option.{Option, none, some}
use mathlib.Core.List.{List, [], ◌∷◌}
use native.Mathlib.Omega.{arith}
use text.Mathlib.Text.{◌==◌ as str_eq}
use text.Mathlib.TextEquality.{eq_iff}
use dots_rust.Prelude.Tests.{◌==◌ as nat_eq, ==_iff, if◌then◌else◌, Bool-cases}

pub record Eq (K : Type 0) : Type 0 where
  pub beq : K → K → Bool
  pub beq_iff : (a b : K) → (beq a b ≡ true) ↔ (a ≡ b)

instance abbrev pub nat_key : Eq ℕ
nat_key = record { beq = nat_eq; beq_iff = ==_iff }

instance abbrev pub string_key : Eq String
string_key = record { beq = str_eq; beq_iff = eq_iff }

abbrev pub pair_eq : ℕ × ℕ → ℕ × ℕ → Bool
pair_eq (a, b) (c, d) = nat_eq a c && nat_eq b d

pub pair_eq_iff : (p q : ℕ × ℕ) → (pair_eq p q ≡ true) ↔ (p ≡ q)
pair_eq_iff (a, b) (c, d) = ground arith

instance abbrev pub pair_key : Eq (ℕ × ℕ)
pair_key = record { beq = pair_eq; beq_iff = pair_eq_iff }

module _ {K : Type 0} ⦃e : Eq K⦄ {V : Type 0} where
  unfoldable pub lookup : K → List (K × V) → Option V
  lookup j [] = none
  lookup j ((k, v) ∷ m) = if e.beq k j then some v else lookup j m

  unfoldable pub erase : K → List (K × V) → List (K × V)
  erase j [] = []
  erase j ((k, v) ∷ m) = let rest = erase j m in if e.beq k j then rest else (k, v) ∷ rest

  unfoldable pub put : K → V → List (K × V) → List (K × V)
  unfolding erase
  put k v m = (k, v) ∷ erase k m

  -- The entries that pass a test.
  unfoldable pub keep : (K → V → Bool) → List (K × V) → List (K × V)
  keep p [] = []
  keep p ((k, v) ∷ m) = let rest = keep p m in if p k v then (k, v) ∷ rest else rest

  unfoldable pub map_values : (V → V) → List (K × V) → List (K × V)
  map_values f [] = []
  map_values f ((k, v) ∷ m) = (k, f v) ∷ map_values f m

  -- A predicate of every entry.
  abbrev pub Every {κ} : (K → V → Type κ) → List (K × V) → Type κ
  Every P [] = Unit
  Every P ((k, v) ∷ m) = P k v × Every P m

  -- No key stands twice.
  abbrev pub IsMap : List (K × V) → Type 0
  IsMap [] = Unit
  IsMap ((k, v) ∷ m) = (lookup k m ≡ none) × IsMap m

some_inj {ℓ} : {A : Type ℓ} {a b : A} → some a ≡ some b → a ≡ b
some_inj h = cc

true_not_false : true ≡ false → ⊥
true_not_false h = ground arith

none_not_some {ℓ} : {A : Type ℓ} {a : A} → none ≡ some a → ⊥
none_not_some h = ground arith

abbrev pub map_option {ℓ κ} : {A : Type ℓ} {B : Type κ} → (A → B) → Option A → Option B
map_option f none = none
map_option f (some a) = some (f a)

abbrev pub kept {ℓ} : {A : Type ℓ} → (A → Bool) → Option A → Option A
kept p none = none
kept p (some a) = if p a then some a else none

pub beq_refl : {K : Type 0} ⦃e : Eq K⦄ (k : K) → e.beq k k ≡ true
beq_refl ⦃e⦄ k = (e.beq_iff k k).1 refl

-- Keys that are equal test alike.
pub beq_joins :
    {K : Type 0} ⦃e : Eq K⦄ (i j k : K) → e.beq i j ≡ true → e.beq i k ≡ false → e.beq k j ≡ false
beq_joins ⦃e⦄ i j k at other = elim (Bool-cases (e.beq k j)) [
  | inl both ↦
      let same : i ≡ k = (e.beq_iff i j).0 at ∙ sym ((e.beq_iff k j).0 both) in
      absurd (true_not_false (sym ((e.beq_iff i k).1 same) ∙ other))
  | inr apart ↦ apart
]

absorb {ℓ} :
    {A : Type ℓ} (b : Bool) (x y z : A)
    → (if b then x else z) ≡ (if b then x else if b then y else z)
absorb true x y z = refl
absorb false x y z = refl

both_none {ℓ} : {A : Type ℓ} (b : Bool) (o : Option A) → o ≡ none → (if b then none else o) ≡ none
both_none true o h = refl
both_none false o h = h

module _ {K : Type 0} ⦃e : Eq K⦄ {V : Type 0} where
  pub lookup-erase :
      (k j : K) (m : List (K × V)) → lookup j (erase k m) ≡ (if e.beq k j then none else lookup j m)
  unfolding lookup erase
  lookup-erase k j [] = ground arith
  lookup-erase k j ((i, v) ∷ m) =
      let ih = lookup-erase k j m in
      elim (Bool-cases (e.beq i k)) [
        | inl same ↦
            rw same
              (rw ((e.beq_iff i k).0 same) (ih ∙ absorb (e.beq k j) none (some v) (lookup j m)))
        | inr other ↦ elim (Bool-cases (e.beq i j)) [
          | inl at ↦ rw (other, at, beq_joins i j k at other) refl
          | inr gone ↦ rw (other, gone) ih
        ]
      ]

  pub lookup-put :
      (k j : K) (v : V) (m : List (K × V))
      → lookup j (put k v m) ≡ (if e.beq k j then some v else lookup j m)
  unfolding lookup put
  lookup-put k j v m = elim (Bool-cases (e.beq k j)) [
    | inl at ↦ rw at refl
    | inr gone ↦ rw gone (lookup-erase k j m ∙ rw gone refl)
  ]

  pub lookup-map_values :
      (f : V → V) (j : K) (m : List (K × V)) → lookup j (map_values f m) ≡ map_option f (lookup j m)
  unfolding lookup map_values
  lookup-map_values f j [] = refl
  lookup-map_values f j ((i, v) ∷ m) = elim (Bool-cases (e.beq i j)) [
    | inl at ↦ rw at refl
    | inr gone ↦ rw gone (lookup-map_values f j m)
  ]

  lookup-keep-none :
      (p : K → V → Bool) (j : K) (m : List (K × V)) → lookup j m ≡ none → lookup j (keep p m) ≡ none
  unfolding lookup keep
  lookup-keep-none p j [] h = refl
  lookup-keep-none p j ((i, v) ∷ m) h = ground (arith, lookup-keep-none p j m)

  -- In a map the entry of a key is kept when it passes.
  pub lookup-keep :
      (p : K → V → Bool) (j : K) (m : List (K × V))
      → IsMap m
      → lookup j (keep p m) ≡ kept (p j) (lookup j m)
  unfolding lookup keep
  lookup-keep p j [] h = refl
  lookup-keep p j ((i, v) ∷ m) h = elim (Bool-cases (e.beq i j)) [
    | inl at ↦
        let same : i ≡ j = (e.beq_iff i j).0 at in
        let gone : lookup j (keep p m) ≡ none =
          lookup-keep-none p j m (ap (λ k. lookup k m) (sym same) ∙ h.0) in
        let test : p i v ≡ p j v = ap (λ k. p k v) same in ground arith
    | inr gone ↦ ground (arith, lookup-keep p j m h.1)
  ]

  pub erase-IsMap : (k : K) (m : List (K × V)) → IsMap m → IsMap (erase k m)
  unfolding erase
  erase-IsMap k [] h = tt
  erase-IsMap k ((i, v) ∷ m) h = elim (Bool-cases (e.beq i k)) [
    | inl at ↦ rw at (erase-IsMap k m h.1)
    | inr other ↦
        rw other (lookup-erase k i m ∙ both_none (e.beq k i) (lookup i m) h.0, erase-IsMap k m h.1)
  ]

  pub put-IsMap : (k : K) (v : V) (m : List (K × V)) → IsMap m → IsMap (put k v m)
  unfolding put
  put-IsMap k v m h = (lookup-erase k k m ∙ rw (beq_refl k) refl, erase-IsMap k m h)

  pub keep-IsMap : (p : K → V → Bool) (m : List (K × V)) → IsMap m → IsMap (keep p m)
  unfolding keep
  keep-IsMap p [] h = tt
  keep-IsMap p ((i, v) ∷ m) h = elim (Bool-cases (p i v)) [
    | inl at ↦ rw at (lookup-keep-none p i m h.0, keep-IsMap p m h.1)
    | inr other ↦ rw other (keep-IsMap p m h.1)
  ]

  lookup-map_values-none :
      (f : V → V) (j : K) (m : List (K × V)) → lookup j m ≡ none → lookup j (map_values f m) ≡ none
  lookup-map_values-none f j m h = lookup-map_values f j m ∙ ap (map_option f) h

  pub map_values-IsMap : (f : V → V) (m : List (K × V)) → IsMap m → IsMap (map_values f m)
  unfolding map_values
  map_values-IsMap f [] h = tt
  map_values-IsMap f ((i, v) ∷ m) h = (lookup-map_values-none f i m h.0, map_values-IsMap f m h.1)

  module _ {κ} (P : K → V → Type κ) where
    pub erase-Every : (k : K) (m : List (K × V)) → Every P m → Every P (erase k m)
    unfolding erase
    erase-Every k [] h = h
    erase-Every k ((i, v) ∷ m) h = elim (Bool-cases (e.beq i k)) [
      | inl at ↦ rw at (erase-Every k m h.1)
      | inr other ↦ rw other (h.0, erase-Every k m h.1)
    ]

    pub put-Every : (k : K) (v : V) (m : List (K × V)) → P k v → Every P m → Every P (put k v m)
    unfolding put
    put-Every k v m p h = (p, erase-Every k m h)

    pub lookup-Every : (k : K) (v : V) (m : List (K × V)) → lookup k m ≡ some v → Every P m → P k v
    unfolding lookup
    lookup-Every k v [] e h = absurd (none_not_some e)
    lookup-Every k v ((i, w) ∷ m) eq h = elim (Bool-cases (e.beq i k)) [
      | inl at ↦
          let same : i ≡ k = (e.beq_iff i k).0 at in
          let value : w ≡ v = some_inj (rw at at eq) in rw (← same, ← value) h.0
      | inr other ↦ lookup-Every k v m (rw other at eq) h.1
    ]

-- The entries that are left do not have the key.
pub erase-Every_apart {κ} :
    {K : Type 0} ⦃e : Eq K⦄ {V : Type 0} (P : K → V → Type κ) (k : K) (m : List (K × V))
    → Every P m
    → Every (λ i v. P i v × (e.beq i k ≡ false)) (erase k m)
unfolding erase
erase-Every_apart P k [] h = tt
erase-Every_apart ⦃e⦄ P k ((i, v) ∷ m) h = elim (Bool-cases (e.beq i k)) [
  | inl at ↦ rw at (erase-Every_apart P k m h.1)
  | inr other ↦ rw other ((h.0, other), erase-Every_apart P k m h.1)
]

module _ {K : Type 0} ⦃e : Eq K⦄ {V : Type 0} where
  -- The entries that are kept pass the test.
  pub keep-Every {κ} :
      (P : K → V → Type κ) (p : K → V → Bool) (m : List (K × V))
      → Every P m
      → Every (λ i v. P i v × (p i v ≡ true)) (keep p m)
  unfolding keep
  keep-Every P p [] h = tt
  keep-Every P p ((i, v) ∷ m) h = elim (Bool-cases (p i v)) [
    | inl passes ↦ rw passes ((h.0, passes), keep-Every P p m h.1)
    | inr fails ↦ rw fails (keep-Every P p m h.1)
  ]

  pub map_values-Every {κ} :
      (P : K → V → Type κ) (f : V → V) (m : List (K × V))
      → Every (λ i v. P i (f v)) m
      → Every P (map_values f m)
  unfolding map_values
  map_values-Every P f [] h = tt
  map_values-Every P f ((i, v) ∷ m) h = (h.0, map_values-Every P f m h.1)

  pub Every-mono {κ μ} :
      (P : K → V → Type κ) (Q : K → V → Type μ) (m : List (K × V))
      → ((i : K) (v : V) → P i v → Q i v)
      → Every P m
      → Every Q m
  Every-mono P Q [] f h = tt
  Every-mono P Q ((i, v) ∷ m) f h = (f i v h.0, Every-mono P Q m f h.1)
