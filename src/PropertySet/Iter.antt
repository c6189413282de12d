-- ===== src/PropertySet/Iter.antt =====
-- `iter` lists the tags of the set in ascending order, and `len` is how many there are.
use dots_rust.Prelude.{
  ℕ, zero, suc, ◌+◌, ◌-◌, ◌*◌, ◌/◌, ◌%◌, ◌^◌, ◌≤◌, ◌<◌, ◌≡◌, refl, sym, ap, ◌∙◌, bit_and, Bool,
  List, [], ◌∷◌, map, arith, length, Bool-cases, inl, inr, ◌==◌, if◌then◌else◌,
}
use dots_rust.Prelude.Bits.{
  test_bit, pow_two-suc, bit_and_step, bit_and_self, bit_and-le, pow_two_le,
}
use dots_rust.PropertySet.{PropertySet, has, len, iter, iter_from, trailing_zeros, count_ones}
use dots_rust.PropertySet.Tags.{IsTagSet, IsTagSet-digit}

-- The numbers below `n`, ascending.
abbrev pub upto : ℕ → List ℕ
upto zero = []
upto (suc n) = 0 ∷ map suc (upto n)

abbrev pub keep {ℓ} : {A : Type ℓ} → (A → Bool) → List A → List A
keep p [] = []
keep p (x ∷ xs) = let rest = keep p xs in if p x then x ∷ rest else rest

-- The digits of `n` that are set, ascending, of a word of `w` bits.
abbrev positions : ℕ → ℕ → List ℕ
positions zero n = []
positions (suc w) n =
    let rest = map suc (positions w (n / 2)) in if n % 2 == 1 then 0 ∷ rest else rest

keep-map-suc :
    (p : ℕ → Bool) (xs : List ℕ) → keep p (map suc xs) ≡ map suc (keep (λ x. p (suc x)) xs)
keep-map-suc p [] = refl
keep-map-suc p (x ∷ xs) = ground (arith, keep-map-suc p xs)

positions-keep : (w n : ℕ) → positions w n ≡ keep (test_bit n) (upto w)
unfolding test_bit
positions-keep zero n = refl
positions-keep (suc w) n =
    ground (arith, positions-keep w (n / 2), keep-map-suc (test_bit n) (upto w))

length-map-suc : (xs : List ℕ) → length (map suc xs) ≡ length xs
length-map-suc [] = refl
length-map-suc (x ∷ xs) = ap suc (length-map-suc xs)

length-positions : (w n : ℕ) → length (positions w n) ≡ count_ones w n
unfolding count_ones
length-positions zero n = refl
length-positions (suc w) n =
    ground (arith, length-positions w (n / 2), length-map-suc (positions w (n / 2)))

-- The width of the word does not matter to `trailing_zeros` of a number that it holds.
trailing_zeros_width :
    (a b n : ℕ) → 0 < n → n < 2 ^ a → n < 2 ^ b → trailing_zeros a n ≡ trailing_zeros b n
unfolding trailing_zeros
trailing_zeros_width zero b n p ha hb = absurd (omega arith)
trailing_zeros_width (suc a) zero n p ha hb = absurd (omega arith)
trailing_zeros_width (suc a) (suc b) n p ha hb =
    ground (arith, pow_two-suc a, pow_two-suc b, trailing_zeros_width a b (n / 2))

trailing_zeros-suc : (w m : ℕ) → trailing_zeros (suc w) (m * 2) ≡ suc (trailing_zeros w m)
unfolding trailing_zeros
trailing_zeros-suc w m = let e : m * 2 / 2 ≡ m = omega arith in rw e (ground arith)

trailing_zeros-double :
    (m : ℕ) → 0 < m → m < 2 ^ 31 → trailing_zeros 32 (m * 2) ≡ suc (trailing_zeros 32 m)
trailing_zeros-double m p h =
    trailing_zeros-suc 31 m ∙ ap suc (trailing_zeros_width 31 32 m p h (omega arith))

clear_lowest-double : (m : ℕ) → 0 < m → bit_and (m * 2) (m * 2 - 1) ≡ bit_and m (m - 1) * 2
clear_lowest-double m p = ground (arith, bit_and_step (m * 2) (m * 2 - 1))

clear_lowest-odd : (m : ℕ) → m < 2 ^ 32 → bit_and (m * 2 + 1) (m * 2) ≡ m * 2
clear_lowest-odd m h = ground (arith, bit_and_step (m * 2 + 1) (m * 2), bit_and_self 32 m h)

iter_from-double : (r m : ℕ) → m < 2 ^ 31 → iter_from r (m * 2) ≡ map suc (iter_from r m)
unfolding iter_from
iter_from-double zero m h = refl
iter_from-double (suc r) zero h = refl
iter_from-double (suc r) (suc m) h = ground (
  arith,
  trailing_zeros-double (suc m),
  clear_lowest-double (suc m),
  bit_and-le 31 (suc m) (suc m - 1) h,
  iter_from-double r (bit_and (suc m) (suc m - 1)),
)

iter_from_odd : (r m : ℕ) → m < 2 ^ 31 → iter_from (suc r) (m * 2 + 1) ≡ 0 ∷ map suc (iter_from r m)
unfolding iter_from trailing_zeros
iter_from_odd r m h =
    let e : m * 2 + 1 - 1 ≡ m * 2 = omega arith in
    ground (arith, e, clear_lowest-odd m (omega arith), iter_from-double r m h)

iter_from-zero : (r : ℕ) → iter_from r 0 ≡ []
unfolding iter_from
iter_from-zero zero = refl
iter_from-zero (suc r) = refl

half_fits : (w n : ℕ) → suc w ≤ 32 → n < 2 ^ suc w → (n / 2 < 2 ^ w) × (n / 2 < 2 ^ 31)
half_fits w n small h =
    let fits : n / 2 < 2 ^ w = omega (arith, pow_two-suc w) in
    (fits, omega (arith, fits, pow_two_le w 31 (omega arith)))

iter_from-positions : (w r n : ℕ) → w ≤ r → w ≤ 32 → n < 2 ^ w → iter_from r n ≡ positions w n
iter_from-positions zero r n le small h = let e : n ≡ 0 = omega arith in rw e (iter_from-zero r)
iter_from-positions (suc w) zero n le small h = absurd (omega arith)
iter_from-positions (suc w) (suc r) n le small h =
    let (fits, word) = half_fits w n small h in
    elim (Bool-cases (n % 2 == 1)) [
      | inl odd ↦
          let e : n ≡ n / 2 * 2 + 1 = ground arith in
          let step = iter_from_odd r (n / 2) word in
          rw odd (
            ap (iter_from (suc r)) e
            ∙ step
            ∙ ap (λ l. 0 ∷ map suc l)
                (iter_from-positions w r (n / 2) (omega arith) (omega arith) fits))
      | inr even ↦
          let e : n ≡ n / 2 * 2 = ground arith in
          rw even (
            ap (iter_from (suc r)) e
            ∙ iter_from-double (suc r) (n / 2) word
            ∙ ap (map suc) (iter_from-positions w (suc r) (n / 2) (omega arith) (omega arith) fits))
    ]

-- The tags 1 to 31.
abbrev pub tags : List ℕ
tags = map suc (upto 31)

keep_same : (p q : ℕ → Bool) (xs : List ℕ) → ((i : ℕ) → p i ≡ q i) → keep p xs ≡ keep q xs
keep_same p q [] h = refl
keep_same p q (x ∷ xs) h = ground (arith, h x, keep_same p q xs h)

keep-tags : (s : PropertySet) → keep (has s) (0 ∷ tags) ≡ keep (has s) tags
unfolding has
keep-tags s = refl

iter-positions : (s : PropertySet) → s < 2 ^ 32 → iter s ≡ positions 32 s
unfolding iter
iter-positions s h = iter_from-positions 32 32 s (omega arith) (omega arith) h

len-positions : (s : PropertySet) → len s ≡ length (positions 32 s)
unfolding len
len-positions s = sym (length-positions 32 s)

-- On a 32-bit word whose bit 0 is clear, `iter` yields exactly the tags that `has` finds, in ascending
-- order, and `len` counts them.
pub iter_lists_tags :
    (s : PropertySet) → IsTagSet s → (iter s ≡ keep (has s) tags) × (len s ≡ length (iter s))
iter_lists_tags s h =
    let listed = iter-positions s h.word in
    (
      listed
          ∙ positions-keep 32 s
          ∙ keep_same (test_bit s) (has s) (0 ∷ tags) (IsTagSet-digit h)
          ∙ keep-tags s,
      rw listed (len-positions s),
    )
