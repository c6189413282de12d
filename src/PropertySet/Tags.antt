-- ===== src/PropertySet/Tags.antt =====
-- Every operation of `PropertySet` as a statement about the tags that are in the set.
use dots_rust.Prelude.{
  ℕ, ◌%◌, ◌^◌, ◌≤◌, ◌<◌, ◌≡◌, ◌↔◌, bit_and, bit_or, bit_xor, Bool, true, false, not, ◌&&◌, ◌||◌,
  arith, ltb, ◌==◌, inl, inr, Bool-cases, ap,
}
use dots_rust.Prelude.Bits.{
  differs, test_bit, and_pow, test_bit-and, test_bit-or, test_bit-xor, test_bit-pow,
  test_bit-complement, eq_of_digits, bit_and-le, pow_pos, pow_two_mono, test_bit-zero,
  test_bit-high,
}
use dots_rust.PropertySet.{
  all, PropertySet, tag_bit, complement, has, with_tag, without_tag, is_subset_of, union,
  intersection, difference, symmetric_difference,
}

-- A tag that the representation can hold: 1 to 31.
abbrev pub is_tag : ℕ → Bool
is_tag t = ltb 0 t && ltb t 32

abbrev pub IsTag : ℕ → Type 0
IsTag t = (1 ≤ t) × (t ≤ 31)

-- A `u32` whose bit 0 is clear.
pub record IsTagSet (s : PropertySet) : Type 0 where
  pub word : s < 2 ^ 32
  pub unused : test_bit s 0 ≡ false

pub has_digit : (s t : ℕ) → has s t ≡ (is_tag t && test_bit s t)
unfolding has
has_digit s t = elim (Bool-cases (is_tag t)) [
  | inl h ↦ let e : t % 32 ≡ t = ground arith in rw e (ground (arith, and_pow t s, pow_pos t))
  | inr h ↦ ground arith
]

pub has-empty : (t : ℕ) → has 0 t ≡ false
has-empty t = ground (arith, has_digit 0 t, test_bit-zero t)

-- For a tag from 1 to 31, `with_tag` adds the tag and keeps every other.
pub has-with_tag : (s tag t : ℕ) → IsTag tag → has (with_tag s tag) t ≡ (tag == t || has s t)
unfolding with_tag
has-with_tag s tag t h =
    let e : tag % 32 ≡ tag = omega arith in
    rw e (
      ground (
        arith,
        has_digit (bit_or s (2 ^ tag)) t,
        has_digit s t,
        test_bit-or t s (2 ^ tag),
        test_bit-pow tag t,
      ))

tag_bit_bound : (tag : ℕ) → tag_bit tag < 2 ^ 32
tag_bit_bound tag = pow_two_mono (tag % 32) 32 (omega arith)

-- For a tag from 1 to 31, `without_tag` removes the tag and keeps every other.
pub has-without_tag :
    (s tag t : ℕ) → IsTag tag → has (without_tag s tag) t ≡ (not (tag == t) && has s t)
unfolding without_tag
has-without_tag s tag t h =
    let e : tag % 32 ≡ tag = omega arith in
    ground (
      arith,
      e,
      has_digit (bit_and s (complement (tag_bit tag))) t,
      has_digit s t,
      test_bit-and t s (complement (tag_bit tag)),
      test_bit-complement 32 t (tag_bit tag) (tag_bit_bound tag),
      test_bit-pow (tag % 32) t,
    )

pub has-intersection : (a b t : ℕ) → has (intersection a b) t ≡ (has a t && has b t)
unfolding intersection
has-intersection a b t =
    ground (arith, has_digit (bit_and a b) t, has_digit a t, has_digit b t, test_bit-and t a b)

pub has-all : (t : ℕ) → IsTag t → has all t ≡ true
has-all t h =
    ground (arith, has_digit all t, test_bit-complement 32 t 0 (omega arith), test_bit-zero t)

-- The operators `|`, `&`, `-` and `^` act on each tag as the Boolean operators do, when the right
-- operand is a 32-bit word.
has_operators :
    (a b t : ℕ)
    → b < 2 ^ 32
    → (has (union a b) t ≡ (has a t || has b t))
      × (has (intersection a b) t ≡ (has a t && has b t))
      × (has (difference a b) t ≡ (has a t && not (has b t)))
      × (has (symmetric_difference a b) t ≡ differs (has a t) (has b t))
unfolding union intersection difference symmetric_difference
has_operators a b t hb = (
  ground (arith, has_digit (bit_or a b) t, has_digit a t, has_digit b t, test_bit-or t a b),
  ground (arith, has_digit (bit_and a b) t, has_digit a t, has_digit b t, test_bit-and t a b),
  ground (
    arith,
    has_digit (bit_and a (complement b)) t,
    has_digit a t,
    has_digit b t,
    test_bit-and t a (complement b),
    test_bit-complement 32 t b hb,
  ),
  ground (arith, has_digit (bit_xor a b) t, has_digit a t, has_digit b t, test_bit-xor t a b),
)

-- Digits at 32 and above are clear.
high_digits : (s i : ℕ) → s < 2 ^ 32 → 32 ≤ i → test_bit s i ≡ false
high_digits s i h k = test_bit-high 32 s i h k

pub IsTagSet-digit : {s : ℕ} → IsTagSet s → (i : ℕ) → test_bit s i ≡ has s i
IsTagSet-digit {s} h i = elim (Bool-cases (is_tag i)) [
  | inl e ↦ ground (arith, has_digit s i)
  | inr e ↦ elim (Bool-cases (i == 0)) [
    | inl z ↦ let z' : i ≡ 0 = ground arith in rw z' (ground (arith, has_digit s 0, h.unused))
    | inr z ↦ ground (arith, has_digit s i, high_digits s i h.word (ground arith))
  ]
]

-- If the left set holds tags from 1 to 31 only, `is_subset_of` is inclusion of the tags.
pub is_subset_of_iff :
    (a b : ℕ)
    → IsTagSet a
    → ((is_subset_of a b ≡ true) ↔ ((t : ℕ) → has a t ≡ true → has b t ≡ true))
unfolding is_subset_of
is_subset_of_iff a b ha = (
  (λ e t h.
      let eq : bit_and a b ≡ a = ground arith in
      let d : test_bit (bit_and a b) t ≡ test_bit a t = ap (λ (n : ℕ). test_bit n t) eq in
      ground (arith, has_digit a t, has_digit b t, test_bit-and t a b)),
  (λ all.
      let eq : bit_and a b ≡ a =
        eq_of_digits 32 (bit_and a b) a (omega (arith, bit_and-le 32 a b ha.word, ha.word)) ha.word
          (λ i. ground (arith, test_bit-and i a b, IsTagSet-digit ha i, has_digit b i, all i)) in
      ground arith),
)
