-- ===== src/PropertySet.antt =====
-- Sets of property tags (crates/dots-rs-core/src/property_set.rs). The `u32` is a plain number; bit
-- `n` is tag `n`. A shift by 32 or more, which `debug_assert!` rejects, wraps as in a release build.
pub mod Tags
pub mod Iter
mod Examples
use dots_rust.Prelude.{
  ℕ, zero, suc, ◌+◌, ◌-◌, ◌/◌, ◌%◌, ◌^◌, bit_and, bit_or, bit_xor, Bool, true, false, not, ◌||◌,
  List, [], ◌∷◌, ltb, ◌==◌, if◌then◌else◌,
}

abbrev pub PropertySet : Type 0
PropertySet = ℕ

abbrev pub empty : PropertySet
empty = 0

-- `PropertySet::ALL`, that is `u32::MAX`
abbrev pub all : PropertySet
all = 2 ^ 32 - 1

abbrev pub max_tag : ℕ
max_tag = 31

-- `1u32 << tag`
abbrev pub tag_bit : ℕ → ℕ
tag_bit tag = 2 ^ (tag % 32)

-- `!x` of a `u32`
abbrev pub complement : ℕ → ℕ
complement x = 2 ^ 32 - 1 - x

unfoldable pub has : PropertySet → ℕ → Bool
has s tag = if tag == 0 || ltb max_tag tag then false else not (bit_and s (tag_bit tag) == 0)

unfoldable pub with_tag : PropertySet → ℕ → PropertySet
with_tag s tag = bit_or s (tag_bit tag)

unfoldable pub without_tag : PropertySet → ℕ → PropertySet
without_tag s tag = bit_and s (complement (tag_bit tag))

unfoldable pub is_empty : PropertySet → Bool
is_empty s = s == 0

-- `count_ones` of a word of `w` bits
count_ones : ℕ → ℕ → ℕ
count_ones zero n = 0
count_ones (suc w) n = n % 2 + count_ones w (n / 2)

pub len : PropertySet → ℕ
len s = count_ones 32 s

unfoldable pub is_subset_of : PropertySet → PropertySet → Bool
is_subset_of s other = bit_and s other == s

unfoldable pub is_superset_of : PropertySet → PropertySet → Bool
unfolding is_subset_of
is_superset_of s other = is_subset_of other s

-- `trailing_zeros` of a word of `w` bits
trailing_zeros : ℕ → ℕ → ℕ
trailing_zeros zero n = 0
trailing_zeros (suc w) n = if n % 2 == 1 then 0 else suc (trailing_zeros w (n / 2))

-- The iterator's closure, called until it returns `None`. Each call clears a bit, so 32 rounds end it.
iter_from : ℕ → ℕ → List ℕ
iter_from zero bits = []
iter_from (suc rounds) bits =
    let rest = iter_from rounds (bit_and bits (bits - 1)) in
    if bits == 0 then [] else trailing_zeros 32 bits ∷ rest

pub iter : PropertySet → List ℕ
iter s = iter_from 32 s

-- `|`, `&`, `-` and `^`
unfoldable pub union : PropertySet → PropertySet → PropertySet
union s rhs = bit_or s rhs

unfoldable pub intersection : PropertySet → PropertySet → PropertySet
intersection s rhs = bit_and s rhs

unfoldable pub difference : PropertySet → PropertySet → PropertySet
difference s rhs = bit_and s (complement rhs)

unfoldable pub symmetric_difference : PropertySet → PropertySet → PropertySet
symmetric_difference s rhs = bit_xor s rhs
