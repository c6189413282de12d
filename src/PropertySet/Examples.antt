-- ===== src/PropertySet/Examples.antt =====
-- The theorems on property sets at concrete inputs, and runs.
use dots_rust.Prelude.{ℕ, ◌≡◌, refl, false, [], ◌∷◌, arith, length}
use dots_rust.Prelude.Bits.{test_bit}
use dots_rust.PropertySet.{has, with_tag, len, iter, iter_from, trailing_zeros}
use dots_rust.PropertySet.Tags.{IsTagSet}
use dots_rust.PropertySet.Iter.{keep, tags, iter_lists_tags}

-- The set of the tags 1, 3 and 7.
abbrev three_tags : ℕ
three_tags = 138

three_tags-IsTagSet : IsTagSet three_tags
unfolding test_bit
three_tags-IsTagSet = record { word = omega arith; unused = refl }

built : with_tag (with_tag (with_tag 0 7) 1) 3 ≡ three_tags
unfolding with_tag
built = refl

iterated : iter three_tags ≡ 1 ∷ 3 ∷ 7 ∷ []
unfolding iter iter_from trailing_zeros
iterated = refl

out_of_range : (has three_tags 0 ≡ false) × (has three_tags 32 ≡ false)
unfolding has
out_of_range = (refl, refl)

iter_lists_tags_example :
    (iter three_tags ≡ keep (has three_tags) tags) × (len three_tags ≡ length (iter three_tags))
iter_lists_tags_example = iter_lists_tags three_tags three_tags-IsTagSet
