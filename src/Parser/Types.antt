-- ===== src/Parser/Types.antt =====
-- Lemmas on `parse_type` of crates/dots-rs-build/src/parser.rs on written types.
use dots_rust.Prelude.{ℕ, zero, suc, ◌<◌, ◌≡◌, refl, false, none, some, List, ◌∷◌, arith, length}
use dots_rust.Parser.Token.{TokenKind, r_angle, l_angle, next_is, discriminant, ok, and_then}
use dots_rust.Parser.Ast.{PropertyType, named, vector, instance_ref}
use dots_rust.Parser.Descent.{
  bump, expect_ident, expect_kind, closing_angle, instance_target, parse_type,
}
use dots_rust.Parser.Written.{type_tokens, IsPlain}
use dots_rust.Parser.Sizes.{depth, length-type}

parse_type-fueled :
    (t : PropertyType) (k : List TokenKind) (fuel : ℕ)
    → IsPlain t
    → next_is l_angle k ≡ false
    → depth t < fuel
    → parse_type fuel (type_tokens t k) ≡ ok t k
unfolding parse_type expect_ident expect_kind closing_angle instance_target next_is discriminant
    bump and_then
parse_type-fueled t k zero plain h enough = absurd (omega arith)
parse_type-fueled (named name) k (suc fuel) (a, b, c) h enough = rw (a, b, c) refl
parse_type-fueled (vector t) k (suc fuel) plain h enough =
    let inner = parse_type-fueled t (r_angle ∷ k) fuel plain refl (omega arith) in rw inner refl
parse_type-fueled (instance_ref none) k (suc fuel) plain h enough = rw h refl
parse_type-fueled (instance_ref (some target)) k (suc fuel) plain h enough = refl

pub parse_type-written :
    (t : PropertyType) (k : List TokenKind)
    → IsPlain t
    → next_is l_angle k ≡ false
    → parse_type (suc (length (type_tokens t k))) (type_tokens t k) ≡ ok t k
parse_type-written t k plain h =
    let enough = length-type t k in
    parse_type-fueled t k (suc (length (type_tokens t k))) plain h (omega arith)
