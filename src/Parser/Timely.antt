-- ===== src/Parser/Timely.antt =====
-- How many tokens a method of crates/dots-rs-build/src/parser.rs leaves: the predicate, and the
-- methods that look at one token.
use dots_rust.Prelude.{
  ℕ, ◌^◌, ◌≤◌, ◌<◌, ◌≡◌, refl, Bool, true, false, ltb, String, str_eq, List, [], ◌∷◌, arith, length,
  if◌then◌else◌,
}
use dots_rust.Prelude.Int.{ℤ, pos, negsuc}
use dots_rust.Parser.Token.{
  TokenKind, ident, int, str, doc, l_brace, r_brace, l_bracket, r_bracket, l_angle, r_angle, colon,
  semicolon, comma, eq, dot, next_is, ParseError, unexpected_end, unexpected_token,
  unexpected_keyword, tag_out_of_range, empty_type_name, bad_option_value, out_of_fuel, Parsed, ok,
  err, and_then,
}
use dots_rust.Parser.Ast.{bool}
use dots_rust.Parser.Descent.{
  bump, take_doc_comments, expect_kind, expect_ident, expect_int, tag_of, parse_option_value,
}

abbrev pub is_cut_off : ParseError → Bool
is_cut_off unexpected_end = false
is_cut_off unexpected_token = false
is_cut_off unexpected_keyword = false
is_cut_off tag_out_of_range = false
is_cut_off empty_type_name = false
is_cut_off bad_option_value = false
is_cut_off out_of_fuel = true

-- Fewer than `n` tokens are left, or there is an error of the source's.
abbrev pub IsTimely : {A : Type 0} → ℕ → Parsed A → Type 0
IsTimely n (ok a rest) = length rest < n
IsTimely n (err e) = is_cut_off e ≡ false

pub and_then-IsTimely :
    {A B : Type 0} (n m : ℕ) (r : Parsed A) (f : A → List TokenKind → Parsed B)
    → IsTimely n r
    → ((a : A) (rest : List TokenKind) → length rest < n → IsTimely m (f a rest))
    → IsTimely m (and_then r f)
unfolding and_then
and_then-IsTimely n m (ok a rest) f h step = step a rest h
and_then-IsTimely n m (err e) f h step = h

pub if-IsTimely :
    {A : Type 0} (n : ℕ) (b : Bool) (r s : Parsed A)
    → IsTimely n r
    → IsTimely n s
    → IsTimely n (if b then r else s)
if-IsTimely n true r s hr hs = hr
if-IsTimely n false r s hr hs = hs

pub length-bump : (ts : List TokenKind) → length (bump ts) ≤ length ts
unfolding bump
length-bump [] = omega arith
length-bump (t ∷ ts) = omega arith

pub length-comments : (ts : List TokenKind) → length (take_doc_comments ts).1 ≤ length ts
unfolding take_doc_comments
length-comments [] = omega arith
length-comments (doc s ∷ ts) = let rest = length-comments ts in omega arith
length-comments (ident s ∷ ts) = omega arith
length-comments (int n ∷ ts) = omega arith
length-comments (str s ∷ ts) = omega arith
length-comments (l_brace ∷ ts) = omega arith
length-comments (r_brace ∷ ts) = omega arith
length-comments (l_bracket ∷ ts) = omega arith
length-comments (r_bracket ∷ ts) = omega arith
length-comments (l_angle ∷ ts) = omega arith
length-comments (r_angle ∷ ts) = omega arith
length-comments (colon ∷ ts) = omega arith
length-comments (semicolon ∷ ts) = omega arith
length-comments (comma ∷ ts) = omega arith
length-comments (eq ∷ ts) = omega arith
length-comments (dot ∷ ts) = omega arith

pub expect_kind-IsTimely :
    (want : TokenKind) (ts : List TokenKind) (n : ℕ)
    → length ts ≤ n
    → IsTimely n (expect_kind want ts)
unfolding expect_kind
expect_kind-IsTimely want [] n h = refl
expect_kind-IsTimely want (t ∷ ts) n h =
    if-IsTimely n (next_is want (t ∷ ts)) (ok t ts) (err unexpected_token) (omega arith) refl

pub expect_ident-IsTimely :
    (ts : List TokenKind) (n : ℕ) → length ts ≤ n → IsTimely n (expect_ident ts)
unfolding expect_ident
expect_ident-IsTimely [] n h = refl
expect_ident-IsTimely (ident s ∷ ts) n h = omega arith
expect_ident-IsTimely (doc s ∷ ts) n h = refl
expect_ident-IsTimely (int i ∷ ts) n h = refl
expect_ident-IsTimely (str s ∷ ts) n h = refl
expect_ident-IsTimely (l_brace ∷ ts) n h = refl
expect_ident-IsTimely (r_brace ∷ ts) n h = refl
expect_ident-IsTimely (l_bracket ∷ ts) n h = refl
expect_ident-IsTimely (r_bracket ∷ ts) n h = refl
expect_ident-IsTimely (l_angle ∷ ts) n h = refl
expect_ident-IsTimely (r_angle ∷ ts) n h = refl
expect_ident-IsTimely (colon ∷ ts) n h = refl
expect_ident-IsTimely (semicolon ∷ ts) n h = refl
expect_ident-IsTimely (comma ∷ ts) n h = refl
expect_ident-IsTimely (eq ∷ ts) n h = refl
expect_ident-IsTimely (dot ∷ ts) n h = refl

pub expect_int-IsTimely : (ts : List TokenKind) (n : ℕ) → length ts ≤ n → IsTimely n (expect_int ts)
unfolding expect_int
expect_int-IsTimely [] n h = refl
expect_int-IsTimely (ident s ∷ ts) n h = refl
expect_int-IsTimely (doc s ∷ ts) n h = refl
expect_int-IsTimely (int i ∷ ts) n h = omega arith
expect_int-IsTimely (str s ∷ ts) n h = refl
expect_int-IsTimely (l_brace ∷ ts) n h = refl
expect_int-IsTimely (r_brace ∷ ts) n h = refl
expect_int-IsTimely (l_bracket ∷ ts) n h = refl
expect_int-IsTimely (r_bracket ∷ ts) n h = refl
expect_int-IsTimely (l_angle ∷ ts) n h = refl
expect_int-IsTimely (r_angle ∷ ts) n h = refl
expect_int-IsTimely (colon ∷ ts) n h = refl
expect_int-IsTimely (semicolon ∷ ts) n h = refl
expect_int-IsTimely (comma ∷ ts) n h = refl
expect_int-IsTimely (eq ∷ ts) n h = refl
expect_int-IsTimely (dot ∷ ts) n h = refl

pub parse_option_value-IsTimely :
    (to_lowercase : String → String) (ts : List TokenKind) (n : ℕ)
    → length ts ≤ n
    → IsTimely n (parse_option_value to_lowercase ts)
unfolding parse_option_value
parse_option_value-IsTimely to_lowercase [] n h = refl
parse_option_value-IsTimely to_lowercase (ident s ∷ ts) n h =
    let fits : length ts < n = omega arith in
    if-IsTimely n (str_eq (to_lowercase s) "true") (ok (bool true) ts)
      (if str_eq (to_lowercase s) "false" then ok (bool false) ts else err bad_option_value) fits
      (if-IsTimely n (str_eq (to_lowercase s) "false") (ok (bool false) ts) (err bad_option_value)
        fits refl)
parse_option_value-IsTimely to_lowercase (doc s ∷ ts) n h = refl
parse_option_value-IsTimely to_lowercase (int i ∷ ts) n h = refl
parse_option_value-IsTimely to_lowercase (str s ∷ ts) n h = omega arith
parse_option_value-IsTimely to_lowercase (l_brace ∷ ts) n h = refl
parse_option_value-IsTimely to_lowercase (r_brace ∷ ts) n h = refl
parse_option_value-IsTimely to_lowercase (l_bracket ∷ ts) n h = refl
parse_option_value-IsTimely to_lowercase (r_bracket ∷ ts) n h = refl
parse_option_value-IsTimely to_lowercase (l_angle ∷ ts) n h = refl
parse_option_value-IsTimely to_lowercase (r_angle ∷ ts) n h = refl
parse_option_value-IsTimely to_lowercase (colon ∷ ts) n h = refl
parse_option_value-IsTimely to_lowercase (semicolon ∷ ts) n h = refl
parse_option_value-IsTimely to_lowercase (comma ∷ ts) n h = refl
parse_option_value-IsTimely to_lowercase (eq ∷ ts) n h = refl
parse_option_value-IsTimely to_lowercase (dot ∷ ts) n h = refl

pub tag_of-IsTimely :
    (tag : ℤ) (ts : List TokenKind) (n : ℕ) → length ts < n → IsTimely n (tag_of tag ts)
unfolding tag_of
tag_of-IsTimely (pos t) ts n h =
    if-IsTimely n (ltb t (2 ^ 32)) (ok t ts) (err tag_out_of_range) h refl
tag_of-IsTimely (negsuc t) ts n h = refl
