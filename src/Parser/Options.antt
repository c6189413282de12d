-- ===== src/Parser/Options.antt =====
-- Lemmas on `take_doc_comments` and `parse_options` of crates/dots-rs-build/src/parser.rs on written
-- comments and options.
use dots_rust.Prelude.{
  ℕ, zero, suc, ◌<◌, ◌≡◌, refl, Bool-cases, inl, inr, ap, true, false, String, List, [], ◌∷◌, ◌++◌,
  arith, length, append-nil,
}
use dots_rust.Parser.Token.{
  TokenKind, ident, r_bracket, eq, next_is, discriminant, ok, and_then, l_bracket,
}
use dots_rust.Parser.Ast.{OptValue, bool, text, Opt}
use dots_rust.Parser.Descent.{
  take_doc_comments, bump, expect_ident, expect_kind, parse_option_value, parse_option,
  more_options, listed_options, parse_options, options_if_any,
}
use dots_rust.Parser.Written.{Style, IsStyle, doc_tokens, value_tokens, more_tokens, options_tokens}
use dots_rust.Parser.Sizes.{length-more}

pub take_doc_comments-written :
    (ds : List String) (k : List TokenKind)
    → take_doc_comments (doc_tokens ds k) ≡ (ds ++ (take_doc_comments k).0, (take_doc_comments k).1)
unfolding take_doc_comments
take_doc_comments-written [] k = refl
take_doc_comments-written (d ∷ ds) k =
    ap (λ (r : List String × List TokenKind). (d ∷ r.0, r.1)) (take_doc_comments-written ds k)

-- Where no comment follows.
pub take_doc_comments-stops :
    (ds : List String) (k : List TokenKind)
    → take_doc_comments k ≡ ([], k)
    → take_doc_comments (doc_tokens ds k) ≡ (ds, k)
take_doc_comments-stops ds k h =
    let all = take_doc_comments-written ds k in rw (h, append-nil ds) at all

module _ (to_lowercase : String → String) (style : Style) (words : IsStyle to_lowercase style) where
  parse_option-written :
      (name : String) (v : OptValue) (k : List TokenKind)
      → next_is eq k ≡ false
      → parse_option to_lowercase (ident name ∷ value_tokens style v k)
        ≡ ok (record { name = name; value = v }) k
  unfolding parse_option expect_ident and_then next_is discriminant bump parse_option_value
  parse_option-written name (bool true) k h = elim (Bool-cases style.marker) [
    | inl bare ↦ rw (bare, h) refl
    | inr spelled ↦ rw (spelled, words.0) refl
  ]
  parse_option-written name (bool false) k h = rw words.1 refl
  parse_option-written name (text s) k h = refl

  more_apart : (os : List Opt) (k : List TokenKind) → next_is eq (more_tokens style os k) ≡ false
  unfolding next_is discriminant
  more_apart [] k = refl
  more_apart (o ∷ os) k = refl

  more_options-written :
      (os : List Opt) (k : List TokenKind) (fuel : ℕ)
      → length os < fuel
      → more_options to_lowercase fuel (more_tokens style os k) ≡ ok os (r_bracket ∷ k)
  unfolding more_options next_is discriminant bump and_then
  more_options-written os k zero h = absurd (omega arith)
  more_options-written [] k (suc fuel) h = refl
  more_options-written (o ∷ os) k (suc fuel) h =
      let head = parse_option-written o.name o.value (more_tokens style os k) (more_apart os k) in
      let rest = more_options-written os k fuel (omega arith) in rw (head, rest) refl

  pub options_if_any-written :
      (os : List Opt) (k : List TokenKind)
      → next_is l_bracket k ≡ false
      → options_if_any to_lowercase (options_tokens style os k) ≡ ok os k
  unfolding options_if_any parse_options listed_options next_is discriminant expect_kind and_then
  options_if_any-written [] k h = elim (Bool-cases style.brackets) [
    | inl empty ↦ rw empty refl
    | inr absent ↦ rw (absent, h) refl
  ]
  options_if_any-written (o ∷ os) k h =
      let head = parse_option-written o.name o.value (more_tokens style os k) (more_apart os k) in
      let enough = length-more style os k in
      let rest = more_options-written os k (suc (length (more_tokens style os k))) (omega arith) in
      rw (head, rest) refl
