-- ===== src/Parser/Properties.antt =====
-- Lemmas on `parse_property` and `parse_struct` of crates/dots-rs-build/src/parser.rs on written
-- structs.
use dots_rust.Prelude.{
  ℕ, zero, suc, ◌^◌, ◌<◌, ◌≡◌, refl, ap, ◌∙◌, true, false, String, none, some, List, [], ◌∷◌, ◌++◌,
  arith, length, ltb, All,
}
use dots_rust.Prelude.Int.{pos}
use dots_rust.Parser.Token.{
  TokenKind, ident, semicolon, colon, l_bracket, l_brace, r_brace, next_is, discriminant, ok,
  and_then,
}
use dots_rust.Parser.Ast.{PropertyType, named, vector, instance_ref, Property, StructDef}
use dots_rust.Parser.Descent.{
  take_doc_comments, expect_ident, expect_kind, expect_int, tag_of, parse_property,
  parse_properties, parse_struct,
}
use dots_rust.Parser.Written.{
  Style, IsStyle, doc_tokens, options_tokens, type_tokens, bare_property, property_tokens,
  first_docs, settle, IsWritable,
}
use dots_rust.Parser.Sizes.{length-properties}
use dots_rust.Parser.Options.{
  take_doc_comments-written, take_doc_comments-stops, options_if_any-written,
}
use dots_rust.Parser.Types.{parse_type-written}

pub tag_of-fits : (tag : ℕ) (ts : List TokenKind) → tag < 2 ^ 32 → tag_of (pos tag) ts ≡ ok tag ts
unfolding tag_of
tag_of-fits tag ts h = let fits : ltb tag (2 ^ 32) ≡ true = ground arith in rw fits refl

type_apart : (t : PropertyType) (k : List TokenKind) → next_is l_bracket (type_tokens t k) ≡ false
unfolding next_is discriminant
type_apart (named name) k = refl
type_apart (vector t) k = refl
type_apart (instance_ref none) k = refl
type_apart (instance_ref (some target)) k = refl

module _ (style : Style) where
  -- A property list whose first comments have been taken already, or are others.
  abbrev headed : List String → List Property → List TokenKind → List TokenKind
  headed ds [] k = r_brace ∷ k
  headed ds (p ∷ ps) k =
      doc_tokens ds
        (bare_property style p (doc_tokens p.trailing_doc (property_tokens style ps (r_brace ∷ k))))

  headed-first :
      (ps : List Property) (k : List TokenKind)
      → property_tokens style ps (r_brace ∷ k) ≡ headed (first_docs ps) ps k
  headed-first [] k = refl
  headed-first (p ∷ ps) k = refl

  take_doc_comments-headed :
      (ps : List Property) (k : List TokenKind)
      → take_doc_comments (property_tokens style ps (r_brace ∷ k)) ≡ (first_docs ps, headed [] ps k)
  unfolding take_doc_comments
  take_doc_comments-headed [] k = refl
  take_doc_comments-headed (p ∷ ps) k = take_doc_comments-stops p.docs (headed [] (p ∷ ps) k) refl

  take_doc_comments-trailing :
      (ds : List String) (ps : List Property) (k : List TokenKind)
      → take_doc_comments (doc_tokens ds (property_tokens style ps (r_brace ∷ k)))
        ≡ (ds ++ first_docs ps, headed [] ps k)
  take_doc_comments-trailing ds ps k =
      let all = take_doc_comments-written ds (property_tokens style ps (r_brace ∷ k)) in
      rw (take_doc_comments-headed ps k) at all

  not_brace :
      (ds : List String) (p : Property) (k : List TokenKind)
      → next_is r_brace (doc_tokens ds (bare_property style p k)) ≡ false
  unfolding next_is discriminant
  not_brace [] p k = refl
  not_brace (d ∷ ds) p k = refl

module _ (to_lowercase : String → String) (style : Style) (words : IsStyle to_lowercase style) where
  parse_property-written :
      (ds trailing : List String) (p : Property) (k rest : List TokenKind)
      → IsWritable p
      → take_doc_comments k ≡ (trailing, rest)
      → parse_property to_lowercase (doc_tokens ds (bare_property style p k))
        ≡ ok
            (record {
              docs = ds;
              trailing_doc = trailing;
              tag = p.tag;
              options = p.options;
              ty = p.ty;
              name = p.name;
            })
            rest
  unfolding parse_property take_doc_comments expect_int and_then expect_kind expect_ident next_is
      discriminant
  parse_property-written ds trailing p k rest (small, plain) h =
      let named_tokens = ident p.name ∷ semicolon ∷ k in
      let typed_tokens = type_tokens p.ty named_tokens in
      let start = take_doc_comments-stops ds (bare_property style p k) refl in
      let tag = tag_of-fits p.tag (colon ∷ options_tokens style p.options typed_tokens) small in
      let options =
        options_if_any-written to_lowercase style words p.options typed_tokens
          (type_apart p.ty named_tokens) in
      let type = parse_type-written p.ty named_tokens plain refl in
      rw (start, tag, options, type, h) refl

  parse_properties-written :
      (ds : List String) (ps : List Property) (k : List TokenKind) (fuel : ℕ)
      → All IsWritable ps
      → length ps < fuel
      → parse_properties to_lowercase fuel (headed style ds ps k) ≡ ok (settle ds ps) (r_brace ∷ k)
  unfolding parse_properties and_then next_is discriminant
  parse_properties-written ds ps k zero h enough = absurd (omega arith)
  parse_properties-written ds [] k (suc fuel) h enough = refl
  parse_properties-written ds (p ∷ ps) k (suc fuel) (here, others) enough =
      let behind = doc_tokens p.trailing_doc (property_tokens style ps (r_brace ∷ k)) in
      let head =
        parse_property-written ds (p.trailing_doc ++ first_docs ps) p behind (headed style [] ps k)
          here (take_doc_comments-trailing style p.trailing_doc ps k) in
      let rest = parse_properties-written [] ps k fuel others (omega arith) in
      rw (not_brace style ds p behind, head, rest) refl

  pub parse_struct-written :
      (s : StructDef) (k : List TokenKind)
      → All IsWritable s.properties
      → parse_struct to_lowercase s.docs (
          ident s.name
          ∷ options_tokens style s.options
              (l_brace ∷ property_tokens style s.properties (r_brace ∷ k)))
        ≡ ok
            (record {
              docs = s.docs;
              name = s.name;
              options = s.options;
              properties = settle (first_docs s.properties) s.properties;
            })
            k
  unfolding parse_struct and_then expect_ident expect_kind next_is discriminant
  parse_struct-written s k h =
      let body = property_tokens style s.properties (r_brace ∷ k) in
      let options =
        options_if_any-written to_lowercase style words s.options (l_brace ∷ body) refl in
      let enough = length-properties style s.properties (r_brace ∷ k) in
      let properties : parse_properties to_lowercase (suc (length body)) body
          ≡ ok (settle (first_docs s.properties) s.properties) (r_brace ∷ k) =
        ap (parse_properties to_lowercase (suc (length body))) (headed-first style s.properties k)
        ∙ parse_properties-written (first_docs s.properties) s.properties k (suc (length body)) h
            (omega arith) in
      rw (options, properties) refl
