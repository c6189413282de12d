-- ===== src/Parser/Sizes.antt =====
-- The number of tokens of what is written, against the rounds of the loops of
-- crates/dots-rs-build/src/parser.rs.
use dots_rust.Prelude.{
  ℕ, suc, ◌+◌, ◌≤◌, true, false, String, Bool, if◌then◌else◌, Option, none, some, List, [], ◌∷◌,
  arith, length,
}
use dots_rust.Prelude.Int.{ℤ}
use dots_rust.Parser.Token.{
  TokenKind, eq, l_bracket, r_bracket, ident, r_angle, semicolon, comma, l_brace, r_brace,
}
use dots_rust.Parser.Ast.{
  OptValue, bool, text, Opt, PropertyType, named, vector, instance_ref, Property, EnumItem,
}
use dots_rust.Parser.Written.{
  Style, comma_tokens, Source, struct_source, enum_source, import_source, package_source,
  doc_tokens, value_tokens, more_tokens, options_tokens, type_tokens, property_tokens,
  bare_property, item_value_tokens, bare_enum_item, enum_item_tokens, parts_tokens, source_tokens,
  file_tokens,
}

pub length-docs : (ds : List String) (k : List TokenKind) → length k ≤ length (doc_tokens ds k)
length-docs [] k = omega arith
length-docs (d ∷ ds) k = let rest = length-docs ds k in omega arith

-- How deep the vectors of a type are nested.
abbrev pub depth : PropertyType → ℕ
depth (named name) = 0
depth (vector t) = suc (depth t)
depth (instance_ref target) = 0

pub length-type :
    (t : PropertyType) (k : List TokenKind) → depth t + length k ≤ length (type_tokens t k)
length-type (named name) k = omega arith
length-type (vector t) k = let inner = length-type t (r_angle ∷ k) in omega arith
length-type (instance_ref none) k = omega arith
length-type (instance_ref (some target)) k = omega arith

length-item_value : (v : Option ℤ) (k : List TokenKind) → length k ≤ length (item_value_tokens v k)
length-item_value none k = omega arith
length-item_value (some n) k = omega arith

pub length-parts :
    (ss : List String) (k : List TokenKind) → length ss + length k ≤ length (parts_tokens ss k)
length-parts [] k = omega arith
length-parts (s ∷ ss) k = let rest = length-parts ss k in omega arith

if_length :
    (b : Bool) (k more : List TokenKind)
    → length k ≤ length more
    → length k ≤ length (if b then k else more)
if_length true k more h = omega arith
if_length false k more h = h

if_length_or :
    (b : Bool) (more k : List TokenKind)
    → length k ≤ length more
    → length k ≤ length (if b then more else k)
if_length_or true more k h = h
if_length_or false more k h = omega arith

module _ (style : Style) where
  length-value : (v : OptValue) (k : List TokenKind) → length k ≤ length (value_tokens style v k)
  length-value (bool true) k =
      if_length style.marker k (eq ∷ ident style.true_word ∷ k) (omega arith)
  length-value (bool false) k = omega arith
  length-value (text s) k = omega arith

  pub length-more :
      (os : List Opt) (k : List TokenKind) → length os + length k ≤ length (more_tokens style os k)
  length-more [] k = omega arith
  length-more (o ∷ os) k =
      let head = length-value o.value (more_tokens style os k) in
      let rest = length-more os k in omega arith

  length-options :
      (os : List Opt) (k : List TokenKind) → length k ≤ length (options_tokens style os k)
  length-options [] k = if_length_or style.brackets (l_bracket ∷ r_bracket ∷ k) k (omega arith)
  length-options (o ∷ os) k =
      let head = length-value o.value (more_tokens style os k) in
      let rest = length-more os k in omega arith

  pub length-properties :
      (ps : List Property) (k : List TokenKind)
      → length ps + length k ≤ length (property_tokens style ps k)
  length-properties [] k = omega arith
  length-properties (p ∷ ps) k =
      let behind = doc_tokens p.trailing_doc (property_tokens style ps k) in
      let docs = length-docs p.docs (bare_property style p behind) in
      let options =
        length-options p.options (type_tokens p.ty (ident p.name ∷ semicolon ∷ behind)) in
      let type = length-type p.ty (ident p.name ∷ semicolon ∷ behind) in
      let trailing = length-docs p.trailing_doc (property_tokens style ps k) in
      let rest = length-properties ps k in omega arith

  pub length-items :
      (is : List EnumItem) (k : List TokenKind)
      → length is + length k ≤ length (enum_item_tokens style is k)
  length-items [] k = omega arith
  length-items (i ∷ is) k =
      let behind = doc_tokens i.trailing_doc (enum_item_tokens style is k) in
      let docs = length-docs i.docs (bare_enum_item style i behind) in
      let value = length-item_value i.value (comma_tokens style i.name behind) in
      let mark = if_length_or (style.commas i.name) (comma ∷ behind) behind (omega arith) in
      let trailing = length-docs i.trailing_doc (enum_item_tokens style is k) in
      let rest = length-items is k in omega arith

  length-source :
      (s : Source) (k : List TokenKind) → suc (length k) ≤ length (source_tokens style s k)
  length-source (struct_source s) k =
      let body = l_brace ∷ property_tokens style s.properties (r_brace ∷ k) in
      let docs =
        length-docs s.docs (ident "struct" ∷ ident s.name ∷ options_tokens style s.options body) in
      let options = length-options s.options body in
      let properties = length-properties s.properties (r_brace ∷ k) in omega arith
  length-source (enum_source e) k =
      let body = enum_item_tokens style e.items (r_brace ∷ k) in
      let docs = length-docs e.docs (ident "enum" ∷ ident e.name ∷ l_brace ∷ body) in
      let items = length-items e.items (r_brace ∷ k) in omega arith
  length-source (import_source docs name) k =
      let before = length-docs docs (ident "import" ∷ ident name ∷ k) in omega arith
  length-source (package_source docs name parts) k =
      let before = length-docs docs (ident "package" ∷ ident name ∷ parts_tokens parts k) in
      let behind = length-parts parts k in omega arith

  pub length-file : (ss : List Source) → length ss ≤ length (file_tokens style ss)
  length-file [] = omega arith
  length-file (s ∷ ss) =
      let head = length-source s (file_tokens style ss) in let rest = length-file ss in omega arith
