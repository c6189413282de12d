-- ===== src/Parser/Written.antt =====
-- The grammar at the head of crates/dots-rs-build/src/parser.rs, as a printer: what is written, the
-- tokens of it in front of what follows, and the syntax tree that it means.
use dots_rust.Prelude.{
  ◌^◌, ◌<◌, ◌≡◌, true, false, String, Bool, if◌then◌else◌, str_append, str_eq, Option, none, some,
  List, [], ◌∷◌, ◌++◌, All,
}
use dots_rust.Prelude.Int.{ℤ, pos}
use dots_rust.Parser.Token.{
  TokenKind, ident, int, str, doc, l_brace, r_brace, l_bracket, r_bracket, l_angle, r_angle, colon,
  semicolon, comma, eq, dot,
}
use dots_rust.Parser.Ast.{
  OptValue, bool, text, Opt, PropertyType, named, vector, instance_ref, Property, EnumItem,
  StructDef, EnumDef, Item, struct, enum, import_of, package_of,
}

-- An item of a file. A package name is written in parts, and an import or a package may have
-- comments over it.
pub data Source : Type 0 where
  struct_source : StructDef → Source
  enum_source : EnumDef → Source
  import_source : List String → String → Source
  package_source : List String → String → List String → Source

abbrev pub doc_tokens : List String → List TokenKind → List TokenKind
doc_tokens [] k = k
doc_tokens (d ∷ ds) k = doc d ∷ doc_tokens ds k

-- How the writer uses the freedom of the grammar: a true option with or without its value, the
-- spelling of the two values, an empty list of options, and the commas behind the items of an enum.
pub record Style : Type 0 where
  pub marker : Bool
  pub true_word : String
  pub false_word : String
  pub brackets : Bool
  pub commas : String → Bool

abbrev pub type_tokens : PropertyType → List TokenKind → List TokenKind
type_tokens (named name) k = ident name ∷ k
type_tokens (vector t) k = ident "vector" ∷ l_angle ∷ type_tokens t (r_angle ∷ k)
type_tokens (instance_ref none) k = ident "instance_ref" ∷ k
type_tokens (instance_ref (some target)) k =
    ident "instance_ref" ∷ l_angle ∷ ident target ∷ r_angle ∷ k

abbrev pub item_value_tokens : Option ℤ → List TokenKind → List TokenKind
item_value_tokens none k = k
item_value_tokens (some n) k = eq ∷ int n ∷ k

abbrev pub parts_tokens : List String → List TokenKind → List TokenKind
parts_tokens [] k = k
parts_tokens (s ∷ ss) k = dot ∷ ident s ∷ parts_tokens ss k

module _ (style : Style) where
  abbrev pub comma_tokens : String → List TokenKind → List TokenKind
  comma_tokens name k = if style.commas name then comma ∷ k else k

  abbrev pub value_tokens : OptValue → List TokenKind → List TokenKind
  value_tokens (bool true) k = if style.marker then k else eq ∷ ident style.true_word ∷ k
  value_tokens (bool false) k = eq ∷ ident style.false_word ∷ k
  value_tokens (text s) k = eq ∷ str s ∷ k

  abbrev pub option_tokens : Opt → List TokenKind → List TokenKind
  option_tokens o k = ident o.name ∷ value_tokens o.value k

  abbrev pub more_tokens : List Opt → List TokenKind → List TokenKind
  more_tokens [] k = r_bracket ∷ k
  more_tokens (o ∷ os) k = comma ∷ option_tokens o (more_tokens os k)

  -- No options are written as no list or as an empty one.
  abbrev pub options_tokens : List Opt → List TokenKind → List TokenKind
  options_tokens [] k = if style.brackets then l_bracket ∷ r_bracket ∷ k else k
  options_tokens (o ∷ os) k = l_bracket ∷ option_tokens o (more_tokens os k)

  -- A property behind its comments, without the comments behind it.
  abbrev pub bare_property : Property → List TokenKind → List TokenKind
  bare_property p k =
      int (pos p.tag)
      ∷ colon
      ∷ options_tokens p.options (type_tokens p.ty (ident p.name ∷ semicolon ∷ k))

  abbrev pub property_tokens : List Property → List TokenKind → List TokenKind
  property_tokens [] k = k
  property_tokens (p ∷ ps) k =
      doc_tokens p.docs (bare_property p (doc_tokens p.trailing_doc (property_tokens ps k)))

  abbrev pub bare_enum_item : EnumItem → List TokenKind → List TokenKind
  bare_enum_item i k =
      int (pos i.tag) ∷ colon ∷ ident i.name ∷ item_value_tokens i.value (comma_tokens i.name k)

  abbrev pub enum_item_tokens : List EnumItem → List TokenKind → List TokenKind
  enum_item_tokens [] k = k
  enum_item_tokens (i ∷ is) k =
      doc_tokens i.docs (bare_enum_item i (doc_tokens i.trailing_doc (enum_item_tokens is k)))

  abbrev pub source_tokens : Source → List TokenKind → List TokenKind
  source_tokens (struct_source s) k = doc_tokens s.docs (
      ident "struct"
      ∷ ident s.name
      ∷ options_tokens s.options (l_brace ∷ property_tokens s.properties (r_brace ∷ k)))
  source_tokens (enum_source e) k =
      doc_tokens e.docs
        (ident "enum" ∷ ident e.name ∷ l_brace ∷ enum_item_tokens e.items (r_brace ∷ k))
  source_tokens (import_source docs name) k = doc_tokens docs (ident "import" ∷ ident name ∷ k)
  source_tokens (package_source docs name parts) k =
      doc_tokens docs (ident "package" ∷ ident name ∷ parts_tokens parts k)

  abbrev pub file_tokens : List Source → List TokenKind
  file_tokens [] = []
  file_tokens (s ∷ ss) = source_tokens s (file_tokens ss)

-- The comments over the head of a list.
abbrev pub first_docs : List Property → List String
first_docs [] = []
first_docs (p ∷ ps) = p.docs

abbrev pub first_item_docs : List EnumItem → List String
first_item_docs [] = []
first_item_docs (i ∷ is) = i.docs

-- The comments over a property are taken for comments behind the property before it, where there is
-- one.
abbrev pub settle : List String → List Property → List Property
settle docs [] = []
settle docs (p ∷ ps) =
    record {
      docs = docs;
      trailing_doc = p.trailing_doc ++ first_docs ps;
      tag = p.tag;
      options = p.options;
      ty = p.ty;
      name = p.name;
    }
    ∷ settle [] ps

abbrev pub settle_items : List String → List EnumItem → List EnumItem
settle_items docs [] = []
settle_items docs (i ∷ is) =
    record {
      docs = docs;
      tag = i.tag;
      name = i.name;
      value = i.value;
      trailing_doc = i.trailing_doc ++ first_item_docs is;
    }
    ∷ settle_items [] is

abbrev pub joined : String → List String → String
joined out [] = out
joined out (s ∷ ss) = joined (str_append (str_append out ".") s) ss

abbrev pub meaning : Source → Item
meaning (struct_source s) = struct (record {
  docs = s.docs;
  name = s.name;
  options = s.options;
  properties = settle (first_docs s.properties) s.properties;
})
meaning (enum_source e) = enum (record {
  docs = e.docs;
  name = e.name;
  items = settle_items (first_item_docs e.items) e.items;
})
meaning (import_source docs name) = import_of name
meaning (package_source docs name parts) = package_of (joined name parts)

abbrev pub meanings : List Source → List Item
meanings [] = []
meanings (s ∷ ss) = meaning s ∷ meanings ss

-- The item that is read back when no comment stands between two properties, or two items of an enum,
-- but those that belong to the first.
abbrev pub item_of : Source → Item
item_of (struct_source s) = struct s
item_of (enum_source e) = enum e
item_of (import_source docs name) = import_of name
item_of (package_source docs name parts) = package_of (joined name parts)

-- Only the first has comments over it.
abbrev pub AreTrailed : List Property → Type 0
AreTrailed [] = Unit
AreTrailed (p ∷ ps) = (first_docs ps ≡ []) × AreTrailed ps

abbrev pub AreItemsTrailed : List EnumItem → Type 0
AreItemsTrailed [] = Unit
AreItemsTrailed (i ∷ is) = (first_item_docs is ≡ []) × AreItemsTrailed is

abbrev pub IsTrailed : Source → Type 0
IsTrailed (struct_source s) = AreTrailed s.properties
IsTrailed (enum_source e) = AreItemsTrailed e.items
IsTrailed (import_source docs name) = Unit
IsTrailed (package_source docs name parts) = Unit

-- The two words are read as the two values.
abbrev pub IsStyle : (String → String) → Style → Type 0
IsStyle to_lowercase style =
    (to_lowercase style.true_word ≡ "true") × (to_lowercase style.false_word ≡ "false")

-- What can be written: the name of a type is not a word that the parser reads as another type, and
-- a tag fits its width.
abbrev pub IsPlain : PropertyType → Type 0
IsPlain (named name) =
    (str_eq name "vector" ≡ false) × (str_eq name "instance_ref" ≡ false) × (str_eq name "" ≡ false)
IsPlain (vector t) = IsPlain t
IsPlain (instance_ref target) = Unit

abbrev pub IsWritable : Property → Type 0
IsWritable p = (p.tag < 2 ^ 32) × IsPlain p.ty

abbrev pub IsSource : Source → Type 0
IsSource (struct_source s) = All IsWritable s.properties
IsSource (enum_source e) = All (λ (i : EnumItem). i.tag < 2 ^ 32) e.items
IsSource (import_source docs name) = Unit
IsSource (package_source docs name parts) = Unit
