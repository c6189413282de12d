-- ===== src/Parser/Examples.antt =====
-- The theorems on the parser at a concrete file, and runs.
use dots_rust.Prelude.{
  ℕ, ◌≡◌, refl, true, false, All, map, String, str_eq, none, some, List, [], ◌∷◌, arith,
}
use dots_rust.Prelude.Int.{pos, negsuc}
use dots_rust.Parser.Token.{
  ident, int, doc, l_brace, r_brace, l_bracket, r_bracket, colon, semicolon, eq, next_is,
  discriminant, and_then, ok, err, unexpected_end, unexpected_keyword, tag_out_of_range,
  bad_option_value,
}
use dots_rust.Parser.Ast.{
  bool, text, named, vector, instance_ref, Property, StructDef, EnumDef, struct, flag, option_named,
  is_cached, is_internal,
}
use dots_rust.Parser.Descent.{
  bump, take_doc_comments, expect_kind, expect_ident, is_allowed, expect_ident_keyword, expect_int,
  tag_of, parse_type, parse_option_value, parse_option, listed_options, parse_options,
  options_if_any, parse_property, parse_properties, parse_struct, parse_item, is_eof, parse_items,
  parse,
}
use dots_rust.Parser.Written.{
  Source, struct_source, enum_source, import_source, package_source, file_tokens, IsSource,
  IsTrailed, Style, item_of,
}
use dots_rust.Parser.RoundTrip.{parse-print}
use dots_rust.Parser.Total.{Finishes, parse_ends}

abbrev same_case : String → String
same_case s = s

abbrev id_property : Property
id_property = record {
  docs = "The key" ∷ [];
  trailing_doc = [];
  tag = 1;
  options = record { name = "key"; value = bool true } ∷ [];
  ty = named "uint32";
  name = "id";
}

abbrev peers_property : Property
peers_property = record {
  docs = [];
  trailing_doc = "Of the others" ∷ [];
  tag = 2;
  options = [];
  ty = vector (instance_ref (some "Lamp"));
  name = "peers";
}

abbrev lamp : StructDef
lamp = record {
  docs = "A lamp" ∷ [];
  name = "Lamp";
  options =
      record { name = "internal"; value = bool true }
      ∷ record { name = "cached"; value = bool false }
      ∷ record { name = "unit"; value = text "W" }
      ∷ [];
  properties = id_property ∷ peers_property ∷ [];
}

abbrev colour : EnumDef
colour = record {
  docs = [];
  name = "Colour";
  items =
      record { docs = []; tag = 1; name = "red"; value = none; trailing_doc = [] }
      ∷ record { docs = []; tag = 2; name = "blue"; value = some (negsuc 0); trailing_doc = [] }
      ∷ [];
}

abbrev home : List Source
home =
    package_source [] "com" ("example" ∷ [])
    ∷ import_source ("Units" ∷ []) "Unit"
    ∷ struct_source lamp
    ∷ enum_source colour
    ∷ []

lamp-IsSource : IsSource (struct_source lamp)
lamp-IsSource = ((omega arith, (refl, refl, refl)), ((omega arith, tt), tt))

home-IsSource : All IsSource home
home-IsSource = (tt, (tt, (lamp-IsSource, ((omega arith, (omega arith, tt)), tt))))

home-IsTrailed : All IsTrailed home
home-IsTrailed = (tt, (tt, ((refl, (refl, tt)), ((refl, (refl, tt)), tt))))

-- A true option is a bare name, no options are an empty list, and one item of two has a comma.
abbrev terse : Style
terse = record {
  marker = true;
  true_word = "true";
  false_word = "false";
  brackets = true;
  commas = λ name. str_eq name "red";
}

parse-print_example :
    parse same_case (file_tokens terse home) ≡ ok (record { items = map item_of home }) []
parse-print_example = parse-print same_case terse (refl, refl) home home-IsSource home-IsTrailed

parse_ends_example : Finishes (parse same_case (ident "struct" ∷ ident "Lamp" ∷ l_brace ∷ []))
parse_ends_example = parse_ends same_case (ident "struct" ∷ ident "Lamp" ∷ l_brace ∷ [])

abbrev plain_property : ℕ → String → List String → Property
plain_property tag name trailing = record {
  docs = [];
  trailing_doc = trailing;
  tag = tag;
  options = [];
  ty = named "uint32";
  name = name;
}

abbrev moved : StructDef
moved = record {
  docs = [];
  name = "Lamp";
  options = [];
  properties = plain_property 1 "id" ("Of the others" ∷ []) ∷ plain_property 2 "peer" [] ∷ [];
}

-- A comment over the second property is stored behind the first, on whatever line it stands.
comment_moves :
    parse same_case (
      ident "struct"
      ∷ ident "Lamp"
      ∷ l_brace
      ∷ int (pos 1)
      ∷ colon
      ∷ ident "uint32"
      ∷ ident "id"
      ∷ semicolon
      ∷ doc "Of the others"
      ∷ int (pos 2)
      ∷ colon
      ∷ ident "uint32"
      ∷ ident "peer"
      ∷ semicolon
      ∷ r_brace
      ∷ [])
    ≡ ok (record { items = struct moved ∷ [] }) []
unfolding parse parse_items parse_item parse_struct parse_properties parse_property options_if_any
    parse_type take_doc_comments expect_kind expect_ident is_allowed expect_ident_keyword expect_int
    tag_of is_eof next_is discriminant and_then
comment_moves = refl

lamp_flags : (is_cached lamp ≡ false) × (is_internal lamp ≡ true)
unfolding is_cached is_internal flag option_named
lamp_flags = (refl, refl)

negative_tag :
    parse same_case (ident "struct" ∷ ident "Lamp" ∷ l_brace ∷ int (negsuc 0) ∷ colon ∷ [])
    ≡ err tag_out_of_range
unfolding parse parse_items parse_item parse_struct parse_properties parse_property options_if_any
    take_doc_comments expect_kind expect_ident is_allowed expect_ident_keyword expect_int tag_of
    is_eof next_is discriminant and_then
negative_tag = refl

cut_file : parse same_case (ident "struct" ∷ ident "Lamp" ∷ []) ≡ err unexpected_end
unfolding parse parse_items parse_item parse_struct options_if_any take_doc_comments expect_kind
    expect_ident is_allowed expect_ident_keyword is_eof next_is discriminant and_then
cut_file = refl

no_keyword : parse same_case (ident "class" ∷ []) ≡ err unexpected_keyword
unfolding parse parse_items take_doc_comments expect_ident is_allowed expect_ident_keyword is_eof
    and_then
no_keyword = refl

bad_option :
    options_if_any same_case (l_bracket ∷ ident "cached" ∷ eq ∷ ident "maybe" ∷ r_bracket ∷ [])
    ≡ err bad_option_value
unfolding options_if_any parse_options listed_options parse_option parse_option_value expect_kind
    expect_ident bump next_is discriminant and_then
bad_option = refl
