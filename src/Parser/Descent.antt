-- ===== src/Parser/Descent.antt =====
-- The methods of `Parser`, crates/dots-rs-build/src/parser.rs, in its order, and `parse`. A loop runs
-- on fuel, one more than the tokens that are left: every round takes a token. The lower-case form of
-- a text is a parameter.
use dots_rust.Prelude.{
  ℕ, zero, suc, ◌^◌, Bool, true, false, not, ◌||◌, ltb, String, str_append, str_eq, Option, none,
  some, List, [], ◌∷◌, if◌then◌else◌, length,
}
use dots_rust.Prelude.Int.{ℤ, pos, negsuc}
use dots_rust.Parser.Token.{
  TokenKind, ident, int, str, doc, l_brace, r_brace, l_bracket, r_bracket, l_angle, r_angle, colon,
  semicolon, comma, eq, dot, next_is, unexpected_end, unexpected_token, unexpected_keyword,
  tag_out_of_range, empty_type_name, bad_option_value, out_of_fuel, Parsed, ok, err, and_then,
}
use dots_rust.Parser.Ast.{
  OptValue, bool, text, Opt, PropertyType, named, vector, instance_ref, Property, EnumItem,
  StructDef, EnumDef, Item, struct, enum, import_of, package_of, File,
}

unfoldable pub bump : List TokenKind → List TokenKind
bump [] = []
bump (t ∷ ts) = ts

unfoldable pub take_doc_comments : List TokenKind → List String × List TokenKind
take_doc_comments (doc s ∷ ts) = let rest = take_doc_comments ts in (s ∷ rest.0, rest.1)
take_doc_comments ts = ([], ts)

unfoldable pub expect_kind : TokenKind → List TokenKind → Parsed TokenKind
expect_kind want [] = err unexpected_end
expect_kind want (t ∷ ts) = if next_is want (t ∷ ts) then ok t ts else err unexpected_token

unfoldable pub expect_ident : List TokenKind → Parsed String
expect_ident (ident s ∷ ts) = ok s ts
expect_ident ts = err unexpected_token

unfoldable pub is_allowed : List String → String → Bool
is_allowed [] name = false
is_allowed (k ∷ ks) name = str_eq k name || is_allowed ks name

unfoldable pub expect_ident_keyword : List String → List TokenKind → Parsed String
expect_ident_keyword allowed ts =
    and_then (expect_ident ts)
      (λ name rest. if is_allowed allowed name then ok name rest else err unexpected_keyword)

unfoldable pub expect_int : List TokenKind → Parsed ℤ
expect_int (int n ∷ ts) = ok n ts
expect_int ts = err unexpected_token

-- `tag_signed.try_into()`
unfoldable pub tag_of : ℤ → List TokenKind → Parsed ℕ
tag_of (pos n) ts = if ltb n (2 ^ 32) then ok n ts else err tag_out_of_range
tag_of (negsuc n) ts = err tag_out_of_range

unfoldable pub dotted_rest : ℕ → String → List TokenKind → Parsed String
dotted_rest zero out ts = err out_of_fuel
dotted_rest (suc fuel) out ts =
    if next_is dot ts
    then and_then (expect_ident (bump ts))
        (λ s rest. dotted_rest fuel (str_append (str_append out ".") s) rest)
    else ok out ts

unfoldable pub parse_dotted_name : List TokenKind → Parsed String
parse_dotted_name ts = and_then (expect_ident ts) (λ s rest. dotted_rest (suc (length rest)) s rest)

unfoldable pub closing_angle : {A : Type 0} → A → List TokenKind → Parsed A
closing_angle a ts = and_then (expect_kind r_angle ts) (λ _ rest. ok a rest)

unfoldable pub instance_target : List TokenKind → Parsed PropertyType
instance_target ts =
    if not (next_is l_angle ts)
    then ok (instance_ref none) ts
    else and_then (expect_ident (bump ts))
        (λ target rest. closing_angle (instance_ref (some target)) rest)

unfoldable pub parse_type : ℕ → List TokenKind → Parsed PropertyType
parse_type zero ts = err out_of_fuel
parse_type (suc fuel) ts = and_then (expect_ident ts) (λ name rest.
    if str_eq name "vector"
    then and_then (expect_kind l_angle rest) (λ _ rest.
      and_then (parse_type fuel rest) (λ inner rest. closing_angle (vector inner) rest))
    else if str_eq name "instance_ref"
    then instance_target rest
    else if str_eq name ""
    then err empty_type_name
    else ok (named name) rest)

module _ (to_lowercase : String → String) where
  unfoldable pub parse_option_value : List TokenKind → Parsed OptValue
  parse_option_value (str s ∷ ts) = ok (text s) ts
  parse_option_value (ident s ∷ ts) =
      if str_eq (to_lowercase s) "true"
      then ok (bool true) ts
      else if str_eq (to_lowercase s) "false"
      then ok (bool false) ts
      else err bad_option_value
  parse_option_value ts = err bad_option_value

  unfoldable pub parse_option : List TokenKind → Parsed Opt
  parse_option ts = and_then (expect_ident ts) (λ name rest.
      if next_is eq rest
      then and_then (parse_option_value (bump rest))
          (λ value rest. ok (record { name = name; value = value }) rest)
      else ok (record { name = name; value = bool true }) rest)

  unfoldable pub more_options : ℕ → List TokenKind → Parsed (List Opt)
  more_options zero ts = err out_of_fuel
  more_options (suc fuel) ts =
      if next_is comma ts
      then and_then (parse_option (bump ts))
          (λ o rest. and_then (more_options fuel rest) (λ os rest. ok (o ∷ os) rest))
      else ok [] ts

  unfoldable pub listed_options : List TokenKind → Parsed (List Opt)
  listed_options ts =
      if not (next_is r_bracket ts)
      then and_then (parse_option ts)
          (λ o rest. and_then (more_options (suc (length rest)) rest) (λ os rest. ok (o ∷ os) rest))
      else ok [] ts

  unfoldable pub parse_options : List TokenKind → Parsed (List Opt)
  parse_options ts = and_then (expect_kind l_bracket ts) (λ _ rest.
      and_then (listed_options rest)
        (λ os rest. and_then (expect_kind r_bracket rest) (λ _ rest. ok os rest)))

  unfoldable pub options_if_any : List TokenKind → Parsed (List Opt)
  options_if_any ts = if next_is l_bracket ts then parse_options ts else ok [] ts

  unfoldable pub parse_property : List TokenKind → Parsed Property
  parse_property ts =
      let docs = take_doc_comments ts in
      and_then (expect_int docs.1) (λ tag_signed rest.
        and_then (tag_of tag_signed rest) (λ tag rest. and_then (expect_kind colon rest) (λ _ rest.
          and_then (options_if_any rest) (λ options rest.
            and_then (parse_type (suc (length rest)) rest) (λ ty rest.
              and_then (expect_ident rest) (λ name rest.
                and_then (expect_kind semicolon rest) (λ _ rest.
                  let trailing = take_doc_comments rest in
                  ok
                    (record {
                      docs = docs.0;
                      trailing_doc = trailing.0;
                      tag = tag;
                      options = options;
                      ty = ty;
                      name = name;
                    })
                    trailing.1)))))))

  unfoldable pub parse_properties : ℕ → List TokenKind → Parsed (List Property)
  parse_properties zero ts = err out_of_fuel
  parse_properties (suc fuel) ts =
      if not (next_is r_brace ts)
      then and_then (parse_property ts)
          (λ p rest. and_then (parse_properties fuel rest) (λ ps rest. ok (p ∷ ps) rest))
      else ok [] ts

  unfoldable pub parse_struct : List String → List TokenKind → Parsed StructDef
  parse_struct docs ts = and_then (expect_ident ts) (λ name rest.
      and_then (options_if_any rest) (λ options rest. and_then (expect_kind l_brace rest) (λ _ rest.
        and_then (parse_properties (suc (length rest)) rest) (λ properties rest.
          and_then (expect_kind r_brace rest) (λ _ rest.
            ok (record { docs = docs; name = name; options = options; properties = properties })
              rest)))))

unfoldable pub item_value : List TokenKind → Parsed (Option ℤ)
item_value ts =
    if next_is eq ts
    then and_then (expect_int (bump ts)) (λ n rest. ok (some n) rest)
    else ok none ts

unfoldable pub parse_enum_item : List TokenKind → Parsed EnumItem
parse_enum_item ts =
    let docs = take_doc_comments ts in
    and_then (expect_int docs.1) (λ tag_signed rest. and_then (tag_of tag_signed rest) (λ tag rest.
      and_then (expect_kind colon rest) (λ _ rest. and_then (expect_ident rest) (λ name rest.
        and_then (item_value rest) (λ value rest.
          let trailing = take_doc_comments (if next_is comma rest then bump rest else rest) in
          ok
            (record {
              docs = docs.0;
              tag = tag;
              name = name;
              value = value;
              trailing_doc = trailing.0;
            })
            trailing.1)))))

unfoldable pub parse_enum_items : ℕ → List TokenKind → Parsed (List EnumItem)
parse_enum_items zero ts = err out_of_fuel
parse_enum_items (suc fuel) ts =
    if not (next_is r_brace ts)
    then and_then (parse_enum_item ts)
        (λ i rest. and_then (parse_enum_items fuel rest) (λ is rest. ok (i ∷ is) rest))
    else ok [] ts

unfoldable pub parse_enum : List String → List TokenKind → Parsed EnumDef
parse_enum docs ts = and_then (expect_ident ts) (λ name rest.
    and_then (expect_kind l_brace rest) (λ _ rest.
      and_then (parse_enum_items (suc (length rest)) rest) (λ items rest.
        and_then (expect_kind r_brace rest)
          (λ _ rest. ok (record { docs = docs; name = name; items = items }) rest))))

abbrev pub keywords : List String
keywords = "struct" ∷ "enum" ∷ "import" ∷ "package" ∷ []

unfoldable pub is_eof : List TokenKind → Bool
is_eof [] = true
is_eof (t ∷ ts) = false

module _ (to_lowercase : String → String) where
  unfoldable pub parse_item : String → List String → List TokenKind → Parsed Item
  parse_item keyword docs ts =
      if str_eq keyword "struct"
      then and_then (parse_struct to_lowercase docs ts) (λ s rest. ok (struct s) rest)
      else if str_eq keyword "enum"
      then and_then (parse_enum docs ts) (λ e rest. ok (enum e) rest)
      else if str_eq keyword "import"
      then and_then (expect_ident ts) (λ name rest. ok (import_of name) rest)
      else and_then (parse_dotted_name ts) (λ name rest. ok (package_of name) rest)

  unfoldable pub parse_items : ℕ → List TokenKind → Parsed (List Item)
  parse_items zero ts = err out_of_fuel
  parse_items (suc fuel) ts =
      let docs = take_doc_comments ts in
      if is_eof docs.1
      then ok [] []
      else and_then (expect_ident_keyword keywords docs.1) (λ keyword rest.
        and_then (parse_item keyword docs.0 rest)
          (λ i rest. and_then (parse_items fuel rest) (λ is rest. ok (i ∷ is) rest)))

  unfoldable pub parse : List TokenKind → Parsed File
  parse ts =
      and_then (parse_items (suc (length ts)) ts) (λ items rest. ok (record { items = items }) rest)
