-- ===== src/Parser/RoundTrip.antt =====
-- `parse` of crates/dots-rs-build/src/parser.rs on written files.
use dots_rust.Prelude.{
  ℕ, ap, ◌∙◌, ◌++◌, append-nil, subst, map, zero, suc, ◌<◌, ◌≡◌, refl, false, String, str_append,
  List, [], ◌∷◌, arith, length, All,
}
use dots_rust.Parser.Token.{
  TokenKind, ident, dot, next_is, discriminant, ok, and_then, l_brace, r_brace,
}
use dots_rust.Parser.Descent.{
  bump, take_doc_comments, expect_ident, expect_ident_keyword, is_allowed, is_eof, keywords,
  dotted_rest, parse_dotted_name, parse_item, parse_items, parse,
}
use dots_rust.Parser.Written.{
  Style, IsStyle, IsTrailed, AreTrailed, AreItemsTrailed, item_of, settle, settle_items, first_docs,
  first_item_docs, Source, struct_source, enum_source, import_source, package_source, IsSource,
  doc_tokens, parts_tokens, source_tokens, file_tokens, joined, meaning, meanings, options_tokens,
  property_tokens, enum_item_tokens,
}
use dots_rust.Parser.Sizes.{length-parts, length-file}
use dots_rust.Parser.Options.{take_doc_comments-stops}
use dots_rust.Parser.Properties.{parse_struct-written}
use dots_rust.Parser.Enums.{parse_enum-written}
use dots_rust.Parser.Ast.{Property, EnumItem, struct, enum}

dotted_rest-written :
    (out : String) (parts : List String) (k : List TokenKind) (fuel : ℕ)
    → next_is dot k ≡ false
    → length parts < fuel
    → dotted_rest fuel out (parts_tokens parts k) ≡ ok (joined out parts) k
unfolding dotted_rest next_is discriminant bump expect_ident and_then
dotted_rest-written out parts k zero h enough = absurd (omega arith)
dotted_rest-written out [] k (suc fuel) h enough = rw h refl
dotted_rest-written out (s ∷ ss) k (suc fuel) h enough =
    dotted_rest-written (str_append (str_append out ".") s) ss k fuel h (omega arith)

parse_dotted_name-written :
    (name : String) (parts : List String) (k : List TokenKind)
    → next_is dot k ≡ false
    → parse_dotted_name (ident name ∷ parts_tokens parts k) ≡ ok (joined name parts) k
unfolding parse_dotted_name expect_ident and_then
parse_dotted_name-written name parts k h =
    let enough = length-parts parts k in
    dotted_rest-written name parts k (suc (length (parts_tokens parts k))) h (omega arith)

docs_apart :
    (ds : List String) (name : String) (k : List TokenKind)
    → next_is dot (doc_tokens ds (ident name ∷ k)) ≡ false
unfolding next_is discriminant
docs_apart [] name k = refl
docs_apart (d ∷ ds) name k = refl

module _ (style : Style) where
  file_apart : (ss : List Source) → next_is dot (file_tokens style ss) ≡ false
  unfolding next_is
  file_apart [] = refl
  file_apart (struct_source s ∷ ss) = docs_apart s.docs "struct" _
  file_apart (enum_source e ∷ ss) = docs_apart e.docs "enum" _
  file_apart (import_source docs name ∷ ss) = docs_apart docs "import" _
  file_apart (package_source docs name parts ∷ ss) = docs_apart docs "package" _

-- What an item begins with behind its comments.
abbrev word_of : Source → String
word_of (struct_source s) = "struct"
word_of (enum_source e) = "enum"
word_of (import_source docs name) = "import"
word_of (package_source docs name parts) = "package"

abbrev docs_of : Source → List String
docs_of (struct_source s) = s.docs
docs_of (enum_source e) = e.docs
docs_of (import_source docs name) = docs
docs_of (package_source docs name parts) = docs

module _ (style : Style) where
  abbrev body_of : Source → List TokenKind → List TokenKind
  body_of (struct_source s) k =
      ident s.name
      ∷ options_tokens style s.options (l_brace ∷ property_tokens style s.properties (r_brace ∷ k))
  body_of (enum_source e) k = ident e.name ∷ l_brace ∷ enum_item_tokens style e.items (r_brace ∷ k)
  body_of (import_source docs name) k = ident name ∷ k
  body_of (package_source docs name parts) k = ident name ∷ parts_tokens parts k

  take_doc_comments-source :
      (s : Source) (k : List TokenKind)
      → take_doc_comments (source_tokens style s k) ≡ (docs_of s, ident (word_of s) ∷ body_of s k)
  unfolding take_doc_comments
  take_doc_comments-source (struct_source s) k = take_doc_comments-stops s.docs _ refl
  take_doc_comments-source (enum_source e) k = take_doc_comments-stops e.docs _ refl
  take_doc_comments-source (import_source docs name) k = take_doc_comments-stops docs _ refl
  take_doc_comments-source (package_source docs name parts) k = take_doc_comments-stops docs _ refl

expect_ident_keyword-word :
    (s : Source) (k : List TokenKind)
    → expect_ident_keyword keywords (ident (word_of s) ∷ k) ≡ ok (word_of s) k
unfolding expect_ident_keyword expect_ident and_then is_allowed
expect_ident_keyword-word (struct_source s) k = refl
expect_ident_keyword-word (enum_source e) k = refl
expect_ident_keyword-word (import_source docs name) k = refl
expect_ident_keyword-word (package_source docs name parts) k = refl

settle_trailed : (ps : List Property) → AreTrailed ps → settle (first_docs ps) ps ≡ ps
settle_trailed [] h = refl
settle_trailed (p ∷ []) h = λ i. record p { trailing_doc = append-nil p.trailing_doc i } ∷ []
settle_trailed (p ∷ q ∷ ps) (e, h) =
    let rest : settle [] (q ∷ ps) ≡ q ∷ ps =
      subst (λ ds. settle ds (q ∷ ps) ≡ q ∷ ps) e (settle_trailed (q ∷ ps) h) in
    let trailing : p.trailing_doc ++ q.docs ≡ p.trailing_doc =
      ap (λ ds. p.trailing_doc ++ ds) e ∙ append-nil p.trailing_doc in
    λ i. record p { trailing_doc = trailing i } ∷ rest i

settle_items_trailed :
    (is : List EnumItem) → AreItemsTrailed is → settle_items (first_item_docs is) is ≡ is
settle_items_trailed [] h = refl
settle_items_trailed (i ∷ []) h = λ t. record i { trailing_doc = append-nil i.trailing_doc t } ∷ []
settle_items_trailed (i ∷ j ∷ is) (e, h) =
    let rest : settle_items [] (j ∷ is) ≡ j ∷ is =
      subst (λ ds. settle_items ds (j ∷ is) ≡ j ∷ is) e (settle_items_trailed (j ∷ is) h) in
    let trailing : i.trailing_doc ++ j.docs ≡ i.trailing_doc =
      ap (λ ds. i.trailing_doc ++ ds) e ∙ append-nil i.trailing_doc in
    λ t. record i { trailing_doc = trailing t } ∷ rest t

meaning-item_of : (s : Source) → IsTrailed s → meaning s ≡ item_of s
meaning-item_of (struct_source s) h =
    λ i. struct (record s { properties = settle_trailed s.properties h i })
meaning-item_of (enum_source e) h =
    λ i. enum (record e { items = settle_items_trailed e.items h i })
meaning-item_of (import_source docs name) h = refl
meaning-item_of (package_source docs name parts) h = refl

meanings-map : (ss : List Source) → All IsTrailed ss → meanings ss ≡ map item_of ss
meanings-map [] h = refl
meanings-map (s ∷ ss) (h, hs) = λ i. meaning-item_of s h i ∷ meanings-map ss hs i

module _ (to_lowercase : String → String) (style : Style) (words : IsStyle to_lowercase style) where
  parse_item-written :
      (s : Source) (k : List TokenKind)
      → IsSource s
      → next_is dot k ≡ false
      → parse_item to_lowercase (word_of s) (docs_of s) (body_of style s k) ≡ ok (meaning s) k
  unfolding parse_item and_then expect_ident
  parse_item-written (struct_source s) k h d =
      rw (parse_struct-written to_lowercase style words s k h) refl
  parse_item-written (enum_source e) k h d = rw (parse_enum-written style e k h) refl
  parse_item-written (import_source docs name) k h d = refl
  parse_item-written (package_source docs name parts) k h d =
      rw (parse_dotted_name-written name parts k d) refl

  parse_items-written :
      (ss : List Source) (fuel : ℕ)
      → All IsSource ss
      → length ss < fuel
      → parse_items to_lowercase fuel (file_tokens style ss) ≡ ok (meanings ss) []
  unfolding parse_items take_doc_comments is_eof and_then
  parse_items-written ss zero h enough = absurd (omega arith)
  parse_items-written [] (suc fuel) h enough = refl
  parse_items-written (s ∷ ss) (suc fuel) (here, others) enough =
      let start = take_doc_comments-source style s (file_tokens style ss) in
      let word = expect_ident_keyword-word s (body_of style s (file_tokens style ss)) in
      let head = parse_item-written s (file_tokens style ss) here (file_apart style ss) in
      let rest = parse_items-written ss fuel others (omega arith) in
      rw (start, word, head, rest) refl

  parse-written :
      (ss : List Source)
      → All IsSource ss
      → parse to_lowercase (file_tokens style ss) ≡ ok (record { items = meanings ss }) []
  unfolding parse and_then
  parse-written ss h =
      let enough = length-file style ss in
      let items = parse_items-written ss (suc (length (file_tokens style ss))) h (omega arith) in
      rw items refl

  -- A file that is written in the grammar, in any style, is read back as it is, when the tags are in
  -- the width of a tag, no name of a type is one of the two special words or empty, and no comment
  -- stands over a property or an item of an enum but over the first of its list.
  pub parse-print :
      (ss : List Source)
      → All IsSource ss
      → All IsTrailed ss
      → parse to_lowercase (file_tokens style ss) ≡ ok (record { items = map item_of ss }) []
  parse-print ss h trailed =
      parse-written ss h ∙ ap (λ is. ok (record { items = is }) []) (meanings-map ss trailed)
