-- ===== src/Parser/Enums.antt =====
-- Lemmas on `parse_enum_item` and `parse_enum` of crates/dots-rs-build/src/parser.rs on written enums.
use dots_rust.Prelude.{
  ℕ, zero, suc, ◌^◌, ◌<◌, ◌≡◌, refl, if◌then◌else◌, Bool-cases, inl, inr, ap, ◌∙◌, false, String,
  Option, none, some, List, [], ◌∷◌, ◌++◌, arith, length, All,
}
use dots_rust.Prelude.Int.{ℤ}
use dots_rust.Parser.Token.{
  TokenKind, eq, ident, colon, comma, l_brace, r_brace, next_is, discriminant, ok, and_then,
}
use dots_rust.Parser.Ast.{EnumItem, EnumDef}
use dots_rust.Parser.Descent.{
  bump, take_doc_comments, expect_ident, expect_kind, expect_int, item_value, parse_enum_item,
  parse_enum_items, parse_enum,
}
use dots_rust.Parser.Written.{
  Style, comma_tokens, doc_tokens, item_value_tokens, bare_enum_item, enum_item_tokens,
  first_item_docs, settle_items,
}
use dots_rust.Parser.Sizes.{length-items}
use dots_rust.Parser.Options.{take_doc_comments-written, take_doc_comments-stops}
use dots_rust.Parser.Properties.{tag_of-fits}

module _ (style : Style) where
  item_value-written :
      (v : Option ℤ) (name : String) (k : List TokenKind)
      → next_is eq k ≡ false
      → item_value (item_value_tokens v (comma_tokens style name k))
        ≡ ok v (comma_tokens style name k)
  unfolding item_value next_is discriminant bump expect_int and_then
  item_value-written none name k h = elim (Bool-cases (style.commas name)) [
    | inl marked ↦ rw marked refl
    | inr bare ↦ rw (bare, h) refl
  ]
  item_value-written (some n) name k h = refl

  bump-comma :
      (name : String) (k : List TokenKind)
      → next_is comma k ≡ false
      → let rest = comma_tokens style name k in (if next_is comma rest then bump rest else rest) ≡ k
  unfolding next_is discriminant bump
  bump-comma name k h = elim (Bool-cases (style.commas name)) [
    | inl marked ↦ rw marked refl
    | inr bare ↦ rw (bare, h) refl
  ]

  -- What stands behind an item is a comment, an item or the end.
  docs_apart :
      (ds : List String) (i : EnumItem) (k : List TokenKind)
      → let rest = doc_tokens ds (bare_enum_item style i k) in
        (next_is eq rest ≡ false) × (next_is comma rest ≡ false)
  unfolding next_is discriminant
  docs_apart [] i k = (refl, refl)
  docs_apart (d ∷ ds) i k = (refl, refl)

  items_apart :
      (ds : List String) (is : List EnumItem) (k : List TokenKind)
      → let rest = doc_tokens ds (enum_item_tokens style is (r_brace ∷ k)) in
        (next_is eq rest ≡ false) × (next_is comma rest ≡ false)
  unfolding next_is discriminant
  items_apart (d ∷ ds) is k = (refl, refl)
  items_apart [] [] k = (refl, refl)
  items_apart [] (i ∷ is) k = docs_apart i.docs i _

  abbrev headed : List String → List EnumItem → List TokenKind → List TokenKind
  headed ds [] k = r_brace ∷ k
  headed ds (i ∷ is) k =
      doc_tokens ds (
        bare_enum_item style i
          (doc_tokens i.trailing_doc (enum_item_tokens style is (r_brace ∷ k))))

  headed-first :
      (is : List EnumItem) (k : List TokenKind)
      → enum_item_tokens style is (r_brace ∷ k) ≡ headed (first_item_docs is) is k
  headed-first [] k = refl
  headed-first (i ∷ is) k = refl

  take_doc_comments-headed :
      (is : List EnumItem) (k : List TokenKind)
      → take_doc_comments (enum_item_tokens style is (r_brace ∷ k))
        ≡ (first_item_docs is, headed [] is k)
  unfolding take_doc_comments
  take_doc_comments-headed [] k = refl
  take_doc_comments-headed (i ∷ is) k = take_doc_comments-stops i.docs (headed [] (i ∷ is) k) refl

  take_doc_comments-trailing :
      (ds : List String) (is : List EnumItem) (k : List TokenKind)
      → take_doc_comments (doc_tokens ds (enum_item_tokens style is (r_brace ∷ k)))
        ≡ (ds ++ first_item_docs is, headed [] is k)
  take_doc_comments-trailing ds is k =
      let all = take_doc_comments-written ds (enum_item_tokens style is (r_brace ∷ k)) in
      rw (take_doc_comments-headed is k) at all

  not_brace :
      (ds : List String) (i : EnumItem) (k : List TokenKind)
      → next_is r_brace (doc_tokens ds (bare_enum_item style i k)) ≡ false
  unfolding next_is discriminant
  not_brace [] i k = refl
  not_brace (d ∷ ds) i k = refl

  parse_enum_item-written :
      (ds trailing : List String) (i : EnumItem) (k rest : List TokenKind)
      → i.tag < 2 ^ 32
      → (next_is eq k ≡ false) × (next_is comma k ≡ false)
      → take_doc_comments k ≡ (trailing, rest)
      → parse_enum_item (doc_tokens ds (bare_enum_item style i k))
        ≡ ok
            (record {
              docs = ds;
              tag = i.tag;
              name = i.name;
              value = i.value;
              trailing_doc = trailing;
            })
            rest
  unfolding parse_enum_item take_doc_comments expect_int and_then expect_kind expect_ident next_is
      discriminant bump
  parse_enum_item-written ds trailing i k rest small (no_value, no_comma) h =
      let start = take_doc_comments-stops ds (bare_enum_item style i k) refl in
      let tag =
        tag_of-fits i.tag
          (colon ∷ ident i.name ∷ item_value_tokens i.value (comma_tokens style i.name k)) small in
      let value = item_value-written i.value i.name k no_value in
      let behind = bump-comma i.name k no_comma in rw (start, tag, value, behind, h) refl

  parse_enum_items-written :
      (ds : List String) (is : List EnumItem) (k : List TokenKind) (fuel : ℕ)
      → All (λ (i : EnumItem). i.tag < 2 ^ 32) is
      → length is < fuel
      → parse_enum_items fuel (headed ds is k) ≡ ok (settle_items ds is) (r_brace ∷ k)
  unfolding parse_enum_items and_then next_is discriminant
  parse_enum_items-written ds is k zero h enough = absurd (omega arith)
  parse_enum_items-written ds [] k (suc fuel) h enough = refl
  parse_enum_items-written ds (i ∷ is) k (suc fuel) (here, others) enough =
      let behind = doc_tokens i.trailing_doc (enum_item_tokens style is (r_brace ∷ k)) in
      let head =
        parse_enum_item-written ds (i.trailing_doc ++ first_item_docs is) i behind (headed [] is k)
          here (items_apart i.trailing_doc is k) (take_doc_comments-trailing i.trailing_doc is k) in
      let rest = parse_enum_items-written [] is k fuel others (omega arith) in
      rw (not_brace ds i behind, head, rest) refl

  pub parse_enum-written :
      (e : EnumDef) (k : List TokenKind)
      → All (λ (i : EnumItem). i.tag < 2 ^ 32) e.items
      → parse_enum e.docs (ident e.name ∷ l_brace ∷ enum_item_tokens style e.items (r_brace ∷ k))
        ≡ ok
            (record {
              docs = e.docs;
              name = e.name;
              items = settle_items (first_item_docs e.items) e.items;
            })
            k
  unfolding parse_enum and_then expect_ident expect_kind next_is discriminant
  parse_enum-written e k h =
      let body = enum_item_tokens style e.items (r_brace ∷ k) in
      let enough = length-items style e.items (r_brace ∷ k) in
      let items : parse_enum_items (suc (length body)) body
          ≡ ok (settle_items (first_item_docs e.items) e.items) (r_brace ∷ k) =
        ap (parse_enum_items (suc (length body))) (headed-first e.items k)
        ∙ parse_enum_items-written (first_item_docs e.items) e.items k (suc (length body)) h
            (omega arith) in
      rw items refl
