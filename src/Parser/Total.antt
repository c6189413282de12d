-- ===== src/Parser/Total.antt =====
-- The tokens that the methods of crates/dots-rs-build/src/parser.rs leave, from enums to whole files.
use dots_rust.Prelude.{
  ℕ, zero, suc, ◌≤◌, ◌<◌, ◌≡◌, refl, Bool, true, false, not, ◌⊎◌, inl, inr, String, str_eq, none,
  List, [], ◌∷◌, arith, length, if◌then◌else◌,
}
use dots_rust.Parser.Token.{
  TokenKind, l_brace, r_brace, colon, comma, eq, next_is, ParseError, unexpected_keyword, Parsed,
  ok, err,
}
use dots_rust.Parser.Ast.{File}
use dots_rust.Parser.Descent.{
  bump, take_doc_comments, is_allowed, expect_ident_keyword, parse_dotted_name, item_value,
  parse_enum_item, parse_enum_items, parse_enum, parse_item, keywords, is_eof, parse_items, parse,
}
use dots_rust.Parser.Timely.{
  is_cut_off, IsTimely, and_then-IsTimely, if-IsTimely, length-bump, length-comments,
  expect_kind-IsTimely, expect_ident-IsTimely, expect_int-IsTimely, tag_of-IsTimely,
}
use dots_rust.Parser.Ends.{dotted_rest-IsTimely, parse_struct-IsTimely}

item_value-IsTimely : (ts : List TokenKind) (n : ℕ) → length ts < n → IsTimely n (item_value ts)
unfolding item_value
item_value-IsTimely ts n h =
    let fewer = length-bump ts in
    if-IsTimely n (next_is eq ts) _ (ok none ts)
      (and_then-IsTimely n n _ _ (expect_int-IsTimely (bump ts) n (omega arith))
        (λ i rest less. less))
      h

length-comma : (b : Bool) (ts : List TokenKind) → length (if b then bump ts else ts) ≤ length ts
length-comma true ts = length-bump ts
length-comma false ts = omega arith

parse_enum_item-IsTimely :
    (ts : List TokenKind) (n : ℕ) → length ts ≤ n → IsTimely n (parse_enum_item ts)
unfolding parse_enum_item
parse_enum_item-IsTimely ts n h =
    let docs = length-comments ts in
    and_then-IsTimely n n _ _ (expect_int-IsTimely _ n (omega arith)) (λ signed rest less.
      and_then-IsTimely n n _ _ (tag_of-IsTimely signed rest n less) (λ tag rest less.
        and_then-IsTimely n n _ _ (expect_kind-IsTimely colon rest n (omega arith)) (λ _ rest less.
          and_then-IsTimely n n _ _ (expect_ident-IsTimely rest n (omega arith)) (λ name rest less.
            and_then-IsTimely n n _ _ (item_value-IsTimely rest n less) (λ value rest less.
              let behind = length-comma (next_is comma rest) rest in
              let trailing = length-comments (if next_is comma rest then bump rest else rest) in
              omega arith)))))

parse_enum_items-IsTimely :
    (fuel : ℕ) (ts : List TokenKind) (n : ℕ)
    → length ts < fuel
    → length ts < n
    → IsTimely n (parse_enum_items fuel ts)
unfolding parse_enum_items
parse_enum_items-IsTimely zero ts n enough h = absurd (omega arith)
parse_enum_items-IsTimely (suc fuel) ts n enough h =
    if-IsTimely n (not (next_is r_brace ts)) _ (ok [] ts)
      (and_then-IsTimely (length ts) n _ _ (parse_enum_item-IsTimely ts (length ts) (omega arith))
        (λ i rest less.
          and_then-IsTimely n n _ _
            (parse_enum_items-IsTimely fuel rest n (omega arith) (omega arith))
            (λ is rest less. less)))
      h

parse_enum-IsTimely :
    (docs : List String) (ts : List TokenKind) (n : ℕ)
    → length ts ≤ n
    → IsTimely n (parse_enum docs ts)
unfolding parse_enum
parse_enum-IsTimely docs ts n h =
    and_then-IsTimely n n _ _ (expect_ident-IsTimely ts n h) (λ name rest less.
      and_then-IsTimely n n _ _ (expect_kind-IsTimely l_brace rest n (omega arith)) (λ _ rest less.
        and_then-IsTimely n n _ _
          (parse_enum_items-IsTimely (suc (length rest)) rest n (omega arith) less)
          (λ is rest less.
            and_then-IsTimely n n _ _ (expect_kind-IsTimely r_brace rest n (omega arith))
              (λ _ rest less. less))))

expect_ident_keyword-IsTimely :
    (allowed : List String) (ts : List TokenKind) (n : ℕ)
    → length ts ≤ n
    → IsTimely n (expect_ident_keyword allowed ts)
unfolding expect_ident_keyword
expect_ident_keyword-IsTimely allowed ts n h =
    and_then-IsTimely n n _ _ (expect_ident-IsTimely ts n h) (λ name rest less.
      if-IsTimely n (is_allowed allowed name) (ok name rest) (err unexpected_keyword) less refl)

abbrev pub Finishes : Parsed File → Type 0
Finishes r =
    ((f : File) × (r ≡ ok f [])) ⊎ ((e : ParseError) × (is_cut_off e ≡ false) × (r ≡ err e))

timely-Finishes : (r : Parsed File) → IsTimely 1 r → Finishes r
timely-Finishes (ok f []) h = inl (f, refl)
timely-Finishes (ok f (t ∷ ts)) h = absurd (omega arith)
timely-Finishes (err e) h = inr (e, h, refl)

module _ (to_lowercase : String → String) where
  parse_item-IsTimely :
      (keyword : String) (docs : List String) (ts : List TokenKind) (n : ℕ)
      → length ts ≤ n
      → IsTimely n (parse_item to_lowercase keyword docs ts)
  unfolding parse_item parse_dotted_name
  parse_item-IsTimely keyword docs ts n h =
      if-IsTimely n (str_eq keyword "struct") _ _
        (and_then-IsTimely n n _ _ (parse_struct-IsTimely to_lowercase docs ts n h)
          (λ s rest less. less))
        (if-IsTimely n (str_eq keyword "enum") _ _
          (and_then-IsTimely n n _ _ (parse_enum-IsTimely docs ts n h) (λ e rest less. less))
          (if-IsTimely n (str_eq keyword "import") _ _
            (and_then-IsTimely n n _ _ (expect_ident-IsTimely ts n h) (λ name rest less. less))
            (and_then-IsTimely n n _ _
              (and_then-IsTimely n n _ _ (expect_ident-IsTimely ts n h) (λ name rest less.
                dotted_rest-IsTimely (suc (length rest)) name rest n (omega arith) less))
              (λ name rest less. less))))

  -- Nothing is left.
  parse_items-IsTimely :
      (fuel : ℕ) (ts : List TokenKind)
      → length ts < fuel
      → IsTimely 1 (parse_items to_lowercase fuel ts)
  unfolding parse_items
  parse_items-IsTimely zero ts enough = absurd (omega arith)
  parse_items-IsTimely (suc fuel) ts enough =
      let docs = length-comments ts in
      if-IsTimely 1 (is_eof (take_doc_comments ts).1) (ok [] []) _ (omega arith) (
        and_then-IsTimely (length ts) 1 _ _
          (expect_ident_keyword-IsTimely keywords _ (length ts) docs)
          (λ keyword rest less.
            and_then-IsTimely (length ts) 1 _ _
              (parse_item-IsTimely keyword (take_doc_comments ts).0 rest (length ts) (omega arith))
              (λ i rest less.
                and_then-IsTimely 1 1 _ _ (parse_items-IsTimely fuel rest (omega arith))
                  (λ is rest less. less))))

  -- On every list of tokens the parser ends, with a file and no token left or with an error of its
  -- own; that is, no loop is cut off.
  pub parse_ends : (ts : List TokenKind) → Finishes (parse to_lowercase ts)
  unfolding parse
  parse_ends ts = timely-Finishes _ (
      and_then-IsTimely 1 1 _ _ (parse_items-IsTimely (suc (length ts)) ts (omega arith))
        (λ items rest less. less))
