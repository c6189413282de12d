-- ===== src/Parser/Ends.antt =====
-- The tokens that the methods of crates/dots-rs-build/src/parser.rs leave, from types to structs.
use dots_rust.Prelude.{
  ℕ, zero, suc, ◌≤◌, ◌<◌, refl, not, String, str_append, str_eq, none, some, List, [], arith,
  length,
}
use dots_rust.Parser.Token.{
  TokenKind, l_brace, r_brace, l_bracket, r_bracket, l_angle, r_angle, colon, semicolon, comma, eq,
  dot, next_is, empty_type_name, ok, err,
}
use dots_rust.Parser.Ast.{named, vector, instance_ref}
use dots_rust.Parser.Descent.{
  bump, dotted_rest, closing_angle, instance_target, parse_type, parse_option, more_options,
  listed_options, parse_options, options_if_any, parse_property, parse_properties, parse_struct,
}
use dots_rust.Parser.Timely.{
  IsTimely, and_then-IsTimely, if-IsTimely, length-bump, length-comments, expect_kind-IsTimely,
  expect_ident-IsTimely, expect_int-IsTimely, parse_option_value-IsTimely, tag_of-IsTimely,
}

pub dotted_rest-IsTimely :
    (fuel : ℕ) (out : String) (ts : List TokenKind) (n : ℕ)
    → length ts < fuel
    → length ts < n
    → IsTimely n (dotted_rest fuel out ts)
unfolding dotted_rest
dotted_rest-IsTimely zero out ts n enough h = absurd (omega arith)
dotted_rest-IsTimely (suc fuel) out ts n enough h =
    if-IsTimely n (next_is dot ts) _ (ok out ts)
      (and_then-IsTimely (length ts) n _ _
        (expect_ident-IsTimely (bump ts) (length ts) (length-bump ts))
        (λ s rest less.
          dotted_rest-IsTimely fuel (str_append (str_append out ".") s) rest n (omega arith)
            (omega arith)))
      h

closing_angle-IsTimely :
    {A : Type 0} (a : A) (ts : List TokenKind) (n : ℕ)
    → length ts ≤ n
    → IsTimely n (closing_angle a ts)
unfolding closing_angle
closing_angle-IsTimely a ts n h =
    and_then-IsTimely n n _ _ (expect_kind-IsTimely r_angle ts n h) (λ _ rest less. less)

instance_target-IsTimely :
    (ts : List TokenKind) (n : ℕ) → length ts < n → IsTimely n (instance_target ts)
unfolding instance_target
instance_target-IsTimely ts n h =
    let less = length-bump ts in
    if-IsTimely n (not (next_is l_angle ts)) (ok (instance_ref none) ts) _ h (
      and_then-IsTimely n n _ _ (expect_ident-IsTimely (bump ts) n (omega arith))
        (λ target rest less.
          closing_angle-IsTimely (instance_ref (some target)) rest n (omega arith)))

parse_type-IsTimely :
    (fuel : ℕ) (ts : List TokenKind) (n : ℕ)
    → length ts < fuel
    → length ts ≤ n
    → IsTimely n (parse_type fuel ts)
unfolding parse_type
parse_type-IsTimely zero ts n enough h = absurd (omega arith)
parse_type-IsTimely (suc fuel) ts n enough h =
    and_then-IsTimely (length ts) n _ _ (expect_ident-IsTimely ts (length ts) (omega arith))
      (λ name rest less.
        if-IsTimely n (str_eq name "vector") _ _
          (and_then-IsTimely (length rest) n _ _
            (expect_kind-IsTimely l_angle rest (length rest) (omega arith))
            (λ _ inside fewer.
              and_then-IsTimely n n _ _
                (parse_type-IsTimely fuel inside n (omega arith) (omega arith))
                (λ inner end less. closing_angle-IsTimely (vector inner) end n (omega arith))))
          (if-IsTimely n (str_eq name "instance_ref") (instance_target rest) _
            (instance_target-IsTimely rest n (omega arith))
            (if-IsTimely n (str_eq name "") (err empty_type_name) (ok (named name) rest) refl
              (omega arith))))

module _ (to_lowercase : String → String) where
  parse_option-IsTimely :
      (ts : List TokenKind) (n : ℕ) → length ts ≤ n → IsTimely n (parse_option to_lowercase ts)
  unfolding parse_option
  parse_option-IsTimely ts n h =
      and_then-IsTimely n n _ _ (expect_ident-IsTimely ts n h) (λ name rest less.
        let fewer = length-bump rest in
        if-IsTimely n (next_is eq rest) _ _
          (and_then-IsTimely n n _ _
            (parse_option_value-IsTimely to_lowercase (bump rest) n (omega arith))
            (λ value rest less. less))
          less)

  more_options-IsTimely :
      (fuel : ℕ) (ts : List TokenKind) (n : ℕ)
      → length ts < fuel
      → length ts < n
      → IsTimely n (more_options to_lowercase fuel ts)
  unfolding more_options
  more_options-IsTimely zero ts n enough h = absurd (omega arith)
  more_options-IsTimely (suc fuel) ts n enough h =
      if-IsTimely n (next_is comma ts) _ (ok [] ts)
        (and_then-IsTimely (length ts) n _ _
          (parse_option-IsTimely (bump ts) (length ts) (length-bump ts))
          (λ o rest less.
            and_then-IsTimely n n _ _
              (more_options-IsTimely fuel rest n (omega arith) (omega arith))
              (λ os rest less. less)))
        h

  listed_options-IsTimely :
      (ts : List TokenKind) (n : ℕ) → length ts < n → IsTimely n (listed_options to_lowercase ts)
  unfolding listed_options
  listed_options-IsTimely ts n h =
      if-IsTimely n (not (next_is r_bracket ts)) _ (ok [] ts)
        (and_then-IsTimely n n _ _ (parse_option-IsTimely ts n (omega arith)) (λ o rest less.
          and_then-IsTimely n n _ _
            (more_options-IsTimely (suc (length rest)) rest n (omega arith) less)
            (λ os rest less. less)))
        h

  options_if_any-IsTimely :
      (ts : List TokenKind) (n : ℕ) → length ts < n → IsTimely n (options_if_any to_lowercase ts)
  unfolding options_if_any parse_options
  options_if_any-IsTimely ts n h =
      if-IsTimely n (next_is l_bracket ts) _ (ok [] ts)
        (and_then-IsTimely n n _ _ (expect_kind-IsTimely l_bracket ts n (omega arith))
          (λ _ rest less.
            and_then-IsTimely n n _ _ (listed_options-IsTimely rest n less) (λ os rest less.
              and_then-IsTimely n n _ _ (expect_kind-IsTimely r_bracket rest n (omega arith))
                (λ _ rest less. less))))
        h

  parse_property-IsTimely :
      (ts : List TokenKind) (n : ℕ) → length ts ≤ n → IsTimely n (parse_property to_lowercase ts)
  unfolding parse_property
  parse_property-IsTimely ts n h =
      let docs = length-comments ts in
      and_then-IsTimely n n _ _ (expect_int-IsTimely _ n (omega arith)) (λ signed rest less.
        and_then-IsTimely n n _ _ (tag_of-IsTimely signed rest n less) (λ tag rest less.
          and_then-IsTimely n n _ _ (expect_kind-IsTimely colon rest n (omega arith))
            (λ _ rest less.
              and_then-IsTimely n n _ _ (options_if_any-IsTimely rest n less) (λ options rest less.
                and_then-IsTimely n n _ _
                  (parse_type-IsTimely (suc (length rest)) rest n (omega arith) (omega arith))
                  (λ ty rest less.
                    and_then-IsTimely n n _ _ (expect_ident-IsTimely rest n (omega arith))
                      (λ name rest less.
                        and_then-IsTimely n n _ _
                          (expect_kind-IsTimely semicolon rest n (omega arith))
                          (λ _ rest less. let trailing = length-comments rest in omega arith)))))))

  parse_properties-IsTimely :
      (fuel : ℕ) (ts : List TokenKind) (n : ℕ)
      → length ts < fuel
      → length ts < n
      → IsTimely n (parse_properties to_lowercase fuel ts)
  unfolding parse_properties
  parse_properties-IsTimely zero ts n enough h = absurd (omega arith)
  parse_properties-IsTimely (suc fuel) ts n enough h =
      if-IsTimely n (not (next_is r_brace ts)) _ (ok [] ts)
        (and_then-IsTimely (length ts) n _ _ (parse_property-IsTimely ts (length ts) (omega arith))
          (λ p rest less.
            and_then-IsTimely n n _ _
              (parse_properties-IsTimely fuel rest n (omega arith) (omega arith))
              (λ ps rest less. less)))
        h

  pub parse_struct-IsTimely :
      (docs : List String) (ts : List TokenKind) (n : ℕ)
      → length ts ≤ n
      → IsTimely n (parse_struct to_lowercase docs ts)
  unfolding parse_struct
  parse_struct-IsTimely docs ts n h =
      and_then-IsTimely n n _ _ (expect_ident-IsTimely ts n h) (λ name rest less.
        and_then-IsTimely n n _ _ (options_if_any-IsTimely rest n less) (λ options rest less.
          and_then-IsTimely n n _ _ (expect_kind-IsTimely l_brace rest n (omega arith))
            (λ _ rest less.
              and_then-IsTimely n n _ _
                (parse_properties-IsTimely (suc (length rest)) rest n (omega arith) less)
                (λ ps rest less.
                  and_then-IsTimely n n _ _ (expect_kind-IsTimely r_brace rest n (omega arith))
                    (λ _ rest less. less)))))
