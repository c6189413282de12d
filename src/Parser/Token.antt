-- ===== src/Parser/Token.antt =====
-- The tokens of crates/dots-rs-build/src/lexer.rs, without their positions in the text, and the state
-- of the parser of crates/dots-rs-build/src/parser.rs: the tokens that are left, which stand for the
-- vector and the position in it.
use dots_rust.Prelude.{ℕ, Bool, false, String, List, [], ◌∷◌, ◌==◌}
use dots_rust.Prelude.Int.{ℤ}

pub data TokenKind : Type 0 where
  ident : String → TokenKind
  int : ℤ → TokenKind
  str : String → TokenKind
  doc : String → TokenKind
  l_brace r_brace l_bracket r_bracket l_angle r_angle : TokenKind
  colon semicolon comma eq dot : TokenKind

-- `std::mem::discriminant`
unfoldable pub discriminant : TokenKind → ℕ
discriminant (ident s) = 0
discriminant (int n) = 1
discriminant (str s) = 2
discriminant (doc s) = 3
discriminant l_brace = 4
discriminant r_brace = 5
discriminant l_bracket = 6
discriminant r_bracket = 7
discriminant l_angle = 8
discriminant r_angle = 9
discriminant colon = 10
discriminant semicolon = 11
discriminant comma = 12
discriminant eq = 13
discriminant dot = 14

-- `matches!(self.peek_kind(), Some(k))`
unfoldable pub next_is : TokenKind → List TokenKind → Bool
next_is want [] = false
next_is want (t ∷ ts) = discriminant t == discriminant want

-- `ParseError` by the place that makes it, without its position and text. The last one stands for a
-- loop that is cut off, which the parser does not have.
pub data ParseError : Type 0 where
  unexpected_end unexpected_token unexpected_keyword : ParseError
  tag_out_of_range empty_type_name bad_option_value : ParseError
  out_of_fuel : ParseError

-- What a method returns, with the tokens that it leaves.
pub data Parsed (A : Type 0) : Type 0 where
  ok : A → List TokenKind → Parsed A
  err : ParseError → Parsed A

-- The `?` operator.
unfoldable pub and_then : {A B : Type 0} → Parsed A → (A → List TokenKind → Parsed B) → Parsed B
and_then (ok a ts) f = f a ts
and_then (err e) f = err e
