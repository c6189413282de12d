-- ===== src/Parser.antt =====
-- The compiler of `.dots` files of crates/dots-rs-build: the tokens and the syntax tree, the
-- recursive-descent parser, and a printer of syntax trees with the round trip.
pub mod Token
pub mod Ast
pub mod Descent
pub mod Written
pub mod Sizes
pub mod Options
pub mod Types
pub mod Properties
pub mod Enums
pub mod RoundTrip
pub mod Timely
pub mod Ends
pub mod Total
mod Examples
