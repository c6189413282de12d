-- ===== src/Filter.antt =====
-- Filtered subscriptions: the wire types and the builder (crates/dots-rs-model/src/filter.rs), and the
-- compiled predicate with its evaluator (crates/dots-rs-transport/src/filter.rs).
pub mod Wire
pub mod Build
pub mod Floats
pub mod Narrow
pub mod Compile
pub mod Eval
pub mod Tree
