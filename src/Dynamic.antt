-- ===== src/Dynamic.antt =====
-- Struct values and descriptors that are known at run time only
-- (crates/dots-rs-core/src/dynamic.rs, and `StructFlags` of crates/dots-rs-core/src/descriptor.rs).
pub mod Flags
pub mod Kind
pub mod Value
pub mod Copy
