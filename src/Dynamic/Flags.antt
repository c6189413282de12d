-- ===== src/Dynamic/Flags.antt =====
-- `StructFlags` of crates/dots-rs-core/src/descriptor.rs: a `u8` with a bit for each flag.
use dots_rust.Prelude.{ℕ, ◌-◌, bit_and, bit_or, Bool, not, ◌==◌, if◌then◌else◌}

abbrev pub StructFlags : Type 0
StructFlags = ℕ

abbrev pub cached_bit : ℕ
cached_bit = 1

abbrev pub internal_bit : ℕ
internal_bit = 2

abbrev pub cleanup_bit : ℕ
cleanup_bit = 8

-- `if on { self.0 | BIT } else { self.0 & !BIT }`
abbrev set_flag : ℕ → StructFlags → Bool → StructFlags
set_flag bit flags on = if on then bit_or flags bit else bit_and flags (255 - bit)

abbrev flag : ℕ → StructFlags → Bool
flag bit flags = not (bit_and flags bit == 0)

unfoldable pub cached : StructFlags → Bool → StructFlags
cached = set_flag cached_bit

unfoldable pub internal : StructFlags → Bool → StructFlags
internal = set_flag internal_bit

unfoldable pub cleanup : StructFlags → Bool → StructFlags
cleanup = set_flag cleanup_bit

unfoldable pub is_cached : StructFlags → Bool
is_cached = flag cached_bit

unfoldable pub is_internal : StructFlags → Bool
is_internal = flag internal_bit

unfoldable pub is_cleanup : StructFlags → Bool
is_cleanup = flag cleanup_bit
