-- ===== src/Prelude/Int.antt =====
-- Signed integers over the native numbers, as the fixed-width types of the source use them.
use Prim.Native.Nat.{ℕ, ◌-◌, ◌%◌, ◌^◌, compare, Ordering}
use mathlib.Core.Bool.{Bool, false}
use dots_rust.Prelude.Tests.{ltb, ◌==◌, if◌then◌else◌}

-- `negsuc n` is -(n + 1).
pub data ℤ : Type 0 where
  pos : ℕ → ℤ
  negsuc : ℕ → ℤ

abbrev pub eq_ℤ : ℤ → ℤ → Bool
eq_ℤ (pos a) (pos b) = a == b
eq_ℤ (negsuc a) (negsuc b) = a == b
eq_ℤ (pos a) (negsuc b) = false
eq_ℤ (negsuc a) (pos b) = false

abbrev pub compare_ℤ : ℤ → ℤ → Ordering
compare_ℤ (pos a) (pos b) = compare a b
compare_ℤ (pos a) (negsuc b) = Ordering.gt
compare_ℤ (negsuc a) (pos b) = Ordering.lt
compare_ℤ (negsuc a) (negsuc b) = compare b a

-- The bit pattern of `a` in `w` bits.
abbrev pub to_word : ℕ → ℤ → ℕ
to_word w (pos a) = a % 2 ^ w
to_word w (negsuc a) = 2 ^ w - 1 - a % 2 ^ w

-- The signed integer that a pattern of `w` bits stands for.
abbrev pub of_word : ℕ → ℕ → ℤ
of_word w n = if ltb n (2 ^ (w - 1)) then pos n else negsuc (2 ^ w - 1 - n)

-- `v as iN`: the low `w` bits.
abbrev pub wrap : ℕ → ℤ → ℤ
wrap w a = of_word w (to_word w a)
