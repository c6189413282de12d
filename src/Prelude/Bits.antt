-- ===== src/Prelude/Bits.antt =====
-- Binary digits of a number, and what the native bit operations do to each of them.
use Prim.Native.Nat.{
  ℕ, zero, suc, ◌+◌, ◌-◌, ◌*◌, ◌/◌, ◌%◌, ◌^◌, ◌≤◌, ◌<◌, min, max, differ, digits, bitwise, bit_and,
  bit_or, bit_xor, bit_and-bitwise, bit_or-bitwise, bit_xor-bitwise,
}
use mathlib.Core.Path.{◌≡◌, refl, ◌∙◌}
use mathlib.Core.Logic.{◌⊎◌, inl, inr}
use mathlib.Core.Bool.{Bool, true, false, not, ◌&&◌, ◌||◌}
use native.Mathlib.Nat.{le_refl, pow-suc}
use native.Mathlib.Omega.{arith}
use dots_rust.Prelude.Tests.{◌==◌, ltb, if◌then◌else◌}

-- Exclusive or of two truth values.
abbrev pub differs : Bool → Bool → Bool
differs false b = b
differs true b = not b

-- Digit `i` of `n`, the lowest being digit 0.
unfoldable pub test_bit : ℕ → ℕ → Bool
test_bit n zero = n % 2 == 1
test_bit n (suc i) = test_bit (n / 2) i

last_or_below : (u n : ℕ) → u ≤ suc n → (u ≡ suc n) ⊎ (u ≤ n)
last_or_below u n h = omega arith

-- The native operations recurse on fuel: once it has reached the first operand, more changes nothing.
module _ (rest : ℕ → ℕ) (op : ℕ → ℕ → ℕ) where
  digits-more : (fuel u v : ℕ) → u ≤ fuel → digits rest op (suc fuel) u v ≡ digits rest op fuel u v
  digits-more zero zero v h = refl
  digits-more zero (suc u) v h = absurd (omega arith)
  digits-more (suc fuel) zero v h = refl
  digits-more (suc fuel) (suc u) v h = rw (digits-more fuel (suc u / 2) (v / 2) (omega arith))

  digits-settled : (fuel u v : ℕ) → u ≤ fuel → digits rest op fuel u v ≡ digits rest op u u v
  digits-settled zero u v h = let e : u ≡ 0 = omega arith in rw e refl
  digits-settled (suc fuel) u v h = elim (last_or_below u fuel h) [
    | inl last ↦ rw last refl
    | inr below ↦ digits-more fuel u v below ∙ digits-settled fuel u v below
  ]

  lowest :
      (u v : ℕ)
      → bitwise rest op (suc u) v ≡ bitwise rest op (suc u / 2) (v / 2) * 2 + op (suc u % 2) (v % 2)
  lowest u v = omega (arith, digits-settled u (suc u / 2) (v / 2) (omega arith))

pub bit_and_step : (u v : ℕ) → bit_and u v ≡ bit_and (u / 2) (v / 2) * 2 + min (u % 2) (v % 2)
bit_and_step zero v = simp bit_and-bitwise (omega arith)
bit_and_step (suc u) v = simp bit_and-bitwise (lowest (λ w. 0) min u v)

pub bit_or_step : (u v : ℕ) → bit_or u v ≡ bit_or (u / 2) (v / 2) * 2 + max (u % 2) (v % 2)
bit_or_step zero v = simp bit_or-bitwise (omega arith)
bit_or_step (suc u) v = simp bit_or-bitwise (lowest (λ w. w) max u v)

pub bit_xor_step : (u v : ℕ) → bit_xor u v ≡ bit_xor (u / 2) (v / 2) * 2 + differ (u % 2) (v % 2)
bit_xor_step zero v = simp bit_xor-bitwise (omega arith)
bit_xor_step (suc u) v = simp bit_xor-bitwise (lowest (λ w. w) differ u v)

-- Nothing is left of a number under an empty mask.
bit_and_zero_below : (n a : ℕ) → a ≤ n → bit_and a 0 ≡ 0
bit_and_zero_below n zero h = refl
bit_and_zero_below zero (suc a) h = absurd (omega arith)
bit_and_zero_below (suc n) (suc a) h =
    omega (arith, bit_and_step (suc a) 0, bit_and_zero_below n (suc a / 2) (omega arith))

pub bit_and_zero : (a : ℕ) → bit_and a 0 ≡ 0
bit_and_zero a = bit_and_zero_below a a (le_refl a)

zero-bit_and : (b : ℕ) → bit_and 0 b ≡ 0
zero-bit_and b = simp bit_and-bitwise (omega arith)

-- A digit as a case distinction.
digit_cases : (a : ℕ) → (a % 2 ≡ 0) ⊎ (a % 2 ≡ 1)
digit_cases a = omega arith

differ_le : (a b : ℕ) → a ≤ 1 → b ≤ 1 → differ a b ≤ 1
differ_le zero b h k = k
differ_le (suc a) zero h k = h
differ_le (suc zero) (suc zero) h k = omega arith
differ_le (suc (suc a)) (suc zero) h k = absurd (omega arith)
differ_le (suc a) (suc (suc b)) h k = absurd (omega arith)

min_digit : (a b : ℕ) → (min (a % 2) (b % 2) == 1) ≡ ((a % 2 == 1) && (b % 2 == 1))
min_digit a b = ground (arith, digit_cases a, digit_cases b)

max_digit : (a b : ℕ) → (max (a % 2) (b % 2) == 1) ≡ ((a % 2 == 1) || (b % 2 == 1))
max_digit a b = ground (arith, digit_cases a, digit_cases b)

differ_digit : (a b : ℕ) → (differ (a % 2) (b % 2) == 1) ≡ differs (a % 2 == 1) (b % 2 == 1)
differ_digit a b = ground (arith, digit_cases a, digit_cases b)

low_digit : (n q d : ℕ) → n ≡ q * 2 + d → d ≤ 1 → (n % 2 ≡ d) × (n / 2 ≡ q)
low_digit n q d e h = omega arith

-- The operations work digit by digit.
pub test_bit-and : (i a b : ℕ) → test_bit (bit_and a b) i ≡ (test_bit a i && test_bit b i)
unfolding test_bit
test_bit-and zero a b =
    let h = low_digit _ _ _ (bit_and_step a b) (omega arith) in rw (h.0) (min_digit a b)
test_bit-and (suc i) a b =
    let h = low_digit _ _ _ (bit_and_step a b) (omega arith) in
    rw (h.1) (test_bit-and i (a / 2) (b / 2))

pub test_bit-or : (i a b : ℕ) → test_bit (bit_or a b) i ≡ (test_bit a i || test_bit b i)
unfolding test_bit
test_bit-or zero a b =
    let h = low_digit _ _ _ (bit_or_step a b) (omega arith) in rw (h.0) (max_digit a b)
test_bit-or (suc i) a b =
    let h = low_digit _ _ _ (bit_or_step a b) (omega arith) in
    rw (h.1) (test_bit-or i (a / 2) (b / 2))

pub test_bit-xor : (i a b : ℕ) → test_bit (bit_xor a b) i ≡ differs (test_bit a i) (test_bit b i)
unfolding test_bit
test_bit-xor zero a b =
    let h =
      low_digit _ _ _ (bit_xor_step a b) (differ_le (a % 2) (b % 2) (omega arith) (omega arith)) in
    rw (h.0) (differ_digit a b)
test_bit-xor (suc i) a b =
    let h =
      low_digit _ _ _ (bit_xor_step a b) (differ_le (a % 2) (b % 2) (omega arith) (omega arith)) in
    rw (h.1) (test_bit-xor i (a / 2) (b / 2))

pub pow_two-suc : (t : ℕ) → 2 ^ suc t ≡ 2 ^ t * 2
pow_two-suc t = omega (arith, pow-suc 2 t)

pub pow_pos : (t : ℕ) → 0 < 2 ^ t
pow_pos zero = omega arith
pow_pos (suc t) = omega (arith, pow_two-suc t, pow_pos t)

pub test_bit-zero : (i : ℕ) → test_bit 0 i ≡ false
unfolding test_bit
test_bit-zero zero = refl
test_bit-zero (suc i) = test_bit-zero i

pub test_bit-pow : (t i : ℕ) → test_bit (2 ^ t) i ≡ (t == i)
unfolding test_bit
test_bit-pow zero zero = refl
test_bit-pow zero (suc i) = rw (test_bit-zero i) (ground arith)
test_bit-pow (suc t) zero = ground (arith, pow_two-suc t)
test_bit-pow (suc t) (suc i) =
    let h = low_digit (2 ^ suc t) (2 ^ t) 0 (omega (arith, pow_two-suc t)) (omega arith) in
    rw (h.1) (rw (test_bit-pow t i) (ground arith))

-- Numbers with the same digits are equal.
pub eq_of_digits :
    (k a b : ℕ) → a < 2 ^ k → b < 2 ^ k → ((i : ℕ) → test_bit a i ≡ test_bit b i) → a ≡ b
unfolding test_bit
eq_of_digits zero a b ha hb d = omega arith
eq_of_digits (suc k) a b ha hb d =
    let low = d 0 in
    let high =
      eq_of_digits k (a / 2) (b / 2) (omega (arith, pow_two-suc k)) (omega (arith, pow_two-suc k))
        (λ i. d (suc i)) in
    ground (arith, digit_cases a, digit_cases b, low, high)

pub bit_and-le : (k a b : ℕ) → a < 2 ^ k → bit_and a b ≤ a
bit_and-le zero a b h =
    let e : a ≡ 0 = omega arith in rw e (omega (arith, bit_and_step 0 b, zero-bit_and b))
bit_and-le (suc k) a b h =
    omega (arith, bit_and_step a b, bit_and-le k (a / 2) (b / 2) (omega (arith, pow_two-suc k)))

pub bit_and_self : (k a : ℕ) → a < 2 ^ k → bit_and a a ≡ a
bit_and_self zero a h = let e : a ≡ 0 = omega arith in rw e (zero-bit_and 0)
bit_and_self (suc k) a h =
    omega (arith, bit_and_step a a, bit_and_self k (a / 2) (omega (arith, pow_two-suc k)))

pub and_pow : (t s : ℕ) → bit_and s (2 ^ t) ≡ (if test_bit s t then 2 ^ t else 0)
unfolding test_bit
and_pow zero s = ground (arith, bit_and_step s 1, bit_and_zero (s / 2))
and_pow (suc t) s = ground (arith, bit_and_step s (2 ^ suc t), pow_two-suc t, and_pow t (s / 2))

-- `!x` of a word of `k` bits.
pub test_bit-complement :
    (k i x : ℕ) → x < 2 ^ k → test_bit (2 ^ k - 1 - x) i ≡ (ltb i k && not (test_bit x i))
unfolding test_bit
test_bit-complement zero i x h =
    let e : 2 ^ 0 - 1 - x ≡ 0 = omega arith in rw e (test_bit-zero i ∙ ground arith)
test_bit-complement (suc k) zero x h = ground (arith, pow_two-suc k)
test_bit-complement (suc k) (suc i) x h =
    let e : (2 ^ suc k - 1 - x) / 2 ≡ 2 ^ k - 1 - x / 2 = omega (arith, pow_two-suc k) in
    rw e (rw (test_bit-complement k i (x / 2) (omega (arith, pow_two-suc k))) (ground arith))

pub pow_two_mono : (i k : ℕ) → i < k → 2 ^ i < 2 ^ k
pow_two_mono i zero h = absurd (omega arith)
pow_two_mono zero (suc k) h = omega (arith, pow_two-suc k, pow_pos k)
pow_two_mono (suc i) (suc k) h =
    omega (arith, pow_two-suc k, pow_two-suc i, pow_two_mono i k (omega arith))

pub test_bit-high : (k n i : ℕ) → n < 2 ^ k → k ≤ i → test_bit n i ≡ false
unfolding test_bit
test_bit-high zero n i h le = let e : n ≡ 0 = omega arith in rw e (test_bit-zero i)
test_bit-high (suc k) n zero h le = absurd (omega arith)
test_bit-high (suc k) n (suc i) h le =
    test_bit-high k (n / 2) i (omega (arith, pow_two-suc k)) (omega arith)

pub pow_two_le : (i k : ℕ) → i ≤ k → 2 ^ i ≤ 2 ^ k
pow_two_le zero k h = omega (arith, pow_pos k)
pow_two_le (suc i) zero h = absurd (omega arith)
pow_two_le (suc i) (suc k) h =
    omega (arith, pow_two-suc k, pow_two-suc i, pow_two_le i k (omega arith))
