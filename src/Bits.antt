-- ===== src/Bits.antt =====
-- Bit flags as Python's unbounded integers use them: `a | b`, `a & b` and `a & ~b`, each read
-- one bit at a time.
mod Step
pub mod Laws
use Prim.Native.Nat.{bit_and-bitwise}
use cic_stack_v.Prelude.{
  ℕ, zero, suc, ◌+◌, ◌-◌, ◌/◌, ◌%◌, ◌≤◌, ◌≡◌, Bool, not, ◌&&◌, ◌||◌, bit_and, bit_or, arith, ◌==◌,
}
use Step.{bit_or_step, bit_and_step}

-- `a & ~b`: the bits of `a` that are not set in `b`.
pub clear : ℕ → ℕ → ℕ
clear a b = a - bit_and a b

-- Whether bit `i` of `a` is set.
pub has_bit : ℕ → ℕ → Bool
has_bit zero a = a % 2 == 1
has_bit (suc i) a = has_bit i (a / 2)

pub has_bit-bit_or : (i a b : ℕ) → has_bit i (bit_or a b) ≡ (has_bit i a || has_bit i b)
unfolding has_bit
has_bit-bit_or zero a b = ground (arith, bit_or_step a b)
has_bit-bit_or (suc i) a b = ground (arith, bit_or_step a b, has_bit-bit_or i (a / 2) (b / 2))

pub has_bit-bit_and : (i a b : ℕ) → has_bit i (bit_and a b) ≡ (has_bit i a && has_bit i b)
unfolding has_bit
has_bit-bit_and zero a b = ground (arith, bit_and_step a b)
has_bit-bit_and (suc i) a b = ground (arith, bit_and_step a b, has_bit-bit_and i (a / 2) (b / 2))

zero-bit_and : (b : ℕ) → bit_and 0 b ≡ 0
zero-bit_and b = bit_and-bitwise 0 b

-- Fuel for a recursion that halves `a`.
bit_and-le_fuel : (fuel a b : ℕ) → a ≤ fuel → bit_and a b ≤ a
bit_and-le_fuel zero zero b h = omega (arith, zero-bit_and b)
bit_and-le_fuel (suc n) zero b h = omega (arith, zero-bit_and b)
bit_and-le_fuel zero (suc a) b h = absurd (omega arith)
bit_and-le_fuel (suc n) (suc a) b h =
    omega (arith, bit_and_step (suc a) b, bit_and-le_fuel n (suc a / 2) (b / 2) (omega arith))

pub bit_and-le : (a b : ℕ) → bit_and a b ≤ a
bit_and-le a b = bit_and-le_fuel a a b (omega arith)

clear_step : (a b : ℕ) → clear a b ≡ clear (a / 2) (b / 2) + clear (a / 2) (b / 2) + (a % 2 - b % 2)
unfolding clear
clear_step a b = omega (arith, bit_and_step a b, bit_and-le (a / 2) (b / 2))

pub has_bit-clear : (i a b : ℕ) → has_bit i (clear a b) ≡ (has_bit i a && not (has_bit i b))
unfolding has_bit
has_bit-clear zero a b = ground (arith, clear_step a b)
has_bit-clear (suc i) a b = ground (arith, clear_step a b, has_bit-clear i (a / 2) (b / 2))

bit_ext_fuel : (fuel a b : ℕ) → a ≤ fuel → b ≤ fuel → ((i : ℕ) → has_bit i a ≡ has_bit i b) → a ≡ b
unfolding has_bit
bit_ext_fuel zero a b p q h = omega arith
bit_ext_fuel (suc n) a b p q h =
    ground (arith, h 0, bit_ext_fuel n (a / 2) (b / 2) (omega arith) (omega arith) (λ i. h (suc i)))

-- Numbers with the same bits are equal.
pub bit_ext : (a b : ℕ) → ((i : ℕ) → has_bit i a ≡ has_bit i b) → a ≡ b
bit_ext a b h = bit_ext_fuel (a + b) a b (omega arith) (omega arith) h
