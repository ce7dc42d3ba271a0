-- ===== src/Bits/Step.antt =====
-- One binary digit of `|` and `&` at a time. The native operations stand for a recursion on the
-- digits with as much fuel as the first number; more fuel changes nothing.
use Prim.Native.Nat.{digits, bitwise, bit_and-bitwise, bit_or-bitwise}
use cic_stack_v.Prelude.{
  ℕ, zero, suc, ◌+◌, ◌*◌, ◌/◌, ◌%◌, ◌≤◌, ◌≡◌, refl, min, max, bit_and, bit_or, arith,
}

module _ (tail : ℕ → ℕ) (op : ℕ → ℕ → ℕ) where
  same_digits :
      (a : ℕ) (fuel more : ℕ) (b : ℕ)
      → a ≤ fuel
      → a ≤ more
      → digits tail op more a b ≡ digits tail op fuel a b
  same_digits zero zero zero b h k = refl
  same_digits zero (suc fuel) zero b h k = refl
  same_digits zero zero (suc more) b h k = refl
  same_digits zero (suc fuel) (suc more) b h k = refl
  same_digits (suc a) zero more b h k = absurd (omega arith)
  same_digits (suc a) (suc fuel) zero b h k = absurd (omega arith)
  same_digits (suc a) (suc fuel) (suc more) b h k =
      rw (same_digits (suc a / 2) fuel more (b / 2) (omega arith) (omega arith))

  lowest_digit :
      (a b : ℕ)
      → bitwise tail op (suc a) b ≡ bitwise tail op (suc a / 2) (b / 2) * 2 + op (suc a % 2) (b % 2)
  lowest_digit a b =
      omega (arith, same_digits (suc a / 2) (suc a / 2) a (b / 2) (omega arith) (omega arith))

pub bit_and_step : (a b : ℕ) → bit_and a b ≡ bit_and (a / 2) (b / 2) * 2 + min (a % 2) (b % 2)
bit_and_step (suc a) b = simp bit_and-bitwise (lowest_digit (λ _. 0) min a b)
bit_and_step zero b = simp bit_and-bitwise (omega arith)

pub bit_or_step : (a b : ℕ) → bit_or a b ≡ bit_or (a / 2) (b / 2) * 2 + max (a % 2) (b % 2)
bit_or_step (suc a) b = simp bit_or-bitwise (lowest_digit (λ d. d) max a b)
bit_or_step zero b = simp bit_or-bitwise (omega arith)
