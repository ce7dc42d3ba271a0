-- ===== src/Bits/Laws.antt =====
-- The laws of flags that the lock table needs, each proved bit by bit.
use cic_stack_v.Prelude.{ℕ, zero, suc, ◌≡◌, refl, false, ◌&&◌, bit_and, bit_or, arith}
use cic_stack_v.Bits.{has_bit, clear, has_bit-bit_or, has_bit-bit_and, has_bit-clear, bit_ext}

pub has_bit-zero : (i : ℕ) → has_bit i 0 ≡ false
unfolding has_bit
has_bit-zero zero = refl
has_bit-zero (suc i) = has_bit-zero i

pub bit_and-bit_or_self : (a f : ℕ) → bit_and (bit_or a f) f ≡ f
bit_and-bit_or_self a f =
    bit_ext _ _ λ i. ground (arith, has_bit-bit_and i (bit_or a f) f, has_bit-bit_or i a f)

pub bit_and-clear_self : (a f : ℕ) → bit_and (clear a f) f ≡ 0
bit_and-clear_self a f =
    bit_ext _ _
      λ i. ground (arith, has_bit-bit_and i (clear a f) f, has_bit-clear i a f, has_bit-zero i)

pub zero-bit_or : (f : ℕ) → bit_or 0 f ≡ f
zero-bit_or f = bit_ext _ _ λ i. ground (arith, has_bit-bit_or i 0 f, has_bit-zero i)

pub zero-clear : (f : ℕ) → clear 0 f ≡ 0
zero-clear f = bit_ext _ _ λ i. ground (arith, has_bit-clear i 0 f, has_bit-zero i)

pub zero-bit_and : (f : ℕ) → bit_and 0 f ≡ 0
zero-bit_and f = bit_ext _ _ λ i. ground (arith, has_bit-bit_and i 0 f, has_bit-zero i)

-- Setting flags twice is setting them once, and the order of two settings does not matter.
pub bit_or_assoc : (a f g : ℕ) → bit_or (bit_or a f) g ≡ bit_or a (bit_or f g)
bit_or_assoc a f g = bit_ext _ _ λ i. ground (
  arith,
  has_bit-bit_or i (bit_or a f) g,
  has_bit-bit_or i a f,
  has_bit-bit_or i a (bit_or f g),
  has_bit-bit_or i f g,
)

pub bit_or_comm : (f g : ℕ) → bit_or f g ≡ bit_or g f
bit_or_comm f g = bit_ext _ _ λ i. ground (arith, has_bit-bit_or i f g, has_bit-bit_or i g f)

pub bit_or_self : (f : ℕ) → bit_or f f ≡ f
bit_or_self f = bit_ext _ _ λ i. ground (arith, has_bit-bit_or i f f)

-- The bits of `g` are seen through setting or clearing flags that `g` does not touch.
module _ (a f g : ℕ) (apart : bit_and f g ≡ 0) where
  apart_bit : (i : ℕ) → (has_bit i f && has_bit i g) ≡ false
  apart_bit i = ground (arith, has_bit-bit_and i f g, has_bit-zero i)

  pub bit_and-bit_or_apart : bit_and (bit_or a f) g ≡ bit_and a g
  bit_and-bit_or_apart = bit_ext _ _ λ i. ground (
    arith,
    has_bit-bit_and i (bit_or a f) g,
    has_bit-bit_or i a f,
    has_bit-bit_and i a g,
    apart_bit i,
  )

  pub bit_and-clear_apart : bit_and (clear a f) g ≡ bit_and a g
  bit_and-clear_apart = bit_ext _ _ λ i. ground (
    arith,
    has_bit-bit_and i (clear a f) g,
    has_bit-clear i a f,
    has_bit-bit_and i a g,
    apart_bit i,
  )
