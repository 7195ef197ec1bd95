-- ===== src/Bits/Digit.antt =====
-- The native bit operations stand for a recursion on binary digits with fuel. Here the fuel goes: the
-- lowest digit of a result, and its half.
use Prim.Native.Nat.{digits, differ, max, bit_or-bitwise, bit_xor-bitwise}
use dimdb.Prelude.{
  ℕ, zero, suc, ◌+◌, ◌*◌, ◌/◌, ◌%◌, ◌≤◌, ◌<◌, bit_or, bit_xor, ◌≡◌, refl, sym, ◌∙◌, arith,
}

module _ (z : ℕ → ℕ) (f : ℕ → ℕ → ℕ) where
  digits_of_zero : (fuel b : ℕ) → digits z f fuel zero b ≡ z b
  digits_of_zero zero b = refl
  digits_of_zero (suc fuel) b = refl

  -- Fuel past the number itself makes no difference.
  spare_fuel :
      (a b k l : ℕ) (bound : ℕ) → a ≤ bound → a ≤ k → a ≤ l → digits z f k a b ≡ digits z f l a b
  spare_fuel zero b k l bound _ _ _ = digits_of_zero k b ∙ sym (digits_of_zero l b)
  spare_fuel (suc a) b k l zero p q r = absurd (omega arith)
  spare_fuel (suc a) b zero l (suc bound) p q r = absurd (omega arith)
  spare_fuel (suc a) b (suc k) zero (suc bound) p q r = absurd (omega arith)
  spare_fuel (suc a) b (suc k) (suc l) (suc bound) p q r =
      rw (spare_fuel (suc a / 2) (b / 2) k l bound (omega arith) (omega arith) (omega arith))

differ-add : (x y : ℕ) → x < 2 → y < 2 → differ x y ≡ (x + y) % 2
differ-add zero zero p q = refl
differ-add zero (suc zero) p q = refl
differ-add (suc zero) zero p q = refl
differ-add (suc zero) (suc zero) p q = refl
differ-add _ _ p q = absurd (omega arith)

pub zero-bit_xor : (b : ℕ) → bit_xor 0 b ≡ b
zero-bit_xor b = bit_xor-bitwise 0 b

pub zero-bit_or : (b : ℕ) → bit_or 0 b ≡ b
zero-bit_or b = bit_or-bitwise 0 b

-- The lowest digit of `a ^ b` is the parity of the sum.
pub bit_xor_digit : (a b : ℕ) → bit_xor a b ≡ bit_xor (a / 2) (b / 2) * 2 + (a + b) % 2
bit_xor_digit zero b = omega (arith, zero-bit_xor b, zero-bit_xor (b / 2))
bit_xor_digit (suc a) b = omega (
  arith,
  bit_xor-bitwise (suc a) b,
  bit_xor-bitwise (suc a / 2) (b / 2),
  spare_fuel (λ y. y) differ (suc a / 2) (b / 2) a (suc a / 2) a (omega arith) (omega arith)
      (omega arith),
  differ-add (suc a % 2) (b % 2) (omega arith) (omega arith),
)

-- The lowest digit of `a | b` is 0 where both are even.
pub bit_or_digit : (a b : ℕ) → bit_or a b ≡ bit_or (a / 2) (b / 2) * 2 + max (a % 2) (b % 2)
bit_or_digit zero b = omega (arith, zero-bit_or b, zero-bit_or (b / 2))
bit_or_digit (suc a) b = omega (
  arith,
  bit_or-bitwise (suc a) b,
  bit_or-bitwise (suc a / 2) (b / 2),
  spare_fuel (λ y. y) max (suc a / 2) (b / 2) a (suc a / 2) a (omega arith) (omega arith)
      (omega arith),
)
