-- ===== src/Base/Bits.antt =====
-- Laws of the native bit operations, two binary digits at a time: a protection key has two bits.
use Prim.Native.Nat.{
  ℕ, zero, suc, ◌+◌, ◌*◌, ◌/◌, ◌%◌, ◌≤◌, ◌<◌, min, max, bit_and, bit_or, digits, bit_and-bitwise,
  bit_or-bitwise,
}
use mathlib.Core.Path.{◌≡◌, refl, sym, ◌∙◌}
use native.Mathlib.Omega.{arith}

-- Any fuel that covers the first number gives the same digits.
module _ (last : ℕ → ℕ) (op : ℕ → ℕ → ℕ) where
  digits-zero : (n b : ℕ) → digits last op n 0 b ≡ last b
  digits-zero zero b = refl
  digits-zero (suc n) b = refl

  any_fuel : (n m a b : ℕ) → a ≤ n → a ≤ m → digits last op n a b ≡ digits last op m a b
  any_fuel n m zero b p q = digits-zero n b ∙ sym (digits-zero m b)
  any_fuel zero m (suc a) b p q = absurd (omega arith)
  any_fuel (suc n) zero (suc a) b p q = absurd (omega arith)
  any_fuel (suc n) (suc m) (suc a) b p q =
      omega (arith, any_fuel n m (suc a / 2) (b / 2) (omega arith) (omega arith))

  lowest_digit :
      (a b : ℕ)
      → digits last op (suc a) (suc a) b
        ≡ digits last op (suc a / 2) (suc a / 2) (b / 2) * 2 + op (suc a % 2) (b % 2)
  lowest_digit a b =
      omega (arith, any_fuel a (suc a / 2) (suc a / 2) (b / 2) (omega arith) (omega arith))

pub and_bit : (a b : ℕ) → bit_and a b ≡ bit_and (a / 2) (b / 2) * 2 + min (a % 2) (b % 2)
and_bit zero b = omega (arith, bit_and-bitwise 0 b, bit_and-bitwise 0 (b / 2))
and_bit (suc a) b = omega (
  arith,
  bit_and-bitwise (suc a) b,
  bit_and-bitwise (suc a / 2) (b / 2),
  lowest_digit (λ y. 0) min a b,
)

or_bit : (a b : ℕ) → bit_or a b ≡ bit_or (a / 2) (b / 2) * 2 + max (a % 2) (b % 2)
or_bit zero b = omega (arith, bit_or-bitwise 0 b, bit_or-bitwise 0 (b / 2))
or_bit (suc a) b = omega (
  arith,
  bit_or-bitwise (suc a) b,
  bit_or-bitwise (suc a / 2) (b / 2),
  lowest_digit (λ y. y) max a b,
)

zero-bit_and : (a : ℕ) → bit_and 0 a ≡ 0
zero-bit_and a = omega (arith, bit_and-bitwise 0 a)

zero-bit_or : (a : ℕ) → bit_or 0 a ≡ a
zero-bit_or a = omega (arith, bit_or-bitwise 0 a)

-- The halving goes down to 0, so `n` rounds are enough.
and_zero_below : (n a : ℕ) → a ≤ n → bit_and a 0 ≡ 0
and_zero_below n zero h = zero-bit_and 0
and_zero_below zero (suc a) h = absurd (omega arith)
and_zero_below (suc n) (suc a) h =
    omega (arith, and_bit (suc a) 0, and_zero_below n (suc a / 2) (omega arith))

or_zero_below : (n a : ℕ) → a ≤ n → bit_or a 0 ≡ a
or_zero_below n zero h = zero-bit_or 0
or_zero_below zero (suc a) h = absurd (omega arith)
or_zero_below (suc n) (suc a) h =
    omega (arith, or_bit (suc a) 0, or_zero_below n (suc a / 2) (omega arith))

pub bit_and-zero : (a : ℕ) → bit_and a 0 ≡ 0
bit_and-zero a = and_zero_below a a (omega arith)

pub bit_or-zero : (a : ℕ) → bit_or a 0 ≡ a
bit_or-zero a = or_zero_below a a (omega arith)

quarter : (a : ℕ) → a / 4 ≡ a / 2 / 2
quarter a = omega arith

-- Two digits at a time.
and_pair :
    (a q r : ℕ)
    → r < 4
    → bit_and a (q * 4 + r)
      ≡ bit_and (a / 4) q * 4 + min (a / 2 % 2) (r / 2) * 2 + min (a % 2) (r % 2)
and_pair a q r h =
    let b : ℕ = q * 4 + r in
    let e : q ≡ b / 2 / 2 = omega arith in
    let s : bit_and (a / 4) q ≡ bit_and (a / 2 / 2) (b / 2 / 2) = rw (quarter a, ← e) in
    omega (arith, s, and_bit a b, and_bit (a / 2) (b / 2))

or_pair :
    (a q r : ℕ)
    → r < 4
    → bit_or a (q * 4 + r)
      ≡ bit_or (a / 4) q * 4 + max (a / 2 % 2) (r / 2) * 2 + max (a % 2) (r % 2)
or_pair a q r h =
    let b : ℕ = q * 4 + r in
    let e : q ≡ b / 2 / 2 = omega arith in
    let s : bit_or (a / 4) q ≡ bit_or (a / 2 / 2) (b / 2 / 2) = rw (quarter a, ← e) in
    omega (arith, s, or_bit a b, or_bit (a / 2) (b / 2))

add_zero : (n : ℕ) → n + 0 ≡ n
add_zero n = omega arith

pub and_pair_clear : (a q : ℕ) → bit_and a (q * 4) ≡ bit_and (a / 4) q * 4
and_pair_clear a q = rw (← add_zero (q * 4)) (omega (arith, and_pair a q 0 (omega arith)))

pub and_pair_keep : (a q : ℕ) → bit_and a (q * 4 + 3) ≡ bit_and (a / 4) q * 4 + a % 4
and_pair_keep a q = omega (arith, and_pair a q 3 (omega arith))

-- Setting two digits that are clear is an addition.
pub or_pair_set : (a q r : ℕ) → r < 4 → a % 4 ≡ 0 → bit_or a (q * 4 + r) ≡ bit_or (a / 4) q * 4 + r
or_pair_set a q r h e = omega (arith, or_pair a q r h)

pub or_pair_keep : (a q : ℕ) → bit_or a (q * 4) ≡ bit_or (a / 4) q * 4 + a % 4
or_pair_keep a q = rw (← add_zero (q * 4)) (omega (arith, or_pair a q 0 (omega arith)))
